-- ===== src/Transport/Step.antt =====
-- The transport as a machine: every event that reaches it, and what one event does. Orderings of
-- the coroutines are sequences of events.
use file_hop_z.Base.{ℕ, Option, List, [], ◌∷◌, ◌++◌, map}
use file_hop_z.Base.Bytes.{Bytes}
use file_hop_z.Errors.{BoostError}
use file_hop_z.Packet.{Packet}
use file_hop_z.AsyncQueue
use file_hop_z.Host.{Host}
use file_hop_z.Transport.{
  Transport, Effect, wake_receiver, start_loops, stop_loops, handle_loop_result,
}
use file_hop_z.Transport.Send.{
  SendOutcome, send_packet, send_woken, send_completed, resend_completed,
}
use file_hop_z.Transport.Receive.{LoopOutcome, continues, stops, receive_turn}
use file_hop_z.Transport.Timeout.{
  timeout_turn, resend_turn, timeout_resumed, wait_in_flight_drained, drain_cancelled,
}

module _ (H : Host) where
  pub data Event : Type 0 where
    loops_start : ℕ → Event
    loops_stop : Event
    packet_offered : ℕ → Packet → ℕ → Option Bytes → Event
    sender_woken : ℕ → Packet → ℕ → Option Bytes → BoostError → Event
    send_done : ℕ → BoostError → Event
    datagram_arrived : ℕ → H.Endpoint → Packet → Event
    receive_failed : BoostError → Event
    timer_fired : ℕ → Event
    resend_due : ℕ → Event
    resend_done : ℕ → ℕ → BoostError → Event
    timer_failed : BoostError → Event
    packet_wanted : ℕ → Event
    drain_wanted : ℕ → Event
    drain_expired : ℕ → Event

  -- A loop that stops hands its result to its completion handler.
  abbrev pub finish_turn : LoopOutcome → Transport H → Transport H × List (Effect H)
  finish_turn continues t = (t, [])
  finish_turn (stops ec) t = handle_loop_result H ec t

  abbrev pub after_turn :
      Transport H × List (Effect H) × LoopOutcome → Transport H × List (Effect H)
  after_turn (t, effects, outcome) = let (t', more) = finish_turn outcome t in (t', effects ++ more)

  abbrev pub after_send :
      Transport H × List (Effect H) × SendOutcome → Transport H × List (Effect H)
  after_send (t, effects, outcome) = (t, effects)

  unfoldable pub step : Event → Transport H → Transport H × List (Effect H)
  step (loops_start now) t = (start_loops H now t, [])
  step loops_stop t = stop_loops H t
  step (packet_offered handler source now random) t =
      after_send (send_packet H handler source now random t)
  step (sender_woken handler source now random ec) t =
      after_send (send_woken H handler source now random ec t)
  step (send_done sequence ec) t = after_send (send_completed H sequence ec t)
  step (datagram_arrived now remote p) t = after_turn (receive_turn H now remote p t)
  step (receive_failed ec) t = handle_loop_result H ec t
  step (timer_fired now) t =
      let (t', late, outcome) = timeout_turn H now t in finish_turn outcome t'
  step (resend_due sequence) t = (t, resend_turn H sequence t)
  step (resend_done sequence now ec) t =
      let (t', ec') = resend_completed H sequence now ec t in finish_turn (timeout_resumed ec') t'
  step (timer_failed ec) t = finish_turn (timeout_resumed ec) t
  step (packet_wanted handler) t =
      let (q, woken) = AsyncQueue.pop handler t.received_packets_queue in
      (record t { received_packets_queue = q }, map wake_receiver woken)
  step (drain_wanted handler) t = ((wait_in_flight_drained H handler t).0, [])
  step (drain_expired handler) t = drain_cancelled H handler t

  -- Every sequence of events, and all that it asks of the surroundings.
  unfoldable pub run : List Event → Transport H → Transport H × List (Effect H)
  run [] t = (t, [])
  run (e ∷ es) t =
      let (t', effects) = step e t in let (t'', more) = run es t' in (t'', effects ++ more)
