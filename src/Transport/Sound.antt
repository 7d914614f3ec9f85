-- ===== src/Transport/Sound.antt =====
-- Every event keeps the window's invariant, so every run does.
use file_hop_z.Base.{ℕ, refl, inl, inr, Option, List, [], ◌∷◌, arith, Bool-cases, Option-cases}
use file_hop_z.Base.Bytes.{Bytes}
use file_hop_z.Base.Dict.{lookup, erase, length-insert_found}
use file_hop_z.Errors.{BoostError, failed}
use file_hop_z.Packet.{Packet}
use file_hop_z.Crypto.{CryptoContext}
use file_hop_z.Host.{Host, IsRounding}
use file_hop_z.Transport.{Transport, new_transport, start_loops, stop_loops}
use file_hop_z.Transport.Ack.{notify_sender}
use file_hop_z.Transport.Send.{send_packet, send_woken, send_completed, resend_completed}
use file_hop_z.Transport.Receive.{receive_turn}
use file_hop_z.Transport.Timeout.{drain_cancelled, timeout_turn, timeout_resumed}
use file_hop_z.Transport.Step.{
  Event, loops_start, loops_stop, packet_offered, sender_woken, send_done, datagram_arrived,
  receive_failed, timer_fired, resend_due, resend_done, timer_failed, packet_wanted, drain_wanted,
  drain_expired, step, run,
}
use file_hop_z.Transport.Window.{
  IsSound, erase-IsBounded, nil-IsBounded, insert-IsBounded, notify_sender-IsSound,
  signal_drained-IsSound, send_window-IsSound,
}
use file_hop_z.Transport.SoundLoops.{
  handle_loop_result-IsSound, receive_turn-IsSound, timeout_turn-IsSound,
  wait_in_flight_drained-IsSound, finish_turn-IsSound,
}

module _ (H : Host) (R : IsRounding H.float) where
  pub new_transport-IsSound :
      (endpoint : H.Endpoint) (crypto : CryptoContext H.ssl)
      → IsSound H (new_transport H endpoint crypto)
  unfolding new_transport lookup
  new_transport-IsSound endpoint crypto = record {
    capped = omega arith;
    nodup = tt;
    keyed = λ s l e. cc;
    positive = R.of_nat_mono 1 64 (omega arith) (omega arith);
    limited = R.of_nat_mono 64 1024 (omega arith) (omega arith);
  }

  send_packet-IsSound :
      (handler : ℕ) (p : Packet) (now : ℕ) (random : Option Bytes) (t : Transport H)
      → IsSound H t
      → IsSound H (send_packet H handler p now random t).0
  unfolding send_packet
  send_packet-IsSound handler p now random t b = elim (Bool-cases (failed t.loop_error)) [
    | inl e ↦ rw e b
    | inr e ↦ rw e (send_window-IsSound H R handler p now random t b)
  ]

  send_woken-IsSound :
      (handler : ℕ) (p : Packet) (now : ℕ) (random : Option Bytes) (ec : BoostError)
      (t : Transport H)
      → IsSound H t
      → IsSound H (send_woken H handler p now random ec t).0
  unfolding send_woken
  send_woken-IsSound handler p now random ec t b = elim (Bool-cases (failed ec)) [
    | inl e ↦ rw e b
    | inr e ↦ elim (Bool-cases (failed t.loop_error)) [
      | inl f ↦ rw (e, f) b
      | inr f ↦ rw (e, f) (send_window-IsSound H R handler p now random t b)
    ]
  ]

  send_completed-IsSound :
      (s : ℕ) (ec : BoostError) (t : Transport H)
      → IsSound H t
      → IsSound H (send_completed H s ec t).0
  unfolding send_completed
  send_completed-IsSound s ec t b = elim (Bool-cases (failed ec)) [
    | inl e ↦
        let t' : Transport H = record t { in_flight = erase s t.in_flight } in
        rw e (
          signal_drained-IsSound H R (notify_sender H t').0
            (notify_sender-IsSound H R t' (erase-IsBounded H s t.in_flight t.cwnd.value b)))
    | inr e ↦ rw e b
  ]

  resend_completed-IsSound :
      (s now : ℕ) (ec : BoostError) (t : Transport H)
      → IsSound H t
      → IsSound H (resend_completed H s now ec t).0
  unfolding resend_completed
  resend_completed-IsSound s now ec t b = elim (Bool-cases (failed ec)) [
    | inl e ↦ rw e b
    | inr e ↦ elim (Option-cases (lookup s t.in_flight)) [
      | inl gone ↦ rw (e, gone, resend_completed) b
      | inr (l, held) ↦
          rw (e, held, resend_completed)
            (insert-IsBounded H s (record l { send_time = now }) t.in_flight t.cwnd.value
              (b.keyed s l held)
              (omega (
                arith,
                b.capped,
                length-insert_found s (record l { send_time = now }) t.in_flight (rw held refl),
              ))
              b)
    ]
  ]

  stop_loops-IsSound : (t : Transport H) → IsSound H t → IsSound H (stop_loops H t).0
  unfolding stop_loops
  stop_loops-IsSound t b = nil-IsBounded H t.in_flight t.cwnd.value b

  -- Every event keeps the window's invariant: at most 1024 packets are in flight, each stored once
  -- and under its own sequence number, and the congestion window lies between 1 and 1024; doubles
  -- are assumed to have the facts of rounding in `IsRounding`.
  pub step-IsSound : (e : Event H) (t : Transport H) → IsSound H t → IsSound H (step H e t).0
  unfolding drain_cancelled step start_loops
  step-IsSound (loops_start now) t b = b
  step-IsSound loops_stop t b = stop_loops-IsSound t b
  step-IsSound (packet_offered handler p now random) t b =
      send_packet-IsSound handler p now random t b
  step-IsSound (sender_woken handler p now random ec) t b =
      send_woken-IsSound handler p now random ec t b
  step-IsSound (send_done s ec) t b = send_completed-IsSound s ec t b
  step-IsSound (datagram_arrived now remote p) t b =
      finish_turn-IsSound H R (receive_turn H now remote p t).2 (receive_turn H now remote p t).0
        (receive_turn-IsSound H R now remote p t b)
  step-IsSound (receive_failed ec) t b = handle_loop_result-IsSound H R ec t b
  step-IsSound (timer_fired now) t b =
      finish_turn-IsSound H R (timeout_turn H now t).2 (timeout_turn H now t).0
        (timeout_turn-IsSound H R now t b)
  step-IsSound (resend_due s) t b = b
  step-IsSound (resend_done s now ec) t b =
      finish_turn-IsSound H R (timeout_resumed (resend_completed H s now ec t).1)
        (resend_completed H s now ec t).0 (resend_completed-IsSound s now ec t b)
  step-IsSound (timer_failed ec) t b = finish_turn-IsSound H R (timeout_resumed ec) t b
  step-IsSound (packet_wanted handler) t b = b
  step-IsSound (drain_wanted handler) t b = wait_in_flight_drained-IsSound H R handler t b
  step-IsSound (drain_expired handler) t b = b

  run-IsSound : (es : List (Event H)) (t : Transport H) → IsSound H t → IsSound H (run H es t).0
  unfolding run
  run-IsSound [] t b = b
  run-IsSound (e ∷ es) t b = run-IsSound es (step H e t).0 (step-IsSound e t b)

  -- A new transport keeps to its window through every sequence of events, starts and stops, sends
  -- and wake-ups, datagrams from anywhere, timeouts and failures, in any order: at most 1024
  -- packets are in flight, each stored once and under its own sequence number, and the congestion
  -- window lies between 1 and 1024; doubles are assumed to have the facts of rounding in
  -- `IsRounding`.
  pub run-new_transport-IsSound :
      (endpoint : H.Endpoint) (crypto : CryptoContext H.ssl) (es : List (Event H))
      → IsSound H (run H es (new_transport H endpoint crypto)).0
  run-new_transport-IsSound endpoint crypto es =
      run-IsSound es (new_transport H endpoint crypto) (new_transport-IsSound endpoint crypto)
