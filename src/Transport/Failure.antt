-- ===== src/Transport/Failure.antt =====
-- The first error of a loop is kept, and every operation reports it.
use file_hop_z.Base.{ℕ, ◌≡◌, refl, ◌∙◌, Bool, true, false, Option, List, [], ◌∷◌, arith, ◌||◌}
use file_hop_z.Base.Bytes.{Bytes}
use file_hop_z.Errors.{BoostError, failed, unexpected}
use file_hop_z.Packet.{Packet}
use file_hop_z.Host.{Host}
use file_hop_z.Transport.{Transport, stop_loops, store_loop_error, handle_loop_result}
use file_hop_z.Transport.Send.{returned, send_packet, resend_completed}
use file_hop_z.Transport.Receive.{LoopOutcome, continues, stops, receive_turn, receive_packet}
use file_hop_z.Transport.Timeout.{
  drain_cancelled, timeout_turn, timeout_resumed, drained, wait_in_flight_drained, drain_resumed,
}
use file_hop_z.Transport.Step.{
  Event, loops_start, loops_stop, packet_offered, sender_woken, send_done, datagram_arrived,
  receive_failed, timer_fired, resend_due, resend_done, timer_failed, packet_wanted, drain_wanted,
  drain_expired, finish_turn, step, run,
}
use file_hop_z.Transport.Keeps.{
  send_packet-Keeps, send_woken-Keeps, send_completed-Keeps, resend_completed-Keeps,
  timeout_turn-Keeps, wait_in_flight_drained-Keeps, receive_turn-Keeps,
}

module _ (H : Host) where
  handle_loop_result_kept :
      (ec : BoostError) (t : Transport H)
      → failed t.loop_error ≡ true
      → (handle_loop_result H ec t).0.loop_error ≡ t.loop_error
  unfolding handle_loop_result store_loop_error
  handle_loop_result_kept ec t f = ground arith

  finish_turn_kept :
      (outcome : LoopOutcome) (t t' : Transport H)
      → failed t.loop_error ≡ true
      → t'.loop_error ≡ t.loop_error
      → (finish_turn H outcome t').0.loop_error ≡ t.loop_error
  finish_turn_kept continues t t' f same = same
  finish_turn_kept (stops ec) t t' f same = handle_loop_result_kept ec t' (rw same f) ∙ same

  abbrev pub is_start : Event H → Bool
  is_start (loops_start now) = true
  is_start _ = false

  abbrev pub has_start : List (Event H) → Bool
  has_start [] = false
  has_start (e ∷ es) = is_start e || has_start es

  step_kept :
      (e : Event H) (t : Transport H)
      → failed t.loop_error ≡ true
      → is_start e ≡ false
      → (step H e t).0.loop_error ≡ t.loop_error
  unfolding drain_cancelled step stop_loops
  step_kept (loops_start now) t f s = absurd cc
  step_kept loops_stop t f s = refl
  step_kept (packet_offered h p now random) t f s = (send_packet-Keeps H h p now random t).0
  step_kept (sender_woken h p now random ec) t f s = (send_woken-Keeps H h p now random ec t).0
  step_kept (send_done n ec) t f s = (send_completed-Keeps H n ec t).0
  step_kept (datagram_arrived now remote p) t f s =
      finish_turn_kept (receive_turn H now remote p t).2 t (receive_turn H now remote p t).0 f
        (receive_turn-Keeps H now remote p t).0
  step_kept (receive_failed ec) t f s = handle_loop_result_kept ec t f
  step_kept (timer_fired now) t f s =
      finish_turn_kept (timeout_turn H now t).2 t (timeout_turn H now t).0 f
        (timeout_turn-Keeps H now t).0
  step_kept (resend_due n) t f s = refl
  step_kept (resend_done n now ec) t f s =
      finish_turn_kept (timeout_resumed (resend_completed H n now ec t).1) t
        (resend_completed H n now ec t).0 f (resend_completed-Keeps H n now ec t).0
  step_kept (timer_failed ec) t f s = finish_turn_kept (timeout_resumed ec) t t f refl
  step_kept (packet_wanted h) t f s = refl
  step_kept (drain_wanted h) t f s = (wait_in_flight_drained-Keeps H h t).0
  step_kept (drain_expired h) t f s = refl

  run_kept :
      (es : List (Event H)) (t : Transport H)
      → failed t.loop_error ≡ true
      → has_start es ≡ false
      → (run H es t).0.loop_error ≡ t.loop_error
  unfolding run
  run_kept [] t f s = refl
  run_kept (e ∷ es) t f s =
      let same : (step H e t).0.loop_error ≡ t.loop_error = step_kept e t f (ground arith) in
      run_kept es (step H e t).0 (rw same f) (ground arith) ∙ same

  -- Once a loop has failed, its error is the transport's until the loops are started again,
  -- whatever happens in between: a send returns that error and sends nothing, a packet is not
  -- received, and waiting for the link to drain says that it did not.
  pub run_after_failure :
      (es : List (Event H)) (t : Transport H) (h : ℕ) (p q : Packet) (now : ℕ)
      (random : Option Bytes) (ec : BoostError)
      → failed t.loop_error ≡ true
      → failed ec ≡ false
      → has_start es ≡ false
      → (send_packet H h p now random (run H es t).0 ≡ ((run H es t).0, [], returned t.loop_error))
        × (receive_packet H ec q (run H es t).0 ≡ unexpected t.loop_error)
        × (wait_in_flight_drained H h (run H es t).0 ≡ ((run H es t).0, drained false))
        × (drain_resumed H (run H es t).0 ≡ false)
  unfolding send_packet receive_packet wait_in_flight_drained drain_resumed
  run_after_failure es t h p q now random ec f quiet s =
      let same : (run H es t).0.loop_error ≡ t.loop_error = run_kept es t f s in
      let still : failed (run H es t).0.loop_error ≡ true = rw same f in ground (arith, same, still)
