-- ===== src/Transport/Encrypted.antt =====
-- The encryption of the connection is turned on by the handshake and never off.
use file_hop_z.Base.{◌≡◌, refl, ◌∙◌, arith}
use file_hop_z.Errors.{BoostError}
use file_hop_z.Host.{Host}
use file_hop_z.Transport.{Transport, start_loops, stop_loops, store_loop_error, handle_loop_result}
use file_hop_z.Transport.Send.{resend_completed}
use file_hop_z.Transport.Receive.{LoopOutcome, continues, stops, receive_turn}
use file_hop_z.Transport.Timeout.{drain_cancelled, timeout_turn, timeout_resumed}
use file_hop_z.Transport.Step.{
  Event, loops_start, loops_stop, packet_offered, sender_woken, send_done, datagram_arrived,
  receive_failed, timer_fired, resend_due, resend_done, timer_failed, packet_wanted, drain_wanted,
  drain_expired, finish_turn, step,
}
use file_hop_z.Transport.Keeps.{
  send_packet-Keeps, send_woken-Keeps, send_completed-Keeps, resend_completed-Keeps,
  timeout_turn-Keeps, wait_in_flight_drained-Keeps, receive_turn-Keeps,
}

module _ (H : Host) where
  handle_loop_result_encrypted :
      (ec : BoostError) (t : Transport H)
      → (handle_loop_result H ec t).0.connection_encrypted ≡ t.connection_encrypted
  unfolding handle_loop_result store_loop_error
  handle_loop_result_encrypted ec t = ground arith

  finish_turn_encrypted :
      (outcome : LoopOutcome) (t : Transport H)
      → (finish_turn H outcome t).0.connection_encrypted ≡ t.connection_encrypted
  finish_turn_encrypted continues t = refl
  finish_turn_encrypted (stops ec) t = handle_loop_result_encrypted ec t

  -- No event of the transport turns its encryption on or off; only the handshake does.
  pub step_encrypted :
      (e : Event H) (t : Transport H) → (step H e t).0.connection_encrypted ≡ t.connection_encrypted
  unfolding drain_cancelled step stop_loops start_loops
  step_encrypted (loops_start now) t = refl
  step_encrypted loops_stop t = refl
  step_encrypted (packet_offered h p now random) t = (send_packet-Keeps H h p now random t).1
  step_encrypted (sender_woken h p now random ec) t = (send_woken-Keeps H h p now random ec t).1
  step_encrypted (send_done n ec) t = (send_completed-Keeps H n ec t).1
  step_encrypted (datagram_arrived now remote p) t =
      finish_turn_encrypted (receive_turn H now remote p t).2 (receive_turn H now remote p t).0
      ∙ (receive_turn-Keeps H now remote p t).1
  step_encrypted (receive_failed ec) t = handle_loop_result_encrypted ec t
  step_encrypted (timer_fired now) t =
      finish_turn_encrypted (timeout_turn H now t).2 (timeout_turn H now t).0
      ∙ (timeout_turn-Keeps H now t).1
  step_encrypted (resend_due n) t = refl
  step_encrypted (resend_done n now ec) t =
      finish_turn_encrypted (timeout_resumed (resend_completed H n now ec t).1)
        (resend_completed H n now ec t).0
      ∙ (resend_completed-Keeps H n now ec t).1
  step_encrypted (timer_failed ec) t = finish_turn_encrypted (timeout_resumed ec) t
  step_encrypted (packet_wanted h) t = refl
  step_encrypted (drain_wanted h) t = (wait_in_flight_drained-Keeps H h t).1
  step_encrypted (drain_expired h) t = refl
