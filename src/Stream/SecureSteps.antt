-- ===== src/Stream/SecureSteps.antt =====
-- Every event keeps the loops of a stream to an encrypted connection.
use file_hop_z.Base.{
  ℕ, ◌≡◌, ◌∙◌, sym, subst, Bool, true, false, not, ◌||◌, inl, inr, Option, none, some, List, [],
  ◌∷◌, arith, Bool-cases, if_true, if_false,
}
use file_hop_z.Base.Bytes.{Bytes}
use file_hop_z.Base.Dict.{lookup}
use file_hop_z.Errors.{BoostError, failed, Expected, ok, unexpected}
use file_hop_z.Packet.{Packet}
use file_hop_z.Crypto.{CryptoContext}
use file_hop_z.Host.{Host}
use file_hop_z.Transport.{start_loops, stop_loops}
use file_hop_z.Transport.Encrypted.{step_encrypted}
use file_hop_z.Transport.Keeps.{wait_in_flight_drained-Keeps}
use file_hop_z.Transport.Receive.{receive_packet}
use file_hop_z.Transport.Timeout.{DrainOutcome, drained, waiting, wait_in_flight_drained}
use file_hop_z.Reorder.{Window}
use file_hop_z.Stream.{
  HandshakeMode, Stream, new_stream, begin_loops, close_loops, store_stream_error,
  handle_receive_chunks_result,
}
use file_hop_z.Stream.Calls.{
  Stretch, StreamCall, send_call, receive_call, Connection, new_connection, with_transport,
  shake_start, start_call, handshake_sent, handshake_received, send, receive, close_drained,
  close_waited, close, close_stopped, chunks_received, chunks_turn,
}
use file_hop_z.Stream.Machine.{
  Event, send_called, receive_called, key_sent, key_arrived, chunk_popped, reader_cancelled,
  packet_popped, loop_cancelled, close_called, close_resumed, close_posted, transport_event, step,
  run,
}
use file_hop_z.Stream.Secure.{
  IsEncrypted, IsSecure, shake_start-Shakes, shake_sent-Shakes, shake_received-Shakes,
  run_call-IsSecure, shaken-IsSecure,
}

module _ (H : Host) (was : Bool) where
  start_call-IsSecure :
      (call : StreamCall) (me loop draw now : ℕ) (random : Option Bytes) (c : Connection H)
      → IsSecure H was c
      → IsSecure H was (start_call H call me loop draw now random c).0
  unfolding start_call begin_loops start_loops
  start_call-IsSecure call me loop draw now random c s =
      let c' : Connection H = record c { stream = begin_loops H now c.stream } in
      shaken-IsSecure H was call me loop now random
        (shake_start H c'.stream.handshake_mode draw c'.stream.transport) c' s
        (shake_start-Shakes H c'.stream.handshake_mode draw c'.stream.transport)

  send-IsSecure :
      (stale bytes : Bytes) (me loop draw now : ℕ) (random : Option Bytes) (c : Connection H)
      → IsSecure H was c
      → IsSecure H was (send H stale bytes me loop draw now random c).0
  unfolding send
  send-IsSecure stale bytes me loop draw now random c s =
      elim (Bool-cases (not c.stream.loops_running)) [
        | inl e ↦
            subst (λ (r : Stretch H). IsSecure H was r.0)
              (sym (if_true (not c.stream.loops_running) _ _ e))
              (start_call-IsSecure (send_call stale bytes) me loop draw now random c s)
        | inr e ↦
            subst (λ (r : Stretch H). IsSecure H was r.0)
              (sym (if_false (not c.stream.loops_running) _ _ e))
              (run_call-IsSecure H was (send_call stale bytes) me now random c s)
      ]

  receive-IsSecure :
      (me loop draw now : ℕ) (c : Connection H)
      → IsSecure H was c
      → IsSecure H was (receive H me loop draw now c).0
  unfolding receive
  receive-IsSecure me loop draw now c s = elim (Bool-cases (failed c.stream.stream_error)) [
    | inl e ↦
        subst (λ (r : Stretch H). IsSecure H was r.0)
          (sym (if_true (failed c.stream.stream_error) _ _ e)) s
    | inr e ↦
        subst (λ (r : Stretch H). IsSecure H was r.0)
          (sym (if_false (failed c.stream.stream_error) _ _ e))
          (elim (Bool-cases (not c.stream.loops_running)) [
            | inl f ↦
                subst (λ (r : Stretch H). IsSecure H was r.0)
                  (sym (if_true (not c.stream.loops_running) _ _ f))
                  (start_call-IsSecure receive_call me loop draw now none c s)
            | inr f ↦
                subst (λ (r : Stretch H). IsSecure H was r.0)
                  (sym (if_false (not c.stream.loops_running) _ _ f))
                  (run_call-IsSecure H was receive_call me now none c s)
          ])
  ]

  handle_receive_chunks_result-IsSecure :
      (ec : BoostError) (s : Stream H)
      → ((was || s.loops_running) ≡ true → IsEncrypted H s.transport)
      → (was || (handle_receive_chunks_result H ec s).0.loops_running) ≡ true
      → IsEncrypted H (handle_receive_chunks_result H ec s).0.transport
  unfolding handle_receive_chunks_result store_stream_error
  handle_receive_chunks_result-IsSecure ec s on running = ground (arith, on)

  chunks_received-IsSecure :
      (loop : ℕ) (w : Window) (r : Expected Packet) (c : Connection H)
      → IsSecure H was c
      → IsSecure H was (chunks_received H loop w r c).0
  unfolding chunks_received
  chunks_received-IsSecure loop w (unexpected ec) c s =
      handle_receive_chunks_result-IsSecure ec c.stream s
  chunks_received-IsSecure loop w (ok p) c s = s

  chunks_turn-IsSecure :
      (loop : ℕ) (w : Option Window) (ec : BoostError) (p : Packet) (c : Connection H)
      → IsSecure H was c
      → IsSecure H was (chunks_turn H loop w ec p c).0
  unfolding chunks_turn
  chunks_turn-IsSecure loop none ec p c s = s
  chunks_turn-IsSecure loop (some w) ec p c s =
      chunks_received-IsSecure loop w (receive_packet H ec p c.stream.transport) c s

  close_waited-IsSecure :
      (outcome : DrainOutcome) (c : Connection H)
      → IsSecure H was c
      → IsSecure H was (close_waited H outcome c).0
  unfolding close_waited close_drained close_loops
  close_waited-IsSecure (drained whole) c s = λ running. s (ground (arith, running))
  close_waited-IsSecure waiting c s = s

  -- Every event keeps the invariant.
  step-IsSecure :
      (e : Event H) (c : Connection H) → IsSecure H was c → IsSecure H was (step H e c).0
  unfolding step handshake_sent handshake_received close close_drained close_loops close_stopped
      wait_in_flight_drained stop_loops
  step-IsSecure (send_called stale bytes me loop draw now random) c s =
      send-IsSecure stale bytes me loop draw now random c s
  step-IsSecure (receive_called me loop draw now) c s = receive-IsSecure me loop draw now c s
  step-IsSecure (key_sent call me loop now random ec) c s =
      shaken-IsSecure H was call me loop now random _ c s
        (shake_sent-Shakes H c.stream.handshake_mode ec c.stream.transport)
  step-IsSecure (key_arrived call me loop now random ec p) c s =
      shaken-IsSecure H was call me loop now random _ c s
        (shake_received-Shakes H c.stream.handshake_mode ec p c.stream.transport)
  step-IsSecure (chunk_popped me ec chunk) c s = s
  step-IsSecure (reader_cancelled me) c s = s
  step-IsSecure (packet_popped loop ec p) c s =
      chunks_turn-IsSecure loop (lookup loop c.loops) ec p c s
  step-IsSecure (loop_cancelled loop) c s = s
  step-IsSecure (close_called me) c s =
      close_waited-IsSecure (wait_in_flight_drained H me c.stream.transport).1
        (with_transport H c (wait_in_flight_drained H me c.stream.transport).0)
        (λ running. (wait_in_flight_drained-Keeps H me c.stream.transport).1 ∙ s running)
  step-IsSecure (close_resumed me) c s = λ running. s (ground (arith, running))
  step-IsSecure (close_posted me) c s = s
  step-IsSecure (transport_event e) c s =
      λ running. step_encrypted H e c.stream.transport ∙ s running

  pub run-IsSecure :
      (es : List (Event H)) (c : Connection H) → IsSecure H was c → IsSecure H was (run H es c).0
  unfolding run
  run-IsSecure [] c s = s
  run-IsSecure (e ∷ es) c s = run-IsSecure es (step H e c).0 (step-IsSecure e c s)

module _ (H : Host) where
  pub new-IsSecure :
      (mode : HandshakeMode) (endpoint : H.Endpoint) (crypto : CryptoContext H.ssl)
      → IsSecure H false (new_connection H mode endpoint crypto)
  unfolding new_stream
  new-IsSecure mode endpoint crypto running = cc
