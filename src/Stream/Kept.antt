-- ===== src/Stream/Kept.antt =====
-- The error of the stream is kept, and every receive reports it.
use file_hop_z.Base.{
  ℕ, ◌≡◌, refl, ◌∙◌, ap, inl, inr, Bool, true, false, Option, none, some, List, [], ◌∷◌, ◌||◌,
  arith, Bool-cases,
}
use file_hop_z.Base.Bytes.{Bytes}
use file_hop_z.Base.Dict.{lookup}
use file_hop_z.Errors.{BoostError, failed, Expected, ok, unexpected}
use file_hop_z.Packet.{Packet}
use file_hop_z.Host.{Host}
use file_hop_z.Transport.{Transport}
use file_hop_z.Transport.Handshake.{HandshakeStep, finished, sends, awaits}
use file_hop_z.Transport.Receive.{receive_packet}
use file_hop_z.Transport.Timeout.{DrainOutcome, drained, waiting, wait_in_flight_drained}
use file_hop_z.Reorder.{Chunk, Window}
use file_hop_z.Stream.{
  close_loops, Stream, stream_packet, end_start_loops, store_stream_error,
  handle_receive_chunks_result, receive_popped,
}
use file_hop_z.Stream.Calls.{
  StreamCall, send_call, receive_call, chunk_received, closed, Connection, with_transport, forward,
  run_call, handshake_ended, shaken, spawn_loop, handshake_sent, handshake_received, receive,
  close_drained, close_waited, close, close_stopped, chunks_received, chunks_turn,
}
use file_hop_z.Stream.Machine.{
  Event, send_called, receive_called, key_sent, key_arrived, chunk_popped, reader_cancelled,
  packet_popped, loop_cancelled, close_called, close_resumed, close_posted, transport_event, stands,
  step, run,
}

module _ (H : Host) where
  abbrev error_of : Connection H → BoostError
  error_of c = c.stream.stream_error

  forward_error :
      (me now : ℕ) (random : Option Bytes) (r : Expected Packet) (c : Connection H)
      → error_of (forward H me now random r c).0 ≡ error_of c
  unfolding forward
  forward_error me now random (unexpected ec) c = refl
  forward_error me now random (ok p) c = refl

  run_call_error :
      (call : StreamCall) (me now : ℕ) (random : Option Bytes) (c : Connection H)
      → error_of (run_call H call me now random c).0 ≡ error_of c
  unfolding run_call
  run_call_error (send_call stale bytes) me now random c =
      forward_error me now random (stream_packet stale bytes) c
  run_call_error receive_call me now random c = refl

  handshake_ended_error :
      (call : StreamCall) (me loop now : ℕ) (random : Option Bytes) (ec : BoostError)
      (c : Connection H)
      → error_of (handshake_ended H call me loop now random ec c).0 ≡ error_of c
  unfolding handshake_ended end_start_loops spawn_loop
  handshake_ended_error call me loop now random ec c = elim (Bool-cases (failed ec)) [
    | inl e ↦ rw (e, e) refl
    | inr e ↦ rw (e, e) (run_call_error call me now random _)
  ]

  shaken_error :
      (call : StreamCall) (me loop now : ℕ) (random : Option Bytes)
      (r : Transport H × HandshakeStep) (c : Connection H)
      → error_of (shaken H call me loop now random r c).0 ≡ error_of c
  unfolding shaken
  shaken_error call me loop now random (t, finished ec) c =
      handshake_ended_error call me loop now random ec (with_transport H c t)
  shaken_error call me loop now random (t, sends p) c = refl
  shaken_error call me loop now random (t, awaits) c = refl

  handle_receive_chunks_result_error :
      (ec : BoostError) (s : Stream H)
      → failed s.stream_error ≡ true
      → (handle_receive_chunks_result H ec s).0.stream_error ≡ s.stream_error
  unfolding handle_receive_chunks_result store_stream_error
  handle_receive_chunks_result_error ec s f = ground arith

  chunks_received_error :
      (loop : ℕ) (w : Window) (r : Expected Packet) (c : Connection H)
      → failed (error_of c) ≡ true
      → error_of (chunks_received H loop w r c).0 ≡ error_of c
  unfolding chunks_received
  chunks_received_error loop w (unexpected ec) c f =
      handle_receive_chunks_result_error ec c.stream f
  chunks_received_error loop w (ok p) c f = refl

  chunks_turn_error :
      (loop : ℕ) (w : Option Window) (ec : BoostError) (p : Packet) (c : Connection H)
      → failed (error_of c) ≡ true
      → error_of (chunks_turn H loop w ec p c).0 ≡ error_of c
  unfolding chunks_turn
  chunks_turn_error loop none ec p c f = refl
  chunks_turn_error loop (some w) ec p c f =
      chunks_received_error loop w (receive_packet H ec p c.stream.transport) c f

  close_waited_error :
      (outcome : DrainOutcome) (c : Connection H)
      → error_of (close_waited H outcome c).0 ≡ error_of c
  unfolding close_waited close_drained close_loops
  close_waited_error (drained whole) c = refl
  close_waited_error waiting c = refl

  abbrev pub is_send : Event H → Bool
  is_send (send_called stale bytes me loop draw now random) = true
  is_send _ = false

  abbrev pub has_send : List (Event H) → Bool
  has_send [] = false
  has_send (e ∷ es) = is_send e || has_send es

  step_error :
      (e : Event H) (c : Connection H)
      → failed (error_of c) ≡ true
      → is_send e ≡ false
      → error_of (step H e c).0 ≡ error_of c
  unfolding step receive handshake_sent handshake_received close close_drained close_stopped
      close_loops
  step_error (send_called stale bytes me loop draw now random) c f s = absurd cc
  step_error (receive_called me loop draw now) c f s = rw f refl
  step_error (key_sent call me loop now random ec) c f s = shaken_error call me loop now random _ c
  step_error (key_arrived call me loop now random ec p) c f s =
      shaken_error call me loop now random _ c
  step_error (chunk_popped me ec chunk) c f s = refl
  step_error (reader_cancelled me) c f s = refl
  step_error (packet_popped loop ec p) c f s = chunks_turn_error loop (lookup loop c.loops) ec p c f
  step_error (loop_cancelled loop) c f s = refl
  step_error (close_called me) c f s =
      close_waited_error _ (with_transport H c (wait_in_flight_drained H me c.stream.transport).0)
  step_error (close_resumed me) c f s = refl
  step_error (close_posted me) c f s = refl
  step_error (transport_event e) c f s = refl

  run_error :
      (es : List (Event H)) (c : Connection H)
      → failed (error_of c) ≡ true
      → has_send es ≡ false
      → error_of (run H es c).0 ≡ error_of c
  unfolding run
  run_error [] c f s = refl
  run_error (e ∷ es) c f s =
      let same : error_of (step H e c).0 ≡ error_of c = step_error e c f (ground arith) in
      run_error es (step H e c).0 (rw same f) (ground arith) ∙ same

  -- Once the stream has failed, whatever happens in between except a call of `send`, which starts
  -- the loops again, its error stays: a receive that starts returns that error and changes
  -- nothing, a receive that waited and is woken returns it in place of its chunk, and a close that
  -- ends returns it.
  pub run_error_told :
      (es : List (Event H)) (c : Connection H) (me loop draw now : ℕ) (chunk : Chunk)
      (ec : BoostError)
      → failed c.stream.stream_error ≡ true
      → failed ec ≡ false
      → has_send es ≡ false
      → let c' = (run H es c).0 in
        let err = c.stream.stream_error in
        (step H (receive_called me loop draw now) c'
          ≡ (c', stands me (chunk_received (unexpected err)) ∷ []))
        × (step H (chunk_popped me ec chunk) c'
            ≡ (c', stands me (chunk_received (unexpected err)) ∷ []))
        × ((close_stopped H c').2 ≡ closed err)
  unfolding step receive receive_popped close_stopped
  run_error_told es c me loop draw now chunk ec f fine s =
      let same : error_of (run H es c).0 ≡ error_of c = run_error es c f s in
      let still : failed (error_of (run H es c).0) ≡ true = rw same f in
      (ground (arith, same, still), ground (arith, same, still), ap closed same)
