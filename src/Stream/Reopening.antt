-- ===== src/Stream/Reopening.antt =====
-- A stream that is used again after it was closed.
use file_hop_z.Base.{ℕ, ◌≡◌, refl, Option, [], ◌∷◌, arith}
use file_hop_z.Base.Bytes.{Bytes}
use file_hop_z.Errors.{BoostError, success, ErrorCode, make_error_code}
use file_hop_z.AsyncQueue
use file_hop_z.AsyncQueue.{AsyncQueue, Completion, completed}
use file_hop_z.Host.{Host}
use file_hop_z.Transport.{Transport, end_packet, next_sequence, start_loops, stop_loops}
use file_hop_z.Transport.Handshake.{finished, take_peer_key, initiator_received, responder_received}
use file_hop_z.Stream.{HandshakeMode, initiator, responder, begin_loops, end_start_loops}
use file_hop_z.Stream.Calls.{
  StreamCall, refused, Connection, close_stopped, shake_received, shaken, handshake_ended,
  handshake_received,
}

module _ (H : Host) where
  abbrev bad_key : BoostError
  bad_key = make_error_code ErrorCode.invalid_handshake_key_size

  shake_received_marker :
      (mode : HandshakeMode) (sequence : ℕ) (t : Transport H)
      → shake_received H mode success (end_packet H sequence) t ≡ (t, finished bad_key)
  unfolding shake_received initiator_received responder_received take_peer_key make_error_code
  shake_received_marker initiator sequence t = refl
  shake_received_marker responder sequence t = refl

  handshake_ended-refused :
      (call : StreamCall) (me loop now : ℕ) (random : Option Bytes) (c : Connection H)
      → (handshake_ended H call me loop now random bad_key c).2 ≡ refused call bad_key
  unfolding handshake_ended end_start_loops make_error_code
  handshake_ended-refused call me loop now random c = refl

  handshake_received_marker :
      (call : StreamCall) (me loop now : ℕ) (random : Option Bytes) (sequence : ℕ)
      (c : Connection H)
      → (handshake_received H call me loop now random success (end_packet H sequence) c).2
        ≡ refused call bad_key
  unfolding handshake_received shaken
  handshake_received_marker call me loop now random sequence c =
      rw (shake_received_marker c.stream.handshake_mode sequence c.stream.transport)
        (handshake_ended-refused call me loop now random _)

  -- If nothing is queued and nobody waits at the transport when `close` stops it, the end marker
  -- stays on its queue, also when the loops are started again: the next handshake's wait completes
  -- at once with the marker, and whatever happened to the stream in between, the call that needed
  -- the handshake fails with invalid_handshake_key_size, in either mode.
  pub reopened_refused :
      (c c' : Connection H) (call : StreamCall) (me loop now later : ℕ) (random : Option Bytes)
      → c.stream.transport.received_packets_queue ≡ AsyncQueue.new_queue
      → let marker = end_packet H (next_sequence H c.stream.transport) in
        ((AsyncQueue.pop me
            (begin_loops H now (close_stopped H c).0.stream).transport.received_packets_queue).1
          ≡ completed me marker ∷ [])
        × ((handshake_received H call me loop later random success marker c').2
            ≡ refused call (make_error_code ErrorCode.invalid_handshake_key_size))
  unfolding close_stopped stop_loops begin_loops start_loops AsyncQueue.push AsyncQueue.pop
  reopened_refused c c' call me loop now later random empty = (
    ground (arith, empty),
    handshake_received_marker call me loop later random (next_sequence H c.stream.transport) c',
  )
