-- ===== src/Stream/Calls.antt =====
-- ProtoStream::send, receive, close and start_loops of src/protohopz/protostream.cpp, from each wait
-- to the next, and one turn of the loop that they spawn.
use file_hop_z.Base.{ℕ, not, Option, none, some, List, [], ◌∷◌, ◌++◌, map, if◌then◌else◌}
use file_hop_z.Base.Bytes.{Bytes}
use file_hop_z.Base.Dict.{Dict, insert, erase}
use file_hop_z.Errors.{BoostError, failed, Expected, ok, unexpected}
use file_hop_z.Packet.{Packet}
use file_hop_z.AsyncQueue
use file_hop_z.AsyncQueue.{AsyncQueue, Completion}
use file_hop_z.Crypto.{CryptoContext}
use file_hop_z.Host.{Host}
use file_hop_z.Transport.{Transport, stop_loops}
use file_hop_z.Transport.Send.{SendOutcome, returned, send_packet}
use file_hop_z.Transport.Receive.{receive_packet}
use file_hop_z.Transport.Timeout.{DrainOutcome, drained, waiting, wait_in_flight_drained}
use file_hop_z.Transport.Handshake.{
  HandshakeStep, finished, sends, awaits, initiator_start, initiator_sent, initiator_received,
  responder_start, responder_received, responder_sent,
}
use file_hop_z.Reorder.{Chunk, Window, initial_window, accept}
use file_hop_z.Stream.{
  new_stream, HandshakeMode, initiator, responder, stream_packet, Stream, StreamEffect,
  transport_asks, wake_reader, cancel_chunks_loop, begin_loops, end_start_loops, close_loops,
  handle_receive_chunks_result,
}

-- A call that may have to start the loops first. `send_call` has what the packet's memory held,
-- and the data.
pub data StreamCall : Type 0 where
  send_call : Bytes → Bytes → StreamCall
  receive_call : StreamCall

-- Where a call stands after a stretch: in the handshake, in `send_packet` (which may have
-- returned), in `pop`, in the draining, in `stop_loops`, or at its end.
pub data Stand : Type 0 where
  shaking : HandshakeStep → Stand
  forwarding : SendOutcome → Stand
  popping : Stand
  chunk_received : Expected Chunk → Stand
  draining : Stand
  stopping : Stand
  closed : BoostError → Stand

-- Where a call ends when its loops did not start.
abbrev pub refused : StreamCall → BoostError → Stand
refused (send_call stale bytes) ec = forwarding (returned ec)
refused receive_call ec = chunk_received (unexpected ec)

-- `ready_chunks_.push` of each chunk in turn.
unfoldable pub push_all : List Chunk → AsyncQueue Chunk → AsyncQueue Chunk × List (Completion Chunk)
push_all [] q = (q, [])
push_all (c ∷ cs) q =
    let (q', woken) = AsyncQueue.push c q in
    let (q'', later) = push_all cs q' in (q'', woken ++ later)

module _ (H : Host) where
  -- The stream, and the local variables of the loops that it spawned, by their coroutines.
  pub record Connection : Type 0 where
    pub stream : Stream H
    pub loops : Dict Window

  abbrev pub new_connection : HandshakeMode → H.Endpoint → CryptoContext H.ssl → Connection
  new_connection mode endpoint crypto = record {
    stream = new_stream H mode endpoint crypto;
    loops = [];
  }

  abbrev pub Stretch : Type 0
  Stretch = Connection × List (StreamEffect H) × Stand

  abbrev pub with_transport : Connection → Transport H → Connection
  with_transport c t = record c { stream = record c.stream { transport = t } }

  -- The handshake of the stream's mode.
  unfoldable pub shake_start : HandshakeMode → ℕ → Transport H → Transport H × HandshakeStep
  shake_start initiator draw t = initiator_start H draw t
  shake_start responder draw t = responder_start H draw t

  unfoldable pub shake_sent : HandshakeMode → BoostError → Transport H → Transport H × HandshakeStep
  shake_sent initiator ec t = (t, initiator_sent H ec)
  shake_sent responder ec t = responder_sent H ec t

  unfoldable pub shake_received :
      HandshakeMode → BoostError → Packet → Transport H → Transport H × HandshakeStep
  shake_received initiator ec p t = initiator_received H ec p t
  shake_received responder ec p t = responder_received H ec p t

  -- `send` from the checked packet on.
  unfoldable pub forward : ℕ → ℕ → Option Bytes → Expected Packet → Connection → Stretch
  forward me now random (unexpected ec) c = (c, [], forwarding (returned ec))
  forward me now random (ok p) c =
      let (t, effects, outcome) = send_packet H me p now random c.stream.transport in
      (with_transport c t, map transport_asks effects, forwarding outcome)

  -- `send` and `receive` once the loops run. `me` is the coroutine that calls.
  unfoldable pub run_call : StreamCall → ℕ → ℕ → Option Bytes → Connection → Stretch
  unfolding forward
  run_call (send_call stale bytes) me now random c =
      forward me now random (stream_packet stale bytes) c
  run_call receive_call me now random c =
      let (q, woken) = AsyncQueue.pop me c.stream.ready_chunks in
      (record c { stream = record c.stream { ready_chunks = q } }, map wake_reader woken, popping)

  -- `loop` is the coroutine of `receive_chunks_loop`, which starts with a window of its own.
  unfoldable pub spawn_loop : ℕ → Connection → Connection
  spawn_loop loop c = record c { loops = insert loop initial_window c.loops }

  -- The end of `start_loops`, and what follows it in the call.
  unfoldable pub handshake_ended :
      StreamCall → ℕ → ℕ → ℕ → Option Bytes → BoostError → Connection → Stretch
  unfolding run_call spawn_loop
  handshake_ended call me loop now random ec c =
      let (s, ec') = end_start_loops H ec c.stream in
      if failed ec'
      then (record c { stream = s }, [], refused call ec')
      else run_call call me now random (spawn_loop loop (record c { stream = s }))

  -- After a stretch of the handshake.
  unfoldable pub shaken :
      StreamCall → ℕ → ℕ → ℕ → Option Bytes → Transport H × HandshakeStep → Connection → Stretch
  unfolding handshake_ended
  shaken call me loop now random (t, finished ec) c =
      handshake_ended call me loop now random ec (with_transport c t)
  shaken call me loop now random (t, sends p) c = (with_transport c t, [], shaking (sends p))
  shaken call me loop now random (t, awaits) c = (with_transport c t, [], shaking awaits)

  -- `start_loops` from its start, for the call that needs it; `draw` is the key that is generated.
  unfoldable pub start_call : StreamCall → ℕ → ℕ → ℕ → ℕ → Option Bytes → Connection → Stretch
  unfolding shaken shake_start
  start_call call me loop draw now random c =
      let s = begin_loops H now c.stream in
      shaken call me loop now random (shake_start s.handshake_mode draw s.transport)
        (record c { stream = s })

  unfoldable pub handshake_sent :
      StreamCall → ℕ → ℕ → ℕ → Option Bytes → BoostError → Connection → Stretch
  unfolding shaken shake_sent
  handshake_sent call me loop now random ec c =
      shaken call me loop now random (shake_sent c.stream.handshake_mode ec c.stream.transport) c

  unfoldable pub handshake_received :
      StreamCall → ℕ → ℕ → ℕ → Option Bytes → BoostError → Packet → Connection → Stretch
  unfolding shaken shake_received
  handshake_received call me loop now random ec p c =
      shaken call me loop now random
        (shake_received c.stream.handshake_mode ec p c.stream.transport) c

  unfoldable pub send : Bytes → Bytes → ℕ → ℕ → ℕ → ℕ → Option Bytes → Connection → Stretch
  unfolding run_call start_call
  send stale bytes me loop draw now random c =
      if not c.stream.loops_running
      then start_call (send_call stale bytes) me loop draw now random c
      else run_call (send_call stale bytes) me now random c

  unfoldable pub receive : ℕ → ℕ → ℕ → ℕ → Connection → Stretch
  unfolding run_call start_call
  receive me loop draw now c =
      if failed c.stream.stream_error
      then (c, [], chunk_received (unexpected c.stream.stream_error))
      else if not c.stream.loops_running
      then start_call receive_call me loop draw now none c
      else run_call receive_call me now none c

  -- `close` from the draining on: the flags are set and the loop is cancelled.
  unfoldable pub close_drained : Connection → Stretch
  close_drained c =
      (record c { stream = close_loops H c.stream }, cancel_chunks_loop ∷ [], stopping)

  unfoldable pub close_waited : DrainOutcome → Connection → Stretch
  unfolding close_drained
  close_waited (drained whole) c = close_drained c
  close_waited waiting c = (c, [], draining)

  -- `close` from its start. It goes on whether the packets in flight were drained or not.
  unfoldable pub close : ℕ → Connection → Stretch
  unfolding close_waited
  close me c =
      let (t, outcome) = wait_in_flight_drained H me c.stream.transport in
      close_waited outcome (with_transport c t)

  -- `transport_.stop_loops()`, once it is on the strand, and the end of `close`.
  unfoldable pub close_stopped : Connection → Stretch
  close_stopped c =
      let (t, effects) = stop_loops H c.stream.transport in
      (with_transport c t, map transport_asks effects, closed c.stream.stream_error)

  -- The body of `receive_chunks_loop` on what `receive_packet` returned: the loop ends with an
  -- error, or goes on with its window.
  unfoldable pub chunks_received :
      ℕ → Window → Expected Packet → Connection → Connection × List (StreamEffect H)
  unfolding push_all
  chunks_received loop w (unexpected ec) c =
      let (s, effects) = handle_receive_chunks_result H ec c.stream in
      (record c { stream = s; loops = erase loop c.loops }, effects)
  chunks_received loop w (ok p) c =
      let (w', chunks) = accept p w in
      let (ready, woken) = push_all chunks c.stream.ready_chunks in
      (
        record c {
          stream = record c.stream { ready_chunks = ready };
          loops = insert loop w' c.loops;
        },
        map wake_reader woken,
      )

  -- A turn of the coroutine `loop`, if it runs, on what the transport's queue completed with.
  unfoldable pub chunks_turn :
      ℕ → Option Window → BoostError → Packet → Connection → Connection × List (StreamEffect H)
  unfolding chunks_received
  chunks_turn loop none ec p c = (c, [])
  chunks_turn loop (some w) ec p c =
      chunks_received loop w (receive_packet H ec p c.stream.transport) c
