-- ===== src/Stream/Machine.antt =====
-- The stream as a machine: every event that reaches it, and what one event does. A call's handshake
-- packet and the packets that its coroutines take go through the transport's own events.
use file_hop_z.Base.{ℕ, Option, List, [], ◌∷◌, ◌++◌, map}
use file_hop_z.Base.Bytes.{Bytes}
use file_hop_z.Base.Dict.{lookup}
use file_hop_z.Errors.{BoostError}
use file_hop_z.Packet.{Packet}
use file_hop_z.AsyncQueue
use file_hop_z.Host.{Host}
use file_hop_z.Transport.{wake_receiver}
use file_hop_z.Transport.Step
use file_hop_z.Reorder.{Chunk}
use file_hop_z.Stream.{StreamEffect, transport_asks, wake_reader, receive_popped}
use file_hop_z.Stream.Calls.{
  StreamCall, Stand, chunk_received, Connection, Stretch, with_transport, handshake_sent,
  handshake_received, send, receive, close_drained, close, close_stopped, chunks_turn,
}

module _ (H : Host) where
  pub data Event : Type 0 where
    send_called : Bytes → Bytes → ℕ → ℕ → ℕ → ℕ → Option Bytes → Event
    receive_called : ℕ → ℕ → ℕ → ℕ → Event
    key_sent : StreamCall → ℕ → ℕ → ℕ → Option Bytes → BoostError → Event
    key_arrived : StreamCall → ℕ → ℕ → ℕ → Option Bytes → BoostError → Packet → Event
    chunk_popped : ℕ → BoostError → Chunk → Event
    reader_cancelled : ℕ → Event
    packet_popped : ℕ → BoostError → Packet → Event
    loop_cancelled : ℕ → Event
    close_called : ℕ → Event
    close_resumed : ℕ → Event
    close_posted : ℕ → Event
    transport_event : Step.Event H → Event

  -- What an event leads to: requests, and where a coroutine's call stands then.
  pub data Output : Type 0 where
    asks : StreamEffect H → Output
    stands : ℕ → Stand → Output

  abbrev pub stretch : ℕ → Stretch H → Connection H × List Output
  stretch me (c, effects, stand) = (c, map asks effects ++ (stands me stand ∷ []))

  unfoldable pub step : Event → Connection H → Connection H × List Output
  unfolding chunks_turn
  step (send_called stale bytes me loop draw now random) c =
      stretch me (send H stale bytes me loop draw now random c)
  step (receive_called me loop draw now) c = stretch me (receive H me loop draw now c)
  step (key_sent call me loop now random ec) c =
      stretch me (handshake_sent H call me loop now random ec c)
  step (key_arrived call me loop now random ec p) c =
      stretch me (handshake_received H call me loop now random ec p c)
  step (chunk_popped me ec chunk) c =
      (c, stands me (chunk_received (receive_popped H ec chunk c.stream)) ∷ [])
  step (reader_cancelled me) c =
      let (q, woken) = AsyncQueue.cancel me c.stream.ready_chunks in
      (record c { stream = record c.stream { ready_chunks = q } }, map asks (map wake_reader woken))
  step (packet_popped loop ec p) c =
      let (c', effects) = chunks_turn H loop (lookup loop c.loops) ec p c in (c', map asks effects)
  step (loop_cancelled loop) c =
      let t = c.stream.transport in
      let (q, woken) = AsyncQueue.cancel loop t.received_packets_queue in
      (
        with_transport H c (record t { received_packets_queue = q }),
        map asks (map transport_asks (map wake_receiver woken)),
      )
  step (close_called me) c = stretch me (close H me c)
  step (close_resumed me) c = stretch me (close_drained H c)
  step (close_posted me) c = stretch me (close_stopped H c)
  step (transport_event e) c =
      let (t, effects) = Step.step H e c.stream.transport in
      (with_transport H c t, map asks (map transport_asks effects))

  -- Every sequence of events, and all that it leads to.
  unfoldable pub run : List Event → Connection H → Connection H × List Output
  run [] c = (c, [])
  run (e ∷ es) c =
      let (c', outputs) = step e c in let (c'', more) = run es c' in (c'', outputs ++ more)
