-- ===== src/Stream/Closing.antt =====
-- A receive that waits while the stream is closed, and a stream that is used again afterwards.
use file_hop_z.Base.{
  ℕ, ◌≡◌, refl, ◌∙◌, ap, sym, subst, true, Option, none, some, List, [], ◌∷◌, ◌++◌, map, arith,
  ==_refl,
}
use file_hop_z.Base.Dict.{lookup}
use file_hop_z.Errors.{BoostError, unexpected}
use file_hop_z.Packet.{Packet}
use file_hop_z.AsyncQueue
use file_hop_z.AsyncQueue.{AsyncQueue, Completion, completed}
use file_hop_z.Host.{Host}
use file_hop_z.Transport.{stop_loops, wake_receiver}
use file_hop_z.Transport.Receive.{receive_packet}
use file_hop_z.Transport.Step
use file_hop_z.Transport.Timeout.{DrainOutcome, drained, waiting, wait_in_flight_drained}
use file_hop_z.Reorder.{Window}
use file_hop_z.Stream.{Stream, close_loops, handle_receive_chunks_result}
use file_hop_z.Stream.Calls.{
  Connection, with_transport, close_drained, close_waited, close, close_stopped, chunks_received,
  chunks_turn,
}
use file_hop_z.Stream.Machine.{
  Event, send_called, receive_called, key_sent, key_arrived, chunk_popped, reader_cancelled,
  packet_popped, loop_cancelled, close_called, close_resumed, close_posted, transport_event, Output,
  asks, stretch, step, run,
}
use file_hop_z.Stream.Serving.{readers, readers-append, readers-transport, readers-stretch}

module _ (H : Host) where
  -- What goes on while the stream closes: the stretches of `close`, the loop's end by its
  -- cancellation, once the flags are set, and whatever the transport does.
  abbrev pub IsClosingAt : Event H → Connection H → Type 0
  IsClosingAt (close_called me) c = Unit {0}
  IsClosingAt (close_resumed me) c = Unit {0}
  IsClosingAt (close_posted me) c = Unit {0}
  IsClosingAt (loop_cancelled loop) c = Unit {0}
  IsClosingAt (transport_event e) c = Unit {0}
  IsClosingAt (packet_popped loop ec p) c =
      (c.stream.stopping_loops ≡ true)
      × (receive_packet H ec p c.stream.transport ≡ unexpected H.operation_aborted)
  IsClosingAt _ c = ⊥

  abbrev pub IsClosing : List (Event H) → Connection H → Type 0
  IsClosing [] c = Unit {0}
  IsClosing (e ∷ es) c = IsClosingAt e c × IsClosing es (step H e c).0

  -- Nobody who waits for a chunk is told anything, and the error of the stream is as it was.
  abbrev Unheard : Connection H → Connection H × List (Output H) → Type 0
  Unheard c r =
      (r.0.stream.ready_chunks ≡ c.stream.ready_chunks)
      × (r.0.stream.stream_error ≡ c.stream.stream_error)
      × (readers H r.1 ≡ [])

  aborted_kept :
      (s : Stream H)
      → s.stopping_loops ≡ true
      → handle_receive_chunks_result H H.operation_aborted s ≡ (s, [])
  unfolding handle_receive_chunks_result
  aborted_kept s stops = ground (arith, ==_refl H.operation_aborted.value)

  aborted-Unheard :
      (loop : ℕ) (w : Option Window) (ec : BoostError) (p : Packet) (c : Connection H)
      → c.stream.stopping_loops ≡ true
      → receive_packet H ec p c.stream.transport ≡ unexpected H.operation_aborted
      → let r = chunks_turn H loop w ec p c in Unheard c (r.0, map asks r.1)
  unfolding chunks_turn chunks_received
  aborted-Unheard loop none ec p c stops got = (refl, refl, refl)
  aborted-Unheard loop (some w) ec p c stops got =
      subst
        (λ r.
          Unheard c ((chunks_received H loop w r c).0, map asks (chunks_received H loop w r c).1))
        (sym got)
        (let same = aborted_kept c.stream stops in
          (
            ap (λ r. r.0.ready_chunks) same,
            ap (λ r. r.0.stream_error) same,
            ap (λ r. readers H (map asks r.1)) same,
          ))

  close_waited-Unheard :
      (me : ℕ) (outcome : DrainOutcome) (c : Connection H)
      → Unheard c (stretch H me (close_waited H outcome c))
  unfolding close_waited close_drained close_loops
  close_waited-Unheard me (drained whole) c = (refl, refl, refl)
  close_waited-Unheard me waiting c = (refl, refl, refl)

  step-Unheard : (e : Event H) (c : Connection H) → IsClosingAt e c → Unheard c (step H e c)
  unfolding step close close_drained close_loops close_stopped
  step-Unheard (close_called me) c here =
      close_waited-Unheard me (wait_in_flight_drained H me c.stream.transport).1
        (with_transport H c (wait_in_flight_drained H me c.stream.transport).0)
  step-Unheard (close_resumed me) c here = (refl, refl, refl)
  step-Unheard (close_posted me) c here = (
    refl,
    refl,
    readers-stretch H me c (map _ (stop_loops H c.stream.transport).1) _
        ∙ readers-transport H (stop_loops H c.stream.transport).1,
  )
  step-Unheard (loop_cancelled loop) c here = (
    refl,
    refl,
    readers-transport H
        (map wake_receiver (AsyncQueue.cancel loop c.stream.transport.received_packets_queue).1),
  )
  step-Unheard (transport_event e) c here =
      (refl, refl, readers-transport H (Step.step H e c.stream.transport).1)
  step-Unheard (packet_popped loop ec p) c (stops, got) =
      aborted-Unheard loop (lookup loop c.loops) ec p c stops got
  step-Unheard (send_called stale bytes me spawned draw now random) c here = absurd here
  step-Unheard (receive_called me spawned draw now) c here = absurd here
  step-Unheard (key_sent call me l now random ec) c here = absurd here
  step-Unheard (key_arrived call me l now random ec p) c here = absurd here
  step-Unheard (chunk_popped me ec chunk) c here = absurd here
  step-Unheard (reader_cancelled me) c here = absurd here

  -- Closing a stream wakes no receive that waits for a chunk: whatever the order of the stretches
  -- of `close`, of the loop's cancellation and its end, and of the transport's events, including
  -- its end, the queue of chunks with its waiting receives stays as it was, none of them is told
  -- anything, and the stream has the error that it had.
  pub run_closing_unheard :
      (es : List (Event H)) (c : Connection H)
      → IsClosing es c
      → ((run H es c).0.stream.ready_chunks ≡ c.stream.ready_chunks)
        × ((run H es c).0.stream.stream_error ≡ c.stream.stream_error)
        × (readers H (run H es c).1 ≡ [])
  unfolding run
  run_closing_unheard [] c closing = (refl, refl, refl)
  run_closing_unheard (e ∷ es) c (here, closing) =
      let (ready, error, quiet) = step-Unheard e c here in
      let (ready', error', quiet') = run_closing_unheard es (step H e c).0 closing in
      (
        ready' ∙ ready,
        error' ∙ error,
        readers-append H (step H e c).1 (run H es (step H e c).0).1
            ∙ ap (λ l. l ++ readers H (run H es (step H e c).0).1) quiet
            ∙ quiet',
      )
