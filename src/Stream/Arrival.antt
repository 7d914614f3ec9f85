-- ===== src/Stream/Arrival.antt =====
-- What an arriving packet sets off in a stream whose loop and whose receive wait.
use file_hop_z.Base.{
  if_false, ℕ, ◌+◌, ◌<◌, ◌≡◌, refl, ◌∙◌, ap, sym, subst, true, false, inl, inr, some, [], ◌∷◌, ◌++◌,
  map, arith, ==_refl, Bool-cases,
}
use file_hop_z.Base.Bytes.{u32_mod}
use file_hop_z.Base.Dict.{lookup, erase, insert}
use file_hop_z.Errors.{success, failed, ok}
use file_hop_z.Packet.{Packet, is_data}
use file_hop_z.AsyncQueue
use file_hop_z.AsyncQueue.{AsyncQueue, completed}
use file_hop_z.Host.{Host}
use file_hop_z.Transport.{Transport, wake_receiver}
use file_hop_z.Transport.Ack.{send_ack}
use file_hop_z.Transport.Receive.{accept_peer, deliver, receive_turn, receive_packet}
use file_hop_z.Transport.Channel.{passes}
use file_hop_z.Transport.Step
use file_hop_z.Transport.Step.{after_turn}
use file_hop_z.Reorder.{
  Chunk, Window, packet_chunk, sequence_window_size, flush, buffer_packet, accept,
}
use file_hop_z.Stream.{transport_asks, wake_reader, receive_popped}
use file_hop_z.Stream.Calls.{
  with_transport, Connection, forwarding, send, push_all, chunks_received, chunks_turn,
}
use file_hop_z.Stream.Calls
use file_hop_z.Stream.Machine.{asks, stands, transport_event, packet_popped, chunk_popped, step}

accept_next_at :
    (p : Packet) (expected : ℕ)
    → is_data p.header.type ≡ true
    → p.header.sequence ≡ expected
    → expected + sequence_window_size < u32_mod
    → (accept p (record { buffer = []; expected = expected })).1 ≡ packet_chunk p ∷ []
unfolding accept buffer_packet flush lookup erase insert
accept_next_at p expected real next small = ground (arith, ==_refl expected)

-- The packet that is next passes through an empty buffer at once.
pub accept_next :
    (p : Packet) (w : Window)
    → is_data p.header.type ≡ true
    → p.header.sequence ≡ w.expected
    → w.buffer ≡ []
    → w.expected + sequence_window_size < u32_mod
    → (accept p w).1 ≡ packet_chunk p ∷ []
accept_next p w real next empty small =
    subst
      (λ buffer.
        (accept p (record { buffer = buffer; expected = w.expected })).1 ≡ packet_chunk p ∷ [])
      (sym empty) (accept_next_at p w.expected real next small)

push_one :
    (me : ℕ) (chunk : Chunk) (q : AsyncQueue Chunk)
    → q ≡ record { queue = []; waiters = me ∷ [] }
    → (push_all (chunk ∷ []) q).1 ≡ completed me chunk ∷ []
unfolding push_all AsyncQueue.push
push_one me chunk q e = ground (arith, e)

module _ (H : Host) where
  -- The loop waits for the next packet with nothing buffered, and a receive waits for a chunk.
  pub record IsListening (loop me : ℕ) (w : Window) (b : Connection H) : Type 0 where
    pub loop_waits :
        b.stream.transport.received_packets_queue ≡ record { queue = []; waiters = loop ∷ [] }
    pub window : lookup loop b.loops ≡ some w
    pub buffer_empty : w.buffer ≡ []
    pub reader_waits : b.stream.ready_chunks ≡ record { queue = []; waiters = me ∷ [] }
    pub stream_fine : failed b.stream.stream_error ≡ false
    pub transport_fine : failed b.stream.transport.loop_error ≡ false

  -- The state of the receiver's transport in which it acknowledges.
  abbrev pub heard : ℕ → H.Endpoint → Transport H → Transport H
  heard later remote t = record (accept_peer H remote t) { last_peer_activity = later }

  pub heard_parts :
      (later : ℕ) (remote : H.Endpoint) (t : Transport H)
      → ((heard later remote t).received_packets_queue ≡ t.received_packets_queue)
        × ((heard later remote t).loop_error ≡ t.loop_error)
  unfolding accept_peer
  heard_parts later remote t = elim (Bool-cases t.peer_endpoint_known) [
    | inl e ↦ rw e (refl, refl)
    | inr e ↦ rw e (refl, refl)
  ]

  deliver_wakes :
      (r : Packet) (t : Transport H) (loop : ℕ)
      → t.received_packets_queue ≡ record { queue = []; waiters = loop ∷ [] }
      → (deliver H r t).1 ≡ wake_receiver (completed loop r) ∷ []
  unfolding deliver AsyncQueue.push
  deliver_wakes r t loop e = ground (arith, e)

  pub deliver_loop_error :
      (r : Packet) (t : Transport H) → (deliver H r t).0.loop_error ≡ t.loop_error
  unfolding deliver
  deliver_loop_error r t = refl

  -- The turn of the loop hands the packet's chunk to the receive that waits.
  turn_reads :
      (loop me : ℕ) (w : Window) (r : Packet) (b c : Connection H)
      → IsListening loop me w b
      → c.loops ≡ b.loops
      → c.stream.ready_chunks ≡ b.stream.ready_chunks
      → failed c.stream.transport.loop_error ≡ false
      → (accept r w).1 ≡ packet_chunk r ∷ []
      → (step H (packet_popped loop success r) c).1
        ≡ asks (wake_reader (completed me (packet_chunk r))) ∷ []
  unfolding step chunks_turn chunks_received receive_packet
  turn_reads loop me w r b c l loops ready fine out =
      let q = c.stream.ready_chunks in
      ap (λ o. map asks (chunks_turn H loop o success r c).1) (ap (lookup loop) loops ∙ l.window)
      ∙ ap (λ p. map asks (chunks_received H loop w p c).1)
          (if_false (failed c.stream.transport.loop_error) _ (ok r) fine)
      ∙ ap (λ cs. map asks (map wake_reader (push_all cs q).1)) out
      ∙ ap (λ ws. map asks (map wake_reader ws))
          (push_one me (packet_chunk r) q (ready ∙ l.reader_waits))

  -- What arrives is acknowledged and wakes the loop with the packet.
  pub datagram_wakes :
      (later : ℕ) (remote : H.Endpoint) (sequence loop me : ℕ) (w : Window) (d r : Packet)
      (b : Connection H)
      → IsListening loop me w b
      → receive_turn H later remote d b.stream.transport
        ≡ passes H later remote sequence r b.stream.transport
      → step H (transport_event (Step.datagram_arrived later remote d)) b ≡ (
        with_transport H b (deliver H r (heard later remote b.stream.transport)).0,
        asks (transport_asks (send_ack H sequence (heard later remote b.stream.transport)))
            ∷ asks (transport_asks (wake_receiver (completed loop r)))
            ∷ [],
      )
  unfolding step Step.step
  datagram_wakes later remote sequence loop me w d r b l turn =
      let t : Transport H = heard later remote b.stream.transport in
      ap
        (λ x.
          let (t', effects) = after_turn H x in
          (with_transport H b t', map asks (map transport_asks effects)))
        turn
      ∙ ap
          (λ ws. (
            with_transport H b (deliver H r t).0,
            map asks (map transport_asks ((send_ack H sequence t ∷ ws) ++ [])),
          ))
          (deliver_wakes r t loop ((heard_parts later remote b.stream.transport).0 ∙ l.loop_waits))

  -- The turn of the loop leaves the error of the stream.
  turn_error :
      (loop me : ℕ) (w : Window) (r : Packet) (b c : Connection H)
      → IsListening loop me w b
      → c.loops ≡ b.loops
      → failed c.stream.transport.loop_error ≡ false
      → (step H (packet_popped loop success r) c).0.stream.stream_error ≡ c.stream.stream_error
  unfolding step chunks_turn chunks_received receive_packet
  turn_error loop me w r b c l loops fine =
      ap (λ o. (chunks_turn H loop o success r c).0.stream.stream_error)
        (ap (lookup loop) loops ∙ l.window)
      ∙ ap (λ p. (chunks_received H loop w p c).0.stream.stream_error)
          (if_false (failed c.stream.transport.loop_error) _ (ok r) fine)

  popped_reads :
      (me : ℕ) (chunk : Chunk) (c : Connection H)
      → failed c.stream.stream_error ≡ false
      → (step H (chunk_popped me success chunk) c).1
        ≡ stands me (Calls.chunk_received (ok chunk)) ∷ []
  unfolding step receive_popped
  popped_reads me chunk c fine = ground (arith, fine)

  -- What follows once the packet `r` is on its way to the loop.
  abbrev pub Reads : ℕ → ℕ → Packet → Chunk → Connection H → Type 0
  Reads loop me r chunk c =
      ((step H (packet_popped loop success r) c).1 ≡ asks (wake_reader (completed me chunk)) ∷ [])
      × ((step H (chunk_popped me success chunk) (step H (packet_popped loop success r) c).0).1
          ≡ stands me (Calls.chunk_received (ok chunk)) ∷ [])

  pub delivered-Reads :
      (loop me : ℕ) (w : Window) (r : Packet) (b : Connection H) (t : Transport H)
      → IsListening loop me w b
      → failed t.loop_error ≡ false
      → (accept r w).1 ≡ packet_chunk r ∷ []
      → Reads loop me r (packet_chunk r) (with_transport H b t)
  delivered-Reads loop me w r b t l fine out =
      let c : Connection H = with_transport H b t in
      (
        turn_reads loop me w r b c l refl refl fine out,
        popped_reads me (packet_chunk r) (step H (packet_popped loop success r) c).0
            (rw (turn_error loop me w r b c l refl fine) l.stream_fine),
      )
