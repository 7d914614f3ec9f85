-- ===== src/Stream/Hop.antt =====
-- Data on its way from `send` of one stream to `receive` of the other.
use file_hop_z.Base.{
  ℕ, ◌+◌, ◌≤◌, ◌<◌, ◌≡◌, refl, ◌∙◌, ap, sym, subst, true, false, not, some, [], ◌∷◌, arith, length,
  length-append, drop, ◌||◌, take-append,
}
use file_hop_z.Base.Bytes.{Bytes, u32_mod}
use file_hop_z.Errors.{success, failed, ok}
use file_hop_z.Packet.{Packet, datagram, received, nonce_len, packet_payload_size}
use file_hop_z.AsyncQueue.{completed}
use file_hop_z.Crypto.RoundTrip.{IsAead}
use file_hop_z.Host.{Host}
use file_hop_z.Transport.{Transport, wake_receiver}
use file_hop_z.Transport.Ack.{send_ack}
use file_hop_z.Transport.Send.{sending}
use file_hop_z.Transport.Receive.{member, deliver, receive_turn}
use file_hop_z.Transport.Channel.{IsPaired, passes, receive_turn-send_packet}
use file_hop_z.Transport.Step
use file_hop_z.Transport.Step.{after_turn}
use file_hop_z.Reorder.{Chunk, Window, packet_chunk, sequence_window_size, accept}
use file_hop_z.Stream.{transport_asks, wake_reader, data_packet}
use file_hop_z.Stream.Calls.{
  with_transport, Connection, forwarding, send, push_all, chunks_received, chunks_turn,
}
use file_hop_z.Stream.Calls
use file_hop_z.Stream.Machine.{asks, stands, transport_event, packet_popped, chunk_popped, step}
use file_hop_z.Stream.Confidential.{send_sent, send_fits}
use file_hop_z.Stream.Arrival.{
  accept_next, IsListening, heard, Reads, datagram_wakes, delivered-Reads, deliver_loop_error,
  heard_parts,
}

module _ (H : Host) (A : IsAead H.ssl) where
  -- Data that `send` of one end of an encrypted connection hands to the socket comes out of a
  -- waiting `receive` of the other end as it was given: when the datagram arrives it is
  -- acknowledged and wakes the receive loop, whose turn wakes the receive with the data, and the
  -- receive returns it. That holds whatever the memory of both ends held before, if the data is
  -- not empty, the nonce has its length, the cipher obeys the laws in `IsAead`, the number that
  -- the sender drew is new to the receiver and the next that its loop expects, its loop and a
  -- receive wait, it has no error, and the sender is its peer or it has no peer yet.
  pub receive-send :
      (nonce stale stale_receiver bytes : Bytes) (caller spawned draw now later loop me : ℕ)
      (remote : H.Endpoint) (w : Window) (q : Packet) (a b : Connection H)
      → length nonce ≡ nonce_len
      → 1 ≤ length bytes
      → a.stream.loops_running ≡ true
      → IsPaired H a.stream.transport b.stream.transport
      → IsListening H loop me w b
      → a.stream.transport.sequence_counter ≡ w.expected
      → w.expected + sequence_window_size < u32_mod
      → (not b.stream.transport.peer_endpoint_known
          || H.same_endpoint remote b.stream.transport.peer_endpoint)
        ≡ true
      → member a.stream.transport.sequence_counter b.stream.transport.received_packets ≡ false
      → (send H stale bytes caller spawned draw now (some nonce) a).2 ≡ forwarding (sending q)
      → let arrival =
          step H
            (transport_event
              (Step.datagram_arrived later remote (received stale_receiver (datagram q))))
            b in
        let chunk : Chunk = record { size = length bytes; bytes = some bytes } in
        (r : Packet) × (arrival.1
          ≡ asks (transport_asks (send_ack H w.expected (heard H later remote b.stream.transport)))
            ∷ asks (transport_asks (wake_receiver (completed loop r)))
            ∷ [])
        × ((step H (packet_popped loop success r) arrival.0).1
            ≡ asks (wake_reader (completed me chunk)) ∷ [])
        × ((step H
              (chunk_popped me success chunk)
              (step H (packet_popped loop success r) arrival.0).0).1
            ≡ stands me (Calls.chunk_received (ok chunk)) ∷ [])
  receive-send nonce stale stale_receiver bytes caller spawned draw now later loop me remote w q a b
        n nonempty running pair l next small known new h =
      let t : Transport H = b.stream.transport in
      let p : Packet = data_packet stale bytes in
      let fits : length bytes ≤ packet_payload_size =
        send_fits H stale bytes caller spawned draw now (some nonce) a q running h in
      let sent = send_sent H stale bytes caller spawned draw now (some nonce) a q running h in
      let (r, header, same, turn) =
        receive_turn-send_packet H A nonce stale_receiver caller now later remote p q
          a.stream.transport t n refl
          (record {
            header_ok = record {
              type_ok = tt;
              flags_ok = omega arith;
              size_ok = omega (arith, fits);
              sequence_ok = omega (arith, next, small);
            };
            nonempty = nonempty;
            whole = omega (arith, length-append bytes (drop (length bytes) stale));
          })
          pair known new sent in
      let arrival =
        datagram_wakes H later remote w.expected loop me w (received stale_receiver (datagram q)) r
          b l
          (subst
            (λ k.
              receive_turn H later remote (received stale_receiver (datagram q)) t
              ≡ passes H later remote k r t)
            next turn) in
      let t' : Transport H = (deliver H r (heard H later remote t)).0 in
      let fine : failed t'.loop_error ≡ false =
        rw (deliver_loop_error H r (heard H later remote t), (heard_parts H later remote t).1)
          l.transport_fine in
      let out : (accept r w).1 ≡ packet_chunk r ∷ [] =
        accept_next r w (rw header refl) (ap (λ k. k.sequence) header ∙ next) l.buffer_empty
          small in
      let whole : packet_chunk r ≡ record { size = length bytes; bytes = some bytes } = λ i.
        record {
          size = (header i).size;
          bytes =
              some ((same ∙ take-append bytes (drop (length bytes) stale) (length bytes) refl) i);
        } in
      let reads = delivered-Reads H loop me w r b t' l fine out in
      let at_end : Reads H loop me r (record { size = length bytes; bytes = some bytes })
          (step H
            (transport_event
              (Step.datagram_arrived later remote (received stale_receiver (datagram q))))
            b).0 =
        subst (λ (x : Chunk × Connection H). Reads H loop me r x.0 x.1)
          (λ i. (whole i, sym (ap (λ x. x.0) arrival) i)) reads in
      (r, ap (λ x. x.1) arrival, at_end.0, at_end.1)
