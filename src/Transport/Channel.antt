-- ===== src/Transport/Channel.antt =====
-- From one transport's send_packet to the other's queue: encryption, the datagram, decryption.
use file_hop_z.Base.{
  ℕ, ◌%◌, ◌<◌, ◌≤◌, ◌≡◌, refl, ap, subst, ◌∙◌, inl, inr, true, false, not, Option, some, List, ◌∷◌,
  arith, length, drop, take-append, length-take, length-append, ltb, lt→ltb, ◌||◌, Bool-cases,
}
use file_hop_z.Base.Bytes.{Bytes, u16_mod}
use file_hop_z.Errors.{ok, Expected-cases}
use file_hop_z.Packet.{
  Packet, PacketType, content, datagram, received, packet_size, packet_payload_size, nonce_len,
}
use file_hop_z.Packet.Codec.{IsHeader, received-datagram}
use file_hop_z.Crypto.{encrypt_data, decrypt_data}
use file_hop_z.Crypto.RoundTrip.{IsAead, decrypt_data-encrypt_data}
use file_hop_z.Host.{Host}
use file_hop_z.Transport.{Transport, Effect}
use file_hop_z.Transport.Ack.{send_ack}
use file_hop_z.Transport.Send.{sending, with_ciphertext, protect, numbered, send_packet}
use file_hop_z.Transport.Admission.{IsAdmitted, send_packet-IsAdmitted}
use file_hop_z.Transport.Receive.{
  LoopOutcome, continues, member, with_plaintext, unprotect, deliver, receive_data, dispatch,
  accept_peer, receive_turn,
}

-- The content of a packet is as long as its header says, if the region holds it.
length-content : (p : Packet) → p.header.size ≤ length p.region → length (content p) ≡ p.header.size
length-content p h = omega (arith, length-take p.header.size p.region)

module _ (H : Host) where
  -- A packet as the sender hands it over: header fields in range, the region as large as stated,
  -- and at least one byte, since `decrypt_data` refuses the encryption of no byte.
  pub record IsSendable (p : Packet) : Type 0 where
    pub header_ok : IsHeader p.header
    pub nonempty : 1 ≤ p.header.size
    pub whole : p.header.size ≤ length p.region

  -- Two ends of an encrypted connection, from the sender's to the receiver's.
  pub record IsPaired (a b : Transport H) : Type 0 where
    pub sends_encrypted : a.connection_encrypted ≡ true
    pub reads_encrypted : b.connection_encrypted ≡ true
    pub ready : b.crypto_context.is_ready ≡ true
    pub agreed : a.crypto_context.encryption_key ≡ b.crypto_context.encryption_key

  -- A packet that arrived is read as another: numbered and typed like it, and with its plaintext.
  pub record IsReadAs (b : Transport H) (p arrived : Packet) : Type 0 where
    pub same_sequence : arrived.header.sequence ≡ p.header.sequence
    pub same_type : arrived.header.type ≡ p.header.type
    pub fits : arrived.header.size ≤ packet_size
    pub reading : Packet
    pub opened : unprotect H b arrived ≡ ok reading
    pub same_header : reading.header ≡ p.header
    pub same_content : content reading ≡ content p

  -- A turn that passes a packet on and acknowledges it.
  abbrev pub passes :
      ℕ → H.Endpoint → ℕ → Packet → Transport H → Transport H × List (Effect H) × LoopOutcome
  passes later remote sequence r b =
      let b' = record (accept_peer H remote b) { last_peer_activity = later } in
      let (b'', woken) = deliver H r b' in (b'', send_ack H sequence b' ∷ woken, continues)

  -- What `protect` did, once the connection is encrypted.
  pub record Protected (random : Option Bytes) (t : Transport H) (p q : Packet) : Type 0 where
    pub cipher : Bytes
    pub small : p.header.size ≤ packet_payload_size
    pub encrypted : encrypt_data H.ssl random t.crypto_context (content p) ≡ ok cipher
    pub fits : length cipher ≤ packet_size
    pub framed : with_ciphertext p cipher ≡ q

  pub protect-Protected :
      (random : Option Bytes) (t : Transport H) (p q : Packet)
      → t.connection_encrypted ≡ true
      → protect H random t p ≡ ok q
      → Protected random t p q
  unfolding protect
  protect-Protected random t p q on e =
      elim (Expected-cases (encrypt_data H.ssl random t.crypto_context (content p))) [
        | inl (cipher, f) ↦ record {
          cipher = cipher;
          small = ground arith;
          encrypted = f;
          fits = ground arith;
          framed = ground arith;
        }
        | inr (ec, f) ↦ absurd (ground arith)
      ]

  unprotect_of_parts :
      (b t : Transport H) (p : Packet)
      → t.connection_encrypted ≡ b.connection_encrypted
      → t.crypto_context ≡ b.crypto_context
      → unprotect H t p ≡ unprotect H b p
  unfolding unprotect
  unprotect_of_parts b t p e f = rw (e, f) refl

  accept_peer_parts :
      (remote : H.Endpoint) (b : Transport H)
      → ((accept_peer H remote b).connection_encrypted ≡ b.connection_encrypted)
        × ((accept_peer H remote b).crypto_context ≡ b.crypto_context)
        × ((accept_peer H remote b).received_packets ≡ b.received_packets)
  unfolding accept_peer
  accept_peer_parts remote b = elim (Bool-cases b.peer_endpoint_known) [
    | inl e ↦ rw e (refl, refl, refl)
    | inr e ↦ rw e (refl, refl, refl)
  ]

  module _ (A : IsAead H.ssl) where
    -- A protected packet is read as the packet it was.
    pub unprotect-protect :
        (nonce stale : Bytes) (a b : Transport H) (p q : Packet)
        → length nonce ≡ nonce_len
        → IsSendable p
        → IsPaired a b
        → protect H (some nonce) a p ≡ ok q
        → IsReadAs b p (received stale (datagram q))
    unfolding unprotect
    unprotect-protect nonce stale a b p q n s pair e =
        let x : Protected (some nonce) a p q =
          protect-Protected (some nonce) a p q pair.sends_encrypted e in
        let long : length (content p) ≡ p.header.size = length-content p s.whole in
        let short : length x.cipher < u16_mod = omega (arith, x.fits) in
        let size : (length x.cipher % u16_mod) ≡ length x.cipher = omega arith in
        let same : content (with_ciphertext p x.cipher) ≡ x.cipher =
          rw size (take-append x.cipher _ (length x.cipher) refl) in
        let arrival : ((received stale (datagram (with_ciphertext p x.cipher))).header
              ≡ (with_ciphertext p x.cipher).header)
            × (content (received stale (datagram (with_ciphertext p x.cipher)))
                ≡ content (with_ciphertext p x.cipher)) =
          received-datagram stale (with_ciphertext p x.cipher)
            (record {
              type_ok = s.header_ok.type_ok;
              flags_ok = s.header_ok.flags_ok;
              size_ok = omega arith;
              sequence_ok = s.header_ok.sequence_ok;
            })
            (omega (arith, x.fits))
            (omega (arith, length-append x.cipher (drop (length x.cipher) p.region))) in
        let opened : decrypt_data H.ssl b.crypto_context
              (content (received stale (datagram (with_ciphertext p x.cipher))))
            ≡ ok (content p) =
          rw (arrival.1, same)
            (decrypt_data-encrypt_data H.ssl A nonce (content p) x.cipher a.crypto_context
                b.crypto_context n pair.ready pair.agreed x.encrypted
              ∙ rw (lt→ltb 0 (length (content p)) (omega (arith, s.nonempty))) refl) in
        let back : (length (content p) % u16_mod) ≡ p.header.size =
          omega (arith, s.header_ok.size_ok) in
        subst (λ z. IsReadAs b p (received stale (datagram z))) x.framed
          (record {
            same_sequence = ap (λ h. h.sequence) arrival.0;
            same_type = ap (λ h. h.type) arrival.0;
            fits = rw arrival.0 (omega (arith, x.fits));
            reading =
                with_plaintext (received stale (datagram (with_ciphertext p x.cipher))) (content p);
            opened = rw (pair.reads_encrypted, opened, unprotect) refl;
            same_header = rw (arrival.0, back) refl;
            same_content = rw back (take-append (content p) _ p.header.size long);
          })

    receive_data_passes :
        (arrived r : Packet) (t : Transport H)
        → arrived.header.size ≤ packet_size
        → unprotect H t arrived ≡ ok r
        → member arrived.header.sequence t.received_packets ≡ false
        → receive_data H arrived t
          ≡ ((deliver H r t).0, send_ack H arrived.header.sequence t ∷ (deliver H r t).1, continues)
    unfolding receive_data
    receive_data_passes arrived r t fits opened new =
        let small : ltb packet_size arrived.header.size ≡ false = ground (arith, fits) in
        rw (small, new, opened, receive_data) refl

    -- The receiving loop passes on the packet as it is read.
    pub receive_turn-passes :
        (later : ℕ) (remote : H.Endpoint) (p arrived : Packet) (b : Transport H)
        → p.header.type ≡ PacketType.payload_data
        → (z : IsReadAs b p arrived)
        → (not b.peer_endpoint_known || H.same_endpoint remote b.peer_endpoint) ≡ true
        → member p.header.sequence b.received_packets ≡ false
        → receive_turn H later remote arrived b ≡ passes later remote p.header.sequence z.reading b
    unfolding receive_turn dispatch
    receive_turn-passes later remote p arrived b is_data z known new =
        let b' : Transport H = record (accept_peer H remote b) { last_peer_activity = later } in
        rw known (
          ap (λ type. dispatch H type arrived b') (z.same_type ∙ is_data)
          ∙ receive_data_passes arrived z.reading b' z.fits
              (unprotect_of_parts b b' arrived (accept_peer_parts remote b).0
                  (accept_peer_parts remote b).1
                ∙ z.opened)
              (rw ((accept_peer_parts remote b).2, z.same_sequence) new)
          ∙ ap (λ n. passes later remote n z.reading b) z.same_sequence)

    -- Over an encrypted connection, a data packet that send_packet hands to the socket arrives: if
    -- the two ends hold the same key, the cipher obeys the laws in `IsAead`, the nonce drawn has
    -- its length, the packet's header fields are in range and it has content, then the
    -- receiver, whatever its buffer held before, acknowledges the datagram and puts on its queue a
    -- packet with the sender's content under the sequence number that the sender drew, provided
    -- that the number is new to the receiver and the sender is its peer or it has no peer yet.
    pub receive_turn-send_packet :
        (nonce stale : Bytes) (handler now later : ℕ) (remote : H.Endpoint) (p q : Packet)
        (a b : Transport H)
        → length nonce ≡ nonce_len
        → p.header.type ≡ PacketType.payload_data
        → IsSendable (numbered H p a.sequence_counter)
        → IsPaired a b
        → (not b.peer_endpoint_known || H.same_endpoint remote b.peer_endpoint) ≡ true
        → member a.sequence_counter b.received_packets ≡ false
        → (send_packet H handler p now (some nonce) a).2 ≡ sending q
        → (r : Packet) × (r.header ≡ (numbered H p a.sequence_counter).header)
          × (content r ≡ content p)
          × (receive_turn H later remote (received stale (datagram q)) b
              ≡ passes later remote a.sequence_counter r b)
    receive_turn-send_packet nonce stale handler now later remote p q a b n is_data s pair known new
          h =
        let out : IsAdmitted H p now (some nonce) a q (send_packet H handler p now (some nonce) a) =
          send_packet-IsAdmitted H handler p now (some nonce) a q h in
        let z : IsReadAs b (numbered H p a.sequence_counter) (received stale (datagram q)) =
          unprotect-protect nonce stale a b (numbered H p a.sequence_counter) q n s pair
            out.protected in
        (
          z.reading,
          z.same_header,
          z.same_content,
          receive_turn-passes later remote (numbered H p a.sequence_counter)
              (received stale (datagram q)) b is_data z known new,
        )
