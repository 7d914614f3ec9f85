-- ===== src/Transport/Agreement.antt =====
-- A handshake that both sides finish leaves both encrypted with one key.
use file_hop_z.Base.{ℕ, ◌≤◌, ◌≡◌, sym, ◌∙◌, ap, subst, true, false, some, length, take, take_all}
use file_hop_z.Base.Bytes.{Bytes}
use file_hop_z.Errors.{BoostError, success, failed}
use file_hop_z.Packet.{Packet, content, x25519_len}
use file_hop_z.Crypto.{CryptoContext}
use file_hop_z.Crypto.Agreement.{IsDiffieHellman, HasKey, HasSession, encryption_key_agree}
use file_hop_z.Host.{Host}
use file_hop_z.Transport.{Transport}
use file_hop_z.Transport.Handshake.{
  finished, sends, awaits, own_packet, handshake_start, take_peer_key, initiator_start,
  initiator_received, responder_start, responder_received, responder_sent,
}
use file_hop_z.Transport.HandshakeResults.{
  handshake_start-HasKey, take_peer_key-HasSession, initiator_start_sends, responder_start_awaits,
  responder_received_sends, responder_sent_finished, initiator_received_finished, take_peer_key_own,
}

module _ (H : Host) where
  -- A raw public key has at most the length of an X25519 key.
  pub record IsRawKey : Type 0 where
    pub raw_length :
        (key : H.ssl.Key) (raw : Bytes)
        → H.ssl.raw_public_key key ≡ some raw
        → length raw ≤ x25519_len

  content-own_packet :
      (K : IsRawKey) (key : H.ssl.Key) (t : Transport H)
      → HasKey H.ssl t.crypto_context key
      → content (own_packet H t) ≡ t.crypto_context.own_public_key
  content-own_packet K key t k =
      take_all x25519_len t.crypto_context.own_public_key
        (K.raw_length key t.crypto_context.own_public_key k.public)

  -- Two transports shake hands, the initiator `a` and the responder `b`. Each side is followed by
  -- its results only; between them its loops may change anything but its keys. The packets that
  -- arrive carry the contents of those that were sent.
  pub record Exchange (a0 b0 a1 b1 b2 a2 b3 : Transport H) (sent_a sent_b read_a read_b : Packet)
      : Type 0 where
    pub draw_a : ℕ
    pub draw_b : ℕ
    pub ec_a : BoostError
    pub ec_b : BoostError
    pub ec_sent : BoostError
    pub a_starts : (initiator_start H draw_a a0).1 ≡ sends sent_a
    pub b_starts : (responder_start H draw_b b0).1 ≡ awaits
    pub a_keeps : a1.crypto_context ≡ (initiator_start H draw_a a0).0.crypto_context
    pub b_keeps : b1.crypto_context ≡ (responder_start H draw_b b0).0.crypto_context
    pub a_to_b : content read_a ≡ content sent_a
    pub b_answers : (responder_received H ec_b read_a b1).1 ≡ sends sent_b
    pub b_holds : b2.crypto_context ≡ (responder_received H ec_b read_a b1).0.crypto_context
    pub b_to_a : content read_b ≡ content sent_b
    pub a_ends : initiator_received H ec_a read_b a1 ≡ (a2, finished success)
    pub b_ends : responder_sent H ec_sent b2 ≡ (b3, finished success)

  module _ (D : IsDiffieHellman H.ssl) (K : IsRawKey) where
    -- Two sides that took each other's public key hold one key.
    took_agree :
        (a b : Transport H) (read_a read_b : Packet) (key_a key_b : H.ssl.Key)
        → HasKey H.ssl a.crypto_context key_a
        → HasKey H.ssl b.crypto_context key_b
        → content read_a ≡ a.crypto_context.own_public_key
        → content read_b ≡ b.crypto_context.own_public_key
        → failed (take_peer_key H read_b a).1 ≡ false
        → failed (take_peer_key H read_a b).1 ≡ false
        → ((take_peer_key H read_b a).0.crypto_context.is_ready ≡ true)
          × ((take_peer_key H read_a b).0.crypto_context.is_ready ≡ true)
          × ((take_peer_key H read_b a).0.crypto_context.encryption_key
              ≡ (take_peer_key H read_a b).0.crypto_context.encryption_key)
    took_agree a b read_a read_b key_a key_b ka kb at_b at_a took_a took_b =
        let (secret_a, sa) = take_peer_key-HasSession H read_b a took_a in
        let (secret_b, sb) = take_peer_key-HasSession H read_a b took_b in
        let session_a : CryptoContext H.ssl = (take_peer_key H read_b a).0.crypto_context in
        let session_b : CryptoContext H.ssl = (take_peer_key H read_a b).0.crypto_context in
        (
          sa.ready,
          sb.ready,
          encryption_key_agree H.ssl D a.crypto_context b.crypto_context session_a session_b key_a
              key_b secret_a secret_b ka kb
              (subst (λ k. HasSession H.ssl a.crypto_context session_a k secret_a) at_a sa)
              (subst (λ k. HasSession H.ssl b.crypto_context session_b k secret_b) at_b sb),
        )

    -- If both sides of a handshake finish without an error, both connections are encrypted, both
    -- contexts are ready, and they hold the same key, provided that X25519 agrees on one secret
    -- and raw public keys are no longer than X25519 keys.
    pub handshake_agree :
        (a0 b0 a1 b1 b2 a2 b3 : Transport H) (sent_a sent_b read_a read_b : Packet)
        → Exchange a0 b0 a1 b1 b2 a2 b3 sent_a sent_b read_a read_b
        → (a2.connection_encrypted ≡ true)
          × (b3.connection_encrypted ≡ true)
          × (a2.crypto_context.is_ready ≡ true)
          × (b3.crypto_context.is_ready ≡ true)
          × (a2.crypto_context.encryption_key ≡ b3.crypto_context.encryption_key)
    unfolding initiator_start responder_start
    handshake_agree a0 b0 a1 b1 b2 a2 b3 sent_a sent_b read_a read_b s =
        let (started_a, own_a) = initiator_start_sends H s.draw_a a0 sent_a s.a_starts in
        let started_b : failed (handshake_start H s.draw_b b0).1 ≡ false =
          responder_start_awaits H s.draw_b b0 s.b_starts in
        let (took_b, state_b, own_b) =
          responder_received_sends H s.ec_b read_a b1 sent_b s.b_answers in
        let (took_a, state_a) =
          initiator_received_finished H s.ec_a read_b a1 (ap (λ r. r.1) s.a_ends) in
        let end_b : b3 ≡ record b2 { connection_encrypted = true } =
          sym (ap (λ r. r.0) s.b_ends)
          ∙ responder_sent_finished H s.ec_sent b2 (ap (λ r. r.1) s.b_ends) in
        let end_a : a2 ≡ record (take_peer_key H read_b a1).0 { connection_encrypted = true } =
          sym (ap (λ r. r.0) s.a_ends) ∙ state_a in
        let (key_a, ka0) = handshake_start-HasKey H s.draw_a a0 started_a in
        let (key_b, kb0) = handshake_start-HasKey H s.draw_b b0 started_b in
        let ka : HasKey H.ssl a1.crypto_context key_a = rw s.a_keeps ka0 in
        let kb : HasKey H.ssl b1.crypto_context key_b = rw s.b_keeps kb0 in
        let at_b : content read_a ≡ a1.crypto_context.own_public_key =
          s.a_to_b
          ∙ sym (ap content own_a)
          ∙ content-own_packet K key_a (initiator_start H s.draw_a a0).0 ka0
          ∙ sym (ap (λ c. c.own_public_key) s.a_keeps) in
        let at_a : content read_b ≡ b1.crypto_context.own_public_key =
          s.b_to_a
          ∙ sym (ap content own_b)
          ∙ ap (take x25519_len) (take_peer_key_own H read_a b1)
          ∙ content-own_packet K key_b b1 kb in
        let (ready_a, ready_b, same) =
          took_agree a1 b1 read_a read_b key_a key_b ka kb at_b at_a took_a took_b in
        let held_a = ap (λ t. t.crypto_context) end_a in
        let held_b =
          ap (λ t. t.crypto_context) end_b ∙ s.b_holds ∙ ap (λ t. t.crypto_context) state_b in
        (
          ap (λ t. t.connection_encrypted) end_a,
          ap (λ t. t.connection_encrypted) end_b,
          ap (λ c. c.is_ready) held_a ∙ ready_a,
          ap (λ c. c.is_ready) held_b ∙ ready_b,
          ap (λ c. c.encryption_key) held_a ∙ same ∙ sym (ap (λ c. c.encryption_key) held_b),
        )
