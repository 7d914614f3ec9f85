-- ===== src/Transport/HandshakeResults.antt =====
-- What it means that a part of a handshake ended without an error.
use file_hop_z.Base.{ℕ, ◌≡◌, refl, inl, inr, true, false, arith, take, ◌==◌, ==_iff, Bool-cases}
use file_hop_z.Base.Bytes.{Bytes}
use file_hop_z.Errors.{BoostError, success, failed, make_error_code}
use file_hop_z.Packet.{Packet, content, x25519_len}
use file_hop_z.Crypto.{set_peer_public_key}
use file_hop_z.Crypto.Agreement.{HasKey, HasSession, init-HasKey, set_peer_public_key-HasSession}
use file_hop_z.Host.{Host}
use file_hop_z.Transport.{Transport}
use file_hop_z.Transport.Handshake.{
  finished, sends, awaits, own_packet, handshake_start, take_peer_key, initiator_start,
  initiator_received, responder_start, responder_received, responder_sent,
}

module _ (H : Host) where
  pub handshake_start-HasKey :
      (draw : ℕ) (t : Transport H)
      → failed (handshake_start H draw t).1 ≡ false
      → (key : H.ssl.Key) × HasKey H.ssl (handshake_start H draw t).0.crypto_context key
  unfolding handshake_start make_error_code
  handshake_start-HasKey draw t h = elim (Bool-cases t.loops_started) [
    | inl e ↦ rw e (init-HasKey H.ssl draw t.crypto_context (ground arith))
    | inr e ↦ absurd (ground arith)
  ]

  pub take_peer_key-HasSession :
      (p : Packet) (t : Transport H)
      → failed (take_peer_key H p t).1 ≡ false
      → (secret : Bytes) × HasSession H.ssl t.crypto_context
          (take_peer_key H p t).0.crypto_context
          (content p)
          secret
  unfolding take_peer_key make_error_code
  take_peer_key-HasSession p t h = elim (Bool-cases (p.header.size == x25519_len)) [
    | inl e ↦
        rw (e, (==_iff p.header.size x25519_len).0 e)
          (set_peer_public_key-HasSession H.ssl (take x25519_len p.region) t.crypto_context
            (ground arith))
    | inr e ↦ absurd (ground arith)
  ]

  pub initiator_start_sends :
      (draw : ℕ) (t : Transport H) (p : Packet)
      → (initiator_start H draw t).1 ≡ sends p
      → (failed (handshake_start H draw t).1 ≡ false)
        × (own_packet H (initiator_start H draw t).0 ≡ p)
  unfolding initiator_start
  initiator_start_sends draw t p h = elim (Bool-cases (failed (handshake_start H draw t).1)) [
    | inl e ↦ absurd (ground arith)
    | inr e ↦ (e, ground arith)
  ]

  pub responder_start_awaits :
      (draw : ℕ) (t : Transport H)
      → (responder_start H draw t).1 ≡ awaits
      → failed (handshake_start H draw t).1 ≡ false
  unfolding responder_start
  responder_start_awaits draw t h = ground arith

  pub responder_received_sends :
      (ec : BoostError) (r : Packet) (t : Transport H) (p : Packet)
      → (responder_received H ec r t).1 ≡ sends p
      → (failed (take_peer_key H r t).1 ≡ false)
        × ((responder_received H ec r t).0 ≡ (take_peer_key H r t).0)
        × (own_packet H (take_peer_key H r t).0 ≡ p)
  unfolding responder_received
  responder_received_sends ec r t p h = elim (Bool-cases (failed ec)) [
    | inl e ↦ absurd (ground arith)
    | inr e ↦ elim (Bool-cases (failed (take_peer_key H r t).1)) [
      | inl f ↦ absurd (ground arith)
      | inr f ↦ (f, rw e refl, ground arith)
    ]
  ]

  pub responder_sent_finished :
      (ec : BoostError) (t : Transport H)
      → (responder_sent H ec t).1 ≡ finished success
      → (responder_sent H ec t).0 ≡ record t { connection_encrypted = true }
  unfolding responder_sent
  responder_sent_finished ec t h = elim (Bool-cases (failed ec)) [
    | inl e ↦ absurd (ground arith)
    | inr e ↦ rw e refl
  ]

  pub initiator_received_finished :
      (ec : BoostError) (r : Packet) (t : Transport H)
      → (initiator_received H ec r t).1 ≡ finished success
      → (failed (take_peer_key H r t).1 ≡ false)
        × ((initiator_received H ec r t).0
            ≡ record (take_peer_key H r t).0 { connection_encrypted = true })
  unfolding initiator_received
  initiator_received_finished ec r t h = elim (Bool-cases (failed ec)) [
    | inl e ↦ absurd (ground arith)
    | inr e ↦ elim (Bool-cases (failed (take_peer_key H r t).1)) [
      | inl f ↦ absurd (ground arith)
      | inr f ↦ (f, rw (e, f) refl)
    ]
  ]

  -- The own key stays when the peer's is taken.
  pub take_peer_key_own :
      (p : Packet) (t : Transport H)
      → (take_peer_key H p t).0.crypto_context.own_public_key ≡ t.crypto_context.own_public_key
  unfolding take_peer_key set_peer_public_key
  take_peer_key_own p t = ground arith
