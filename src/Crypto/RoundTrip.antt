-- ===== src/Crypto/RoundTrip.antt =====
-- Encryption and decryption of packets with one session key.
use file_hop_z.Base.{
  ◌+◌, ◌-◌, ◌≤◌, ◌≡◌, ap, ◌∙◌, sym, inl, inr, true, some, ◌++◌, arith, ltb, take, drop, length,
  length-append, take-append, drop-append, Option-cases, if◌then◌else◌,
}
use mathlib.Core.List.{append_assoc}
use file_hop_z.Base.Bytes.{Bytes}
use file_hop_z.Errors.{ok, unexpected, make_error_code, ErrorCode}
use file_hop_z.Packet.{nonce_len, tag_len, crypt_overhead, packet_payload_size, packet_size}
use file_hop_z.Crypto.Api.{OpenSsl}
use file_hop_z.Crypto.{CryptoContext, seal, unseal, open_frame, encrypt_data, decrypt_data}

-- ChaCha20-Poly1305: the ciphertext is as long as the plaintext, the tag has the length that was
-- asked for, and with the right key and tag the plaintext comes back.
pub record IsAead (O : OpenSsl) : Type 0 where
  pub length_encrypted :
      (key nonce plain encrypted tag : Bytes)
      → seal O key nonce plain ≡ some (encrypted, tag)
      → length encrypted ≡ length plain
  pub length_tag :
      (key nonce plain encrypted tag : Bytes)
      → seal O key nonce plain ≡ some (encrypted, tag)
      → length tag ≡ tag_len
  pub opens :
      (key nonce plain encrypted tag : Bytes)
      → seal O key nonce plain ≡ some (encrypted, tag)
      → unseal O key nonce encrypted tag ≡ some plain

-- The parts of a frame are found again by their places.
frame_parts :
    (nonce encrypted tag : Bytes)
    → length nonce ≡ nonce_len
    → length tag ≡ tag_len
    → let cipher = nonce ++ (encrypted ++ tag) in
      (length cipher ≡ length encrypted + (nonce_len + tag_len))
      × (take nonce_len cipher ≡ nonce)
      × (take (length cipher - nonce_len - tag_len) (drop nonce_len cipher) ≡ encrypted)
      × (drop (length cipher - tag_len) cipher ≡ tag)
frame_parts nonce encrypted tag n t =
    let total : length (nonce ++ (encrypted ++ tag)) ≡ length encrypted + (nonce_len + tag_len) =
      omega (arith, length-append nonce (encrypted ++ tag), length-append encrypted tag) in
    let front : length (nonce ++ encrypted) ≡ length (nonce ++ (encrypted ++ tag)) - tag_len =
      omega (arith, length-append nonce encrypted) in
    (
      total,
      take-append nonce (encrypted ++ tag) nonce_len n,
      rw (drop-append nonce (encrypted ++ tag) nonce_len n)
          (take-append encrypted tag _ (omega arith)),
      ap (drop (length (nonce ++ (encrypted ++ tag)) - tag_len))
            (sym (append_assoc nonce encrypted tag))
          ∙ drop-append (nonce ++ encrypted) tag _ front,
    )

module _ (O : OpenSsl) where
  -- What a successful `encrypt_data` consists of.
  pub record Sealed (c : CryptoContext O) (nonce plain cipher : Bytes) : Type 0 where
    pub ready : c.is_ready ≡ true
    pub encrypted : Bytes
    pub tag : Bytes
    pub sealed : seal O c.encryption_key nonce plain ≡ some (encrypted, tag)
    pub framed : cipher ≡ nonce ++ (encrypted ++ tag)

  pub encrypt_data-Sealed :
      (nonce plain cipher : Bytes) (c : CryptoContext O)
      → encrypt_data O (some nonce) c plain ≡ ok cipher
      → Sealed c nonce plain cipher
  unfolding encrypt_data
  encrypt_data-Sealed nonce plain cipher c h =
      elim (Option-cases (seal O c.encryption_key nonce plain)) [
        | inl e ↦ absurd (ground arith)
        | inr ((encrypted, tag), e) ↦ record {
          ready = ground arith;
          encrypted = encrypted;
          tag = tag;
          sealed = e;
          framed = ground arith;
        }
      ]

  module _ (A : IsAead O) where
    -- A packet that was encrypted with a nonce of the right length is `crypt_overhead` bytes
    -- longer than the plaintext, so the encryption of a payload within its limit fits a packet.
    pub length-encrypt_data :
        (nonce plain cipher : Bytes) (c : CryptoContext O)
        → length nonce ≡ nonce_len
        → encrypt_data O (some nonce) c plain ≡ ok cipher
        → (length cipher ≡ length plain + crypt_overhead)
          × (length plain ≤ packet_payload_size → length cipher ≤ packet_size)
    length-encrypt_data nonce plain cipher c n h =
        let z : Sealed c nonce plain cipher = encrypt_data-Sealed nonce plain cipher c h in
        let total : length cipher ≡ length nonce + (length z.encrypted + length z.tag) =
          ap length z.framed
          ∙ length-append nonce (z.encrypted ++ z.tag)
          ∙ ap (◌+◌ (length nonce)) (length-append z.encrypted z.tag) in
        let body : length z.encrypted ≡ length plain =
          A.length_encrypted c.encryption_key nonce plain z.encrypted z.tag z.sealed in
        let end : length z.tag ≡ tag_len =
          A.length_tag c.encryption_key nonce plain z.encrypted z.tag z.sealed in
        (omega arith, λ small. omega arith)

    open_frame-seal :
        (key nonce plain encrypted tag : Bytes)
        → length nonce ≡ nonce_len
        → seal O key nonce plain ≡ some (encrypted, tag)
        → (length (nonce ++ (encrypted ++ tag)) ≡ length plain + (nonce_len + tag_len))
          × (open_frame O key (nonce ++ (encrypted ++ tag)) ≡ some plain)
    unfolding open_frame
    open_frame-seal key nonce plain encrypted tag n sealed =
        let end : length tag ≡ tag_len = A.length_tag key nonce plain encrypted tag sealed in
        let (total, at_nonce, at_body, at_tag) = frame_parts nonce encrypted tag n end in
        (
          omega (arith, A.length_encrypted key nonce plain encrypted tag sealed),
          (λ i. unseal O key (at_nonce i) (at_body i) (at_tag i))
              ∙ A.opens key nonce plain encrypted tag sealed,
        )

    -- What one side encrypts, with a nonce of the right length, another that is ready and has the
    -- same key decrypts, if the plaintext is not empty; the empty plaintext is refused as too short.
    pub decrypt_data-encrypt_data :
        (nonce plain cipher : Bytes) (c d : CryptoContext O)
        → length nonce ≡ nonce_len
        → d.is_ready ≡ true
        → c.encryption_key ≡ d.encryption_key
        → encrypt_data O (some nonce) c plain ≡ ok cipher
        → decrypt_data O d cipher ≡ (
            if ltb 0 (length plain)
            then ok plain
            else unexpected (make_error_code ErrorCode.crypto_ciphertext_too_short))
    unfolding decrypt_data
    decrypt_data-encrypt_data nonce plain cipher c d n ready same h =
        let z : Sealed c nonce plain cipher = encrypt_data-Sealed nonce plain cipher c h in
        let sealed : seal O d.encryption_key nonce plain ≡ some (z.encrypted, z.tag) =
          ap (λ k. seal O k nonce plain) (sym same) ∙ z.sealed in
        let (total, opened) =
          open_frame-seal d.encryption_key nonce plain z.encrypted z.tag n sealed in
        let total' : length cipher ≡ length plain + (nonce_len + tag_len) =
          ap length z.framed ∙ total in
        let opened' : open_frame O d.encryption_key cipher ≡ some plain =
          ap (open_frame O d.encryption_key) z.framed ∙ opened in
        ground arith
