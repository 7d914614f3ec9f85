-- ===== src/Crypto.antt =====
-- src/utils/crypto_context.cpp and include/utils/crypto_context.hpp: key agreement and the
-- encryption of packets. OpenSSL is the parameter `OpenSsl`; a call that does not return 1, or a
-- null pointer, is `none`.
pub mod Api
pub mod Salt
pub mod Agreement
pub mod RoundTrip
pub mod Toy
mod Examples
use file_hop_z.Base.{
  ℕ, ◌+◌, ◌-◌, ◌≡◌, Bool, true, false, Option, none, some, List, [], ◌∷◌, ◌++◌, ltb, leb, take,
  drop, length, if◌then◌else◌,
}
use file_hop_z.Base.Bytes.{Bytes, codes}
use file_hop_z.Errors.{BoostError, success, Expected, ok, unexpected, ErrorCode, make_error_code}
use file_hop_z.Packet.{key_len, nonce_len, tag_len, x25519_len}
use Api.{OpenSsl, Algorithm, ◌>>=◌}

-- `std::lexicographical_compare` on bytes.
unfoldable pub lexicographical_compare : Bytes → Bytes → Bool
lexicographical_compare xs [] = false
lexicographical_compare [] (y ∷ ys) = true
lexicographical_compare (x ∷ xs) (y ∷ ys) =
    let rest = lexicographical_compare xs ys in
    if ltb x y then true else if ltb y x then false else rest

-- The salt: both public keys, the smaller first.
unfoldable pub salt : Bytes → Bytes → Bytes
salt own peer = if lexicographical_compare own peer then own ++ peer else peer ++ own

abbrev pub key_purpose_label : Bytes
key_purpose_label = codes "x25519-chacha20poly1305"

module _ (O : OpenSsl) where
  open O use {Key}

  -- The fields of `Crypto_context`.
  pub record CryptoContext : Type 0 where
    pub is_ready : Bool
    pub key_handle : Option Key
    pub own_public_key : Bytes
    pub peer_public_key : Bytes
    pub encryption_key : Bytes

  -- The default constructor leaves the arrays as the memory was.
  unfoldable pub new_context : Bytes → Bytes → Bytes → CryptoContext
  new_context own peer key = record {
    is_ready = false;
    key_handle = none;
    own_public_key = own;
    peer_public_key = peer;
    encryption_key = key;
  }

  -- The key pair that `init` generates; `draw` is what OpenSSL draws.
  unfoldable pub generate : ℕ → Option Key
  generate draw = do
    generation_context ← O.new_context_id Algorithm.x25519
    generation_context' ← O.keygen_init generation_context
    O.keygen draw generation_context'

  unfoldable pub init : ℕ → CryptoContext → CryptoContext × BoostError
  unfolding generate
  init draw c = elim (generate draw) [
    | none ↦ (c, make_error_code ErrorCode.crypto_key_generation_failed)
    | some key ↦
        let c' = record c { key_handle = some key } in
        elim (O.raw_public_key key) [
          | none ↦ (c', make_error_code ErrorCode.crypto_key_generation_failed)
          | some public ↦ (record c' { own_public_key = public }, success)
        ]
  ]

  -- The X25519 part of `set_peer_public_key`.
  unfoldable pub derive_secret : Option Key → Bytes → Option Bytes
  derive_secret own peer = do
    peer_pub_key ← O.new_raw_public_key peer
    derive_context ← O.new_context own
    derive_context' ← O.derive_init derive_context
    derive_context'' ← O.derive_set_peer derive_context' peer_pub_key
    O.derive derive_context'' x25519_len

  -- The HKDF part of `set_peer_public_key`.
  unfoldable pub derive_key : Bytes → Bytes → Option Bytes
  derive_key shared_secret salted = do
    hkdf_context ← O.new_context_id Algorithm.hkdf
    with_init ← O.derive_init hkdf_context
    with_md ← O.set_hkdf_sha256 with_init
    with_salt ← O.set_hkdf_salt with_md salted
    with_key ← O.set_hkdf_key with_salt shared_secret
    with_info ← O.add_hkdf_info with_key key_purpose_label
    O.derive with_info key_len

  unfoldable pub set_peer_public_key : Bytes → CryptoContext → CryptoContext × BoostError
  unfolding derive_secret derive_key salt
  set_peer_public_key peer c =
      let c' = record c { peer_public_key = peer } in
      elim (derive_secret c.key_handle peer) [
        | none ↦ (c', make_error_code ErrorCode.crypto_peer_key_failed)
        | some shared_secret ↦ elim (derive_key shared_secret (salt c.own_public_key peer)) [
          | none ↦ (c', make_error_code ErrorCode.crypto_hkdf_failed)
          | some key ↦ (record c' { encryption_key = key; is_ready = true }, success)
        ]
      ]

  -- The cipher calls of `encrypt_data`: the ciphertext and the tag.
  unfoldable pub seal : Bytes → Bytes → Bytes → Option (Bytes × Bytes)
  seal key nonce data_bytes = do
    cipher_context ← O.new_cipher_context
    with_cipher ← O.encrypt_init cipher_context
    with_ivlen ← O.set_ivlen with_cipher nonce_len
    with_key ← O.encrypt_init_key with_ivlen key nonce
    (updated, encrypted) ← O.encrypt_update with_key data_bytes
    final ← O.encrypt_final updated
    tag ← O.get_tag final tag_len
    some (encrypted, tag)

  -- The cipher calls of `decrypt_data`: the plaintext, if the tag is right.
  unfoldable pub unseal : Bytes → Bytes → Bytes → Bytes → Option Bytes
  unseal key nonce encrypted tag = do
    cipher_context ← O.new_cipher_context
    with_cipher ← O.decrypt_init cipher_context
    with_ivlen ← O.set_ivlen with_cipher nonce_len
    with_key ← O.decrypt_init_key with_ivlen key nonce
    (updated, decrypted) ← O.decrypt_update with_key encrypted
    with_tag ← O.set_tag updated tag
    final ← O.decrypt_final with_tag
    some decrypted

  -- `random` is what `RAND_bytes` writes, `none` if it fails.
  unfoldable pub encrypt_data : Option Bytes → CryptoContext → Bytes → Expected Bytes
  unfolding seal
  encrypt_data random c data_bytes =
      if c.is_ready
      then elim random [
        | none ↦ unexpected (make_error_code ErrorCode.crypto_random_failed)
        | some nonce ↦ elim (seal c.encryption_key nonce data_bytes) [
          | none ↦ unexpected (make_error_code ErrorCode.crypto_encrypt_failed)
          | some (encrypted, tag) ↦ ok (nonce ++ (encrypted ++ tag))
        ]
      ]
      else unexpected (make_error_code ErrorCode.crypto_context_not_ready)

  -- The packet taken apart: nonce, ciphertext and tag by their places.
  unfoldable pub open_frame : Bytes → Bytes → Option Bytes
  unfolding unseal
  open_frame key data_bytes =
      unseal key (take nonce_len data_bytes)
        (take (length data_bytes - nonce_len - tag_len) (drop nonce_len data_bytes))
        (drop (length data_bytes - tag_len) data_bytes)

  unfoldable pub decrypt_data : CryptoContext → Bytes → Expected Bytes
  unfolding open_frame
  decrypt_data c data_bytes =
      if c.is_ready
      then if leb (length data_bytes) (nonce_len + tag_len)
        then unexpected (make_error_code ErrorCode.crypto_ciphertext_too_short)
        else elim (open_frame c.encryption_key data_bytes) [
          | none ↦ unexpected (make_error_code ErrorCode.crypto_decrypt_failed)
          | some decrypted ↦ ok decrypted
        ]
      else unexpected (make_error_code ErrorCode.crypto_context_not_ready)
