-- ===== src/Crypto/Examples.antt =====
-- Key agreement and encryption at concrete data, over the stand-in for OpenSSL.
use file_hop_z.Base.{◌+◌, ◌≤◌, ◌≡◌, refl, true, false, none, some, [], ◌∷◌, ◌++◌, length, replicate}
use file_hop_z.Base.Bytes.{Bytes}
use file_hop_z.Errors.{ok, unexpected, make_error_code, ErrorCode}
use file_hop_z.Packet.{crypt_overhead, packet_payload_size, packet_size}
use file_hop_z.Crypto.{
  CryptoContext, init, set_peer_public_key, encrypt_data, decrypt_data, lexicographical_compare,
}
use file_hop_z.Crypto.Agreement.{set_peer_public_key_agree}
use file_hop_z.Crypto.RoundTrip.{length-encrypt_data, decrypt_data-encrypt_data}
use file_hop_z.Crypto.Toy.{toy_ssl, toy_ssl-IsDiffieHellman, toy_ssl-IsAead}

abbrev start : CryptoContext toy_ssl
start = record {
  is_ready = false;
  key_handle = none;
  own_public_key = [];
  peer_public_key = [];
  encryption_key = [];
}

abbrev alice : CryptoContext toy_ssl
alice = record start { key_handle = some 5; own_public_key = 5 ∷ [] }

abbrev bob : CryptoContext toy_ssl
bob = record start { key_handle = some 3; own_public_key = 3 ∷ [] }

abbrev session : Bytes
session = 3 ∷ 5 ∷ 8 ∷ []

abbrev alice_ready : CryptoContext toy_ssl
alice_ready = record alice { is_ready = true; peer_public_key = 3 ∷ []; encryption_key = session }

abbrev bob_ready : CryptoContext toy_ssl
bob_ready = record bob { is_ready = true; peer_public_key = 5 ∷ []; encryption_key = session }

toy_contexts_agree :
    (alice_ready.is_ready ≡ true)
    × (bob_ready.is_ready ≡ true)
    × (alice_ready.encryption_key ≡ bob_ready.encryption_key)
unfolding init set_peer_public_key lexicographical_compare
toy_contexts_agree =
    set_peer_public_key_agree toy_ssl toy_ssl-IsDiffieHellman 5 3 start start alice bob alice_ready
      bob_ready refl refl refl refl

abbrev nonce : Bytes
nonce = replicate 12 9

abbrev cipher : Bytes
cipher = nonce ++ (1 ∷ 2 ∷ replicate 16 7)

encrypted_size :
    (length cipher ≡ 2 + crypt_overhead) × (2 ≤ packet_payload_size → length cipher ≤ packet_size)
unfolding encrypt_data
encrypted_size =
    length-encrypt_data toy_ssl toy_ssl-IsAead nonce (1 ∷ 2 ∷ []) cipher alice_ready refl refl

decrypt_data-encrypt_data_example : decrypt_data toy_ssl bob_ready cipher ≡ ok (1 ∷ 2 ∷ [])
unfolding encrypt_data
decrypt_data-encrypt_data_example =
    decrypt_data-encrypt_data toy_ssl toy_ssl-IsAead nonce (1 ∷ 2 ∷ []) cipher alice_ready bob_ready
      refl refl refl refl

empty_plaintext_refused :
    decrypt_data toy_ssl bob_ready (nonce ++ replicate 16 7)
    ≡ unexpected (make_error_code ErrorCode.crypto_ciphertext_too_short)
unfolding decrypt_data
empty_plaintext_refused = refl

not_ready_refused :
    encrypt_data toy_ssl (some nonce) alice (1 ∷ [])
    ≡ unexpected (make_error_code ErrorCode.crypto_context_not_ready)
unfolding encrypt_data
not_ready_refused = refl
