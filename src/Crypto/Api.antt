-- ===== src/Crypto/Api.antt =====
-- The OpenSSL calls that src/utils/crypto_context.cpp makes, as a parameter of the model. Contexts
-- and keys are opaque, and a call returns the object that it leaves.
use file_hop_z.Base.{ℕ, Option, none, some}
use file_hop_z.Base.Bytes.{Bytes}

-- The two identifiers that `EVP_PKEY_CTX_new_id` is given.
pub data Algorithm : Type 0 where
  x25519 hkdf : Algorithm

pub record OpenSsl : Type 1 where
  pub Key : Type 0
  pub KeyContext : Type 0
  pub CipherContext : Type 0
  pub new_context_id : Algorithm → Option KeyContext
  pub new_context : Option Key → Option KeyContext
  pub keygen_init : KeyContext → Option KeyContext
  pub keygen : ℕ → KeyContext → Option Key
  pub raw_public_key : Key → Option Bytes
  pub new_raw_public_key : Bytes → Option Key
  pub derive_init : KeyContext → Option KeyContext
  pub derive_set_peer : KeyContext → Key → Option KeyContext
  pub derive : KeyContext → ℕ → Option Bytes
  pub set_hkdf_sha256 : KeyContext → Option KeyContext
  pub set_hkdf_salt : KeyContext → Bytes → Option KeyContext
  pub set_hkdf_key : KeyContext → Bytes → Option KeyContext
  pub add_hkdf_info : KeyContext → Bytes → Option KeyContext
  pub new_cipher_context : Option CipherContext
  pub encrypt_init : CipherContext → Option CipherContext
  pub set_ivlen : CipherContext → ℕ → Option CipherContext
  pub encrypt_init_key : CipherContext → Bytes → Bytes → Option CipherContext
  pub encrypt_update : CipherContext → Bytes → Option (CipherContext × Bytes)
  pub encrypt_final : CipherContext → Option CipherContext
  pub get_tag : CipherContext → ℕ → Option Bytes
  pub decrypt_init : CipherContext → Option CipherContext
  pub decrypt_init_key : CipherContext → Bytes → Bytes → Option CipherContext
  pub decrypt_update : CipherContext → Bytes → Option (CipherContext × Bytes)
  pub set_tag : CipherContext → Bytes → Option CipherContext
  pub decrypt_final : CipherContext → Option CipherContext

-- Chains of calls: the first that fails ends the chain.
infixl 5 ◌>>=◌
abbrev pub ◌>>=◌ {ℓ κ} : {A : Type ℓ} {B : Type κ} → Option A → (A → Option B) → Option B
none >>= f = none
some a >>= f = f a
