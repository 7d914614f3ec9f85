-- ===== src/Crypto/Toy.antt =====
-- A transparent stand-in for OpenSSL, at which the theorems that assume its laws are tried: a key
-- is a number, its public key is that number, and the cipher changes nothing.
use file_hop_z.Base.{ℕ, ◌+◌, Option, none, some, [], ◌∷◌, ◌++◌, arith, replicate}
use file_hop_z.Base.Bytes.{Bytes}
use file_hop_z.Crypto.Api.{OpenSsl}
use file_hop_z.Crypto.{derive_secret, seal, unseal}
use file_hop_z.Crypto.Agreement.{IsDiffieHellman}
use file_hop_z.Crypto.RoundTrip.{IsAead}

pub record ToyContext : Type 0 where
  pub own : Option ℕ
  pub peer : Option ℕ
  pub secret : Bytes

abbrev blank : ToyContext
blank = record { own = none; peer = none; secret = [] }

abbrev toy_derive : ToyContext → Option Bytes
toy_derive c = elim c.own [
  | none ↦ some c.secret
  | some a ↦ elim c.peer [ none ↦ none | some b ↦ some ((a + b) ∷ []) ]
]

abbrev toy_public : Bytes → Option ℕ
toy_public [] = none
toy_public (b ∷ bs) = some b

abbrev pub toy_ssl : OpenSsl
toy_ssl = record {
  Key = ℕ;
  KeyContext = ToyContext;
  CipherContext = Bytes;
  new_context_id = λ a. some blank;
  new_context = λ k. some (record blank { own = k });
  keygen_init = λ c. some c;
  keygen = λ draw c. some draw;
  raw_public_key = λ k. some (k ∷ []);
  new_raw_public_key = toy_public;
  derive_init = λ c. some c;
  derive_set_peer = λ c k. some (record c { peer = some k });
  derive = λ c n. toy_derive c;
  set_hkdf_sha256 = λ c. some c;
  set_hkdf_salt = λ c s. some (record c { secret = c.secret ++ s });
  set_hkdf_key = λ c s. some (record c { secret = c.secret ++ s });
  add_hkdf_info = λ c s. some c;
  new_cipher_context = some [];
  encrypt_init = λ c. some c;
  set_ivlen = λ c n. some c;
  encrypt_init_key = λ c k n. some k;
  encrypt_update = λ c d. some (c, d);
  encrypt_final = λ c. some c;
  get_tag = λ c n. some (replicate n 7);
  decrypt_init = λ c. some c;
  decrypt_init_key = λ c k n. some k;
  decrypt_update = λ c d. some (c, d);
  set_tag = λ c t. some c;
  decrypt_final = λ c. some c;
}

pub toy_ssl-IsDiffieHellman : IsDiffieHellman toy_ssl
unfolding derive_secret
toy_ssl-IsDiffieHellman = record { agrees = λ a b pa pb sa sb ea eb ha hb. ground arith }

pub toy_ssl-IsAead : IsAead toy_ssl
unfolding seal unseal
toy_ssl-IsAead = record {
  length_encrypted = λ k n p e t h. ground arith;
  length_tag = λ k n p e t h. ground arith;
  opens = λ k n p e t h. ground arith;
}
