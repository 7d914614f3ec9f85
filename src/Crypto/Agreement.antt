-- ===== src/Crypto/Agreement.antt =====
-- Both sides of a handshake end with the same encryption key.
use file_hop_z.Base.{
  ℕ, ◌≡◌, ap, ap₂, ◌∙◌, sym, subst, inl, inr, true, false, some, arith, Option-cases,
}
use file_hop_z.Base.Bytes.{Bytes}
use file_hop_z.Errors.{failed, success, make_error_code}
use file_hop_z.Crypto.Api.{OpenSsl}
use file_hop_z.Crypto.{
  CryptoContext, generate, init, derive_secret, derive_key, salt, set_peer_public_key,
}
use mathlib.Core.Option.{some-injective}
use file_hop_z.Crypto.Salt.{salt_comm}

-- X25519: two key pairs agree on one secret.
pub record IsDiffieHellman (O : OpenSsl) : Type 0 where
  pub agrees :
      (a b : O.Key) (public_a public_b secret_a secret_b : Bytes)
      → O.raw_public_key a ≡ some public_a
      → O.raw_public_key b ≡ some public_b
      → derive_secret O (some a) public_b ≡ some secret_a
      → derive_secret O (some b) public_a ≡ some secret_b
      → secret_a ≡ secret_b

module _ (O : OpenSsl) where
  -- A context that has its key pair.
  pub record HasKey (c : CryptoContext O) (key : O.Key) : Type 0 where
    pub handle : c.key_handle ≡ some key
    pub public : O.raw_public_key key ≡ some c.own_public_key

  -- A context with a session key, derived with the peer's public key.
  pub record HasSession (c c' : CryptoContext O) (peer secret : Bytes) : Type 0 where
    pub ready : c'.is_ready ≡ true
    pub agreed : derive_secret O c.key_handle peer ≡ some secret
    pub derived : derive_key O secret (salt c.own_public_key peer) ≡ some c'.encryption_key

  -- `init` without an error leaves a key pair.
  pub init-HasKey :
      (draw : ℕ) (c : CryptoContext O)
      → failed (init O draw c).1 ≡ false
      → (key : O.Key) × HasKey (init O draw c).0 key
  unfolding init make_error_code
  init-HasKey draw c h = elim (Option-cases (generate O draw)) [
    | inl e ↦ absurd (ground arith)
    | inr (key, e) ↦ elim (Option-cases (O.raw_public_key key)) [
      | inl f ↦ absurd (ground arith)
      | inr (public, f) ↦ (key, record { handle = ground arith; public = ground arith })
    ]
  ]

  pub set_peer_public_key-HasSession :
      (peer : Bytes) (c : CryptoContext O)
      → failed (set_peer_public_key O peer c).1 ≡ false
      → (secret : Bytes) × HasSession c (set_peer_public_key O peer c).0 peer secret
  unfolding set_peer_public_key make_error_code
  set_peer_public_key-HasSession peer c h =
      elim (Option-cases (derive_secret O c.key_handle peer)) [
        | inl e ↦ absurd (ground arith)
        | inr (secret, e) ↦ elim (Option-cases (derive_key O secret (salt c.own_public_key peer))) [
          | inl f ↦ absurd (ground arith)
          | inr (key, f) ↦
              (secret, record { ready = ground arith; agreed = e; derived = ground arith })
        ]
      ]

  pub encryption_key_agree :
      IsDiffieHellman O
      → (a b a' b' : CryptoContext O) (key_a key_b : O.Key) (secret_a secret_b : Bytes)
      → HasKey a key_a
      → HasKey b key_b
      → HasSession a a' b.own_public_key secret_a
      → HasSession b b' a.own_public_key secret_b
      → a'.encryption_key ≡ b'.encryption_key
  encryption_key_agree D a b a' b' key_a key_b secret_a secret_b ka kb sa sb =
      let same : secret_a ≡ secret_b =
        D.agrees key_a key_b a.own_public_key b.own_public_key secret_a secret_b ka.public kb.public
          (ap (λ k. derive_secret O k b.own_public_key) (sym ka.handle) ∙ sa.agreed)
          (ap (λ k. derive_secret O k a.own_public_key) (sym kb.handle) ∙ sb.agreed) in
      some-injective a'.encryption_key b'.encryption_key (
        sym sa.derived
        ∙ ap₂ (derive_key O) same (salt_comm a.own_public_key b.own_public_key)
        ∙ sb.derived)

  -- Two sides that generated their keys without an error, and each of which took the other's
  -- public key without an error, are ready and hold the same encryption key, if X25519 agrees on
  -- one secret for both.
  pub set_peer_public_key_agree :
      IsDiffieHellman O
      → (draw_a draw_b : ℕ) (start_a start_b a b a' b' : CryptoContext O)
      → init O draw_a start_a ≡ (a, success)
      → init O draw_b start_b ≡ (b, success)
      → set_peer_public_key O b.own_public_key a ≡ (a', success)
      → set_peer_public_key O a.own_public_key b ≡ (b', success)
      → (a'.is_ready ≡ true) × (b'.is_ready ≡ true) × (a'.encryption_key ≡ b'.encryption_key)
  set_peer_public_key_agree D draw_a draw_b start_a start_b a b a' b' ia ib pa pb =
      let (key_a, ka) = init-HasKey draw_a start_a (ap (λ r. failed r.1) ia) in
      let (key_b, kb) = init-HasKey draw_b start_b (ap (λ r. failed r.1) ib) in
      let (secret_a, sa) =
        set_peer_public_key-HasSession b.own_public_key a (ap (λ r. failed r.1) pa) in
      let (secret_b, sb) =
        set_peer_public_key-HasSession a.own_public_key b (ap (λ r. failed r.1) pb) in
      let sa' : HasSession a a' b.own_public_key secret_a =
        subst (λ r. HasSession a r.0 b.own_public_key secret_a) pa sa in
      let sb' : HasSession b b' a.own_public_key secret_b =
        subst (λ r. HasSession b r.0 a.own_public_key secret_b) pb sb in
      (
        sa'.ready,
        sb'.ready,
        encryption_key_agree D a b a' b' key_a key_b secret_a secret_b
            (subst (λ r. HasKey r.0 key_a) ia ka) (subst (λ r. HasKey r.0 key_b) ib kb) sa' sb',
      )
