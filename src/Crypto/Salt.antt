-- ===== src/Crypto/Salt.antt =====
-- The salt does not depend on the side that computes it.
use file_hop_z.Base.{◌≡◌, refl, inl, inr, true, false, [], ◌∷◌, arith, Bool-cases}
use file_hop_z.Base.Bytes.{Bytes}
use file_hop_z.Crypto.{lexicographical_compare, salt}

lexicographical_compare_asymm :
    (xs ys : Bytes) → lexicographical_compare xs ys ≡ true → lexicographical_compare ys xs ≡ false
unfolding lexicographical_compare
lexicographical_compare_asymm xs [] h = cc
lexicographical_compare_asymm [] (y ∷ ys) h = refl
lexicographical_compare_asymm (x ∷ xs) (y ∷ ys) h =
    ground (arith, lexicographical_compare_asymm xs ys)

lexicographical_compare_antisymm :
    (xs ys : Bytes)
    → lexicographical_compare xs ys ≡ false
    → lexicographical_compare ys xs ≡ false
    → xs ≡ ys
unfolding lexicographical_compare
lexicographical_compare_antisymm [] [] h k = refl
lexicographical_compare_antisymm [] (y ∷ ys) h k = cc
lexicographical_compare_antisymm (x ∷ xs) [] h k = cc
lexicographical_compare_antisymm (x ∷ xs) (y ∷ ys) h k =
    ground (arith, lexicographical_compare_antisymm xs ys)

-- Both sides of a connection make the same salt of the two public keys.
pub salt_comm : (own peer : Bytes) → salt own peer ≡ salt peer own
unfolding salt
salt_comm own peer = elim (Bool-cases (lexicographical_compare own peer)) [
  | inl less ↦ rw (less, lexicographical_compare_asymm own peer less) refl
  | inr not_less ↦ elim (Bool-cases (lexicographical_compare peer own)) [
    | inl greater ↦ rw (not_less, greater) refl
    | inr same ↦
        rw (not_less, same)
          (let e : own ≡ peer = lexicographical_compare_antisymm own peer not_less same in
            rw e refl)
  ]
]
