-- ===== src/Base/Dict.antt =====
-- `std::unordered_map` with an integer key as an association list with at most one entry a key.
-- Iteration order is unspecified in the source; here it is the order of the list.
use Prim.Native.Nat.{ℕ, ◌+◌, ◌≤◌}
use mathlib.Core.Path.{◌≡◌, refl}
use mathlib.Core.Bool.{Bool, true, false}
use mathlib.Core.Logic.{◌≢◌, inl, inr}
use mathlib.Core.Option.{Option, none, some}
use mathlib.Core.List.{List, [], ◌∷◌}
use native.Mathlib.Omega.{arith}
use file_hop_z.Base.Tests.{◌==◌, if◌then◌else◌, ==_iff, Bool-cases}
use file_hop_z.Base.Lists.{length}

abbrev pub Dict {ℓ} : Type ℓ → Type ℓ
Dict V = List (ℕ × V)

module _ {ℓ} {V : Type ℓ} where
  -- `find`
  unfoldable pub lookup : ℕ → Dict V → Option V
  lookup k [] = none
  lookup k ((j, v) ∷ d) = if j == k then some v else lookup k d

  abbrev pub is_some : Option V → Bool
  is_some none = false
  is_some (some v) = true

  abbrev pub contains : ℕ → Dict V → Bool
  contains k d = is_some (lookup k d)

  -- `erase`; an absent key changes nothing.
  unfoldable pub erase : ℕ → Dict V → Dict V
  erase k [] = []
  erase k ((j, v) ∷ d) = if j == k then d else (j, v) ∷ erase k d

  -- `insert_or_assign`
  unfoldable pub insert : ℕ → V → Dict V → Dict V
  insert k v [] = (k, v) ∷ []
  insert k v ((j, w) ∷ d) = if j == k then (k, v) ∷ d else (j, w) ∷ insert k v d

  -- No key occurs twice.
  abbrev pub NodupKeys : Dict V → Type 0
  NodupKeys [] = Unit
  NodupKeys ((k, v) ∷ d) = (contains k d ≡ false) × NodupKeys d

  pub lookup-insert :
      (j k : ℕ) (v : V) (d : Dict V)
      → lookup j (insert k v d) ≡ (if k == j then some v else lookup j d)
  unfolding lookup insert
  lookup-insert j k v [] = refl
  lookup-insert j k v ((i, w) ∷ d) = ground (arith, lookup-insert j k v d)

  pub lookup-erase_ne : (j k : ℕ) (d : Dict V) → k ≢ j → lookup j (erase k d) ≡ lookup j d
  unfolding lookup erase
  lookup-erase_ne j k [] h = refl
  lookup-erase_ne j k ((i, w) ∷ d) h = ground (arith, lookup-erase_ne j k d h)

  pub lookup-erase_self : (k : ℕ) (d : Dict V) → NodupKeys d → lookup k (erase k d) ≡ none
  unfolding lookup erase
  lookup-erase_self k [] u = refl
  lookup-erase_self k ((i, w) ∷ d) u = ground (arith, lookup-erase_self k d u.1)

  pub lookup-erase :
      (j k : ℕ) (d : Dict V)
      → NodupKeys d
      → lookup j (erase k d) ≡ (if k == j then none else lookup j d)
  lookup-erase j k d u = elim (Bool-cases (k == j)) [
    | inl same ↦ let e : k ≡ j = (==_iff k j).0 same in rw (same, ← e) (lookup-erase_self k d u)
    | inr differ ↦ rw differ (lookup-erase_ne j k d (ground arith))
  ]

  pub erase-NodupKeys : (k : ℕ) (d : Dict V) → NodupKeys d → NodupKeys (erase k d)
  unfolding erase
  erase-NodupKeys k [] u = tt
  erase-NodupKeys k ((i, w) ∷ d) u = ground (arith, erase-NodupKeys k d u.1, lookup-erase_ne i k d)

  pub insert-NodupKeys : (k : ℕ) (v : V) (d : Dict V) → NodupKeys d → NodupKeys (insert k v d)
  unfolding insert lookup
  insert-NodupKeys k v [] u = (refl, tt)
  insert-NodupKeys k v ((i, w) ∷ d) u =
      ground (arith, insert-NodupKeys k v d u.1, lookup-insert i k v d)

  pub length-insert_new :
      (k : ℕ) (v : V) (d : Dict V) → contains k d ≡ false → length (insert k v d) ≡ length d + 1
  unfolding insert lookup
  length-insert_new k v [] h = omega arith
  length-insert_new k v ((i, w) ∷ d) h = ground (arith, length-insert_new k v d)

  pub length-insert-le : (k : ℕ) (v : V) (d : Dict V) → length (insert k v d) ≤ length d + 1
  unfolding insert
  length-insert-le k v [] = omega arith
  length-insert-le k v ((i, w) ∷ d) = ground (arith, length-insert-le k v d)

  pub length-erase-le : (k : ℕ) (d : Dict V) → length (erase k d) ≤ length d
  unfolding erase
  length-erase-le k [] = omega arith
  length-erase-le k ((i, w) ∷ d) = ground (arith, length-erase-le k d)

  pub length-erase_found :
      (k : ℕ) (d : Dict V) → contains k d ≡ true → length (erase k d) + 1 ≡ length d
  unfolding erase lookup
  length-erase_found k [] h = ground arith
  length-erase_found k ((i, w) ∷ d) h = ground (arith, length-erase_found k d)

  pub erase_absent : (k : ℕ) (d : Dict V) → contains k d ≡ false → erase k d ≡ d
  unfolding erase lookup
  erase_absent k [] h = refl
  erase_absent k ((i, w) ∷ d) h = ground (arith, erase_absent k d)

  pub length-le-erase : (k : ℕ) (d : Dict V) → length d ≤ length (erase k d) + 1
  unfolding erase
  length-le-erase k [] = omega arith
  length-le-erase k ((i, w) ∷ d) = ground (arith, length-le-erase k d)

  pub lookup_head : (k : ℕ) (v : V) (d : Dict V) → lookup k ((k, v) ∷ d) ≡ some v
  unfolding lookup
  lookup_head k v d = ground arith

  pub insert_head : (k : ℕ) (v w : V) (d : Dict V) → insert k v ((k, w) ∷ d) ≡ (k, v) ∷ d
  unfolding insert
  insert_head k v w d = ground arith

  pub erase_head : (k : ℕ) (v : V) (d : Dict V) → erase k ((k, v) ∷ d) ≡ d
  unfolding erase
  erase_head k v d = ground arith

  pub length-insert_found :
      (k : ℕ) (v : V) (d : Dict V) → contains k d ≡ true → length (insert k v d) ≡ length d
  unfolding insert lookup
  length-insert_found k v [] h = cc
  length-insert_found k v ((i, w) ∷ d) h = ground (arith, length-insert_found k v d)
