-- ===== src/Walker/Order.antt =====
-- The walk of src/utils/file_walker.cpp meets every supported entry once and in order, and once more
-- after a reset.
use file_hop_z.Base.{
  ℕ, zero, suc, ◌+◌, ◌<◌, ◌≡◌, refl, sym, subst, ap, ◌∙◌, Bool, true, false, List, [], ◌∷◌, length,
  All, if◌then◌else◌, Bool-cases, inl, inr, arith,
}
use file_hop_z.Base.Bytes.{Bytes}
use file_hop_z.Disk.{same_name}
use file_hop_z.Disk.Laws.{same_name_refl}
use file_hop_z.Walker.{
  FileType, is_supported, is_single, WalkEntry, Walker, join, filename, file_walker, advance, next,
  mismatch, is_nothing, relative_rest, relative_path, reset, met, walk_all,
}

-- The names that an iterator gives: at least one, and the first is not empty.
abbrev pub AreNames : List WalkEntry → Type 0
AreNames l = All (λ e. is_nothing e.0 ≡ false) l

-- The entries that the sender can send.
abbrev pub supported : List WalkEntry → List (List Bytes)
supported [] = []
supported ((names, type) ∷ rest) =
    if is_supported type then names ∷ supported rest else supported rest

-- The path of an entry relative to the root is its names.
pub relative_rest-join :
    (root names : List Bytes)
    → is_nothing names ≡ false
    → relative_rest (mismatch (join root names) root) ≡ names
unfolding same_name
relative_rest-join [] [] h = absurd (ground arith)
relative_rest-join [] (p ∷ ps) h = rw h refl
relative_rest-join ([] ∷ []) [] h = absurd (ground arith)
relative_rest-join ([] ∷ []) ([] ∷ ps) h = absurd (ground arith)
relative_rest-join ([] ∷ []) ((c ∷ cs) ∷ ps) h = refl
relative_rest-join ([] ∷ (q ∷ qs)) names h = relative_rest-join (q ∷ qs) names h
relative_rest-join ((c ∷ cs) ∷ ps) names h =
    rw (same_name_refl (c ∷ cs)) (relative_rest-join ps names h)

-- What a walk gives, and that its walker can be reset.
abbrev pub IsWalk : Walker → List (List Bytes) → List (List Bytes) × Walker → Type 0
IsWalk w expected r = (r.0 ≡ expected) × ((r.1.single_file ≡ w.single_file) × (r.1.root ≡ w.root))

next_directory : (w : Walker) → w.single_file ≡ false → next w ≡ advance w w.it
unfolding next
next_directory w s = rw s refl

advance_supported :
    (w : Walker) (names : List Bytes) (type : FileType) (rest : List WalkEntry)
    → is_supported type ≡ true
    → advance w ((names, type) ∷ rest) ≡ (record w { current = join w.root names; it = rest }, true)
unfolding advance
advance_supported w names type rest e = rw e refl

advance_passes :
    (w : Walker) (names : List Bytes) (type : FileType) (rest : List WalkEntry)
    → is_supported type ≡ false
    → advance w ((names, type) ∷ rest) ≡ advance w rest
unfolding advance
advance_passes w names type rest e = rw e refl

relative_path-join :
    (w : Walker) (names : List Bytes) (rest : List WalkEntry)
    → w.single_file ≡ false
    → is_nothing names ≡ false
    → relative_path (record w { current = join w.root names; it = rest }) ≡ names
unfolding relative_path
relative_path-join w names rest s n = rw s (relative_rest-join w.root names n)

-- A turn of the loop, and the rest.
abbrev turn : ℕ → Walker × Bool → List (List Bytes) × Walker
turn fuel t = met t (walk_all fuel t.0)

walk_all-next :
    (fuel : ℕ) (w : Walker)
    → w.single_file ≡ false
    → walk_all (suc fuel) w ≡ turn fuel (advance w w.it)
unfolding walk_all
walk_all-next fuel w s = ap (turn fuel) (next_directory w s)

-- The loop, when the iterator has so many entries left.
advance-IsWalk :
    (l : List WalkEntry) (fuel : ℕ) (w : Walker)
    → w.single_file ≡ false
    → AreNames l
    → length l < suc fuel
    → IsWalk w (supported l) (turn fuel (advance w l))
unfolding advance
advance-IsWalk [] fuel w s n h = (refl, (refl, refl))
advance-IsWalk ((names, type) ∷ rest) zero w s n h = absurd (omega arith)
advance-IsWalk ((names, type) ∷ rest) (suc fuel) w s n h = elim (Bool-cases (is_supported type)) [
  | inl e ↦
      let w' : Walker = record w { current = join w.root names; it = rest } in
      let later : IsWalk w' (supported rest) (walk_all (suc fuel) w') =
        subst (IsWalk w' (supported rest)) (sym (walk_all-next fuel w' s))
          (advance-IsWalk rest fuel w' s n.1 (omega arith)) in
      let expected : supported ((names, type) ∷ rest) ≡ names ∷ supported rest = rw e refl in
      subst (λ t. IsWalk w (supported ((names, type) ∷ rest)) (turn (suc fuel) t))
        (sym (advance_supported w names type rest e))
        (
          ap (λ p. p ∷ (walk_all (suc fuel) w').0) (relative_path-join w names rest s n.0)
              ∙ (ap (λ x. names ∷ x) later.0 ∙ sym expected),
          later.1,
        )
  | inr e ↦
      let expected : supported ((names, type) ∷ rest) ≡ supported rest = rw e refl in
      subst (λ t. IsWalk w (supported ((names, type) ∷ rest)) (turn (suc fuel) t))
        (sym (advance_passes w names type rest e))
        (subst (λ x. IsWalk w x (turn (suc fuel) (advance w rest))) (sym expected)
          (advance-IsWalk rest (suc fuel) w s n.1 (omega arith)))
]

walk_all-IsWalk :
    (fuel : ℕ) (w : Walker)
    → w.single_file ≡ false
    → AreNames w.it
    → length w.it + 1 < fuel
    → IsWalk w (supported w.it) (walk_all fuel w)
walk_all-IsWalk zero w s n h = absurd (omega arith)
walk_all-IsWalk (suc fuel) w s n h =
    subst (IsWalk w (supported w.it)) (sym (walk_all-next fuel w s))
      (advance-IsWalk w.it fuel w s n (omega arith))

walk_single :
    (fuel : ℕ) (root current : List Bytes) (it : List WalkEntry)
    → 1 < fuel
    → walk_all fuel (record {
      root = root;
      single_file = true;
      single_file_returned = false;
      current = current;
      it = it;
    })
      ≡ (
        (filename current ∷ []) ∷ [],
        record {
          root = root;
          single_file = true;
          single_file_returned = true;
          current = current;
          it = it;
        },
      )
unfolding walk_all next relative_path
walk_single zero root current it h = absurd (omega arith)
walk_single (suc zero) root current it h = absurd (omega arith)
walk_single (suc (suc fuel)) root current it h = refl

reset_directory :
    (again : List WalkEntry) (w : Walker)
    → w.single_file ≡ false
    → reset again w ≡ record w { it = again }
unfolding reset
reset_directory again w s = rw s refl

-- What a walk of this root should give.
abbrev pub expected_walk : FileType → List WalkEntry → List Bytes → List (List Bytes)
expected_walk type listing root =
    if is_single type then (filename root ∷ []) ∷ [] else supported listing

-- The walk ends, and it meets what it should: a regular file or a link alone gives its own name, and
-- anything else gives every supported entry of the iterator once, in order, under its path relative
-- to the root. After a reset it does so again, with what the new iterator gives. The loop makes one
-- turn more than the iterator has entries, or two.
pub walk_all-reset :
    (fuel : ℕ) (type : FileType) (listing again : List WalkEntry) (root : List Bytes)
    → AreNames listing
    → AreNames again
    → length listing + 1 < fuel
    → length again + 1 < fuel
    → ((walk_all fuel (file_walker type listing root)).0 ≡ expected_walk type listing root)
      × ((walk_all fuel (reset again (walk_all fuel (file_walker type listing root)).1)).0
          ≡ expected_walk type again root)
unfolding file_walker reset
walk_all-reset fuel type listing again root n m h k = elim (Bool-cases (is_single type)) [
  | inl e ↦
      let long : 1 < fuel = omega (arith, h) in
      rw e (
        ap (λ r. r.0) (walk_single fuel root root [] long),
        ap (λ r. (walk_all fuel (reset again r.1)).0) (walk_single fuel root root [] long)
            ∙ ap (λ r. r.0) (walk_single fuel root root [] long),
      )
  | inr e ↦
      let w : Walker = record {
        root = root;
        single_file = false;
        single_file_returned = false;
        current = [];
        it = listing;
      } in
      let end : Walker = (walk_all fuel w).1 in
      let once : IsWalk w (supported listing) (walk_all fuel w) = walk_all-IsWalk fuel w refl n h in
      rw e (
        once.0,
        ap (λ x. (walk_all fuel x).0) (reset_directory again end once.1.0)
            ∙ (walk_all-IsWalk fuel (record end { it = again }) once.1.0 m k).0,
      )
]
