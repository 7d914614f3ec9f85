-- ===== src/Disk/Laws.antt =====
-- The tests on names and locations, and what a change of the tree does to each location.
use file_hop_z.Base.{
  ◌≡◌, refl, ap, true, false, Option, none, some, [], ◌∷◌, ◌++◌, ◌==◌, if◌then◌else◌, Bool-cases,
  inl, inr, arith, ==_refl, ◌≢◌,
}
use file_hop_z.Base.Bytes.{Bytes}
use file_hop_z.Disk.{Node, Location, Nodes, same_name, same_location, strip, find, insert, up}

pub same_name_refl : (a : Bytes) → same_name a a ≡ true
unfolding same_name
same_name_refl [] = refl
same_name_refl (c ∷ cs) = ground (arith, ==_refl c, same_name_refl cs)

pub same_name_sound : (a b : Bytes) → same_name a b ≡ true → a ≡ b
unfolding same_name
same_name_sound [] [] h = refl
same_name_sound [] (d ∷ ds) h = absurd (ground arith)
same_name_sound (c ∷ cs) [] h = absurd (ground arith)
same_name_sound (c ∷ cs) (d ∷ ds) h = elim (Bool-cases (c == d)) [
  | inl e ↦
      let tails : cs ≡ ds = same_name_sound cs ds (ground arith) in
      let heads : c ≡ d = ground arith in cc
  | inr e ↦ absurd (ground arith)
]

pub same_location_refl : (l : Location) → same_location l l ≡ true
unfolding same_location
same_location_refl [] = refl
same_location_refl (p ∷ ps) = rw (same_name_refl p) (same_location_refl ps)

pub same_location_sound : (l m : Location) → same_location l m ≡ true → l ≡ m
unfolding same_location
same_location_sound [] [] h = refl
same_location_sound [] (q ∷ qs) h = absurd (ground arith)
same_location_sound (p ∷ ps) [] h = absurd (ground arith)
same_location_sound (p ∷ ps) (q ∷ qs) h = elim (Bool-cases (same_name p q)) [
  | inl e ↦
      let tails : ps ≡ qs = same_location_sound ps qs (ground arith) in
      let heads : p ≡ q = same_name_sound p q e in cc
  | inr e ↦ absurd (ground arith)
]

pub same_location_ne : (l m : Location) → l ≢ m → same_location l m ≡ false
same_location_ne l m h = elim (Bool-cases (same_location l m)) [
  | inl e ↦ absurd (h (same_location_sound l m e))
  | inr e ↦ e
]

pub strip-append : (dir rest : Location) → strip dir (dir ++ rest) ≡ some rest
unfolding strip
strip-append [] rest = refl
strip-append (d ∷ ds) rest = rw (same_name_refl d) (strip-append ds rest)

pub strip_sound : (dir l rest : Location) → strip dir l ≡ some rest → l ≡ dir ++ rest
unfolding strip
strip_sound [] l rest h = ground arith
strip_sound (d ∷ ds) [] rest h = absurd (ground arith)
strip_sound (d ∷ ds) (p ∷ ps) rest h = elim (Bool-cases (same_name d p)) [
  | inl e ↦
      let tails : ps ≡ ds ++ rest = strip_sound ds ps rest (ground arith) in
      let heads : d ≡ p = same_name_sound d p e in cc
  | inr e ↦ absurd (ground arith)
]

pub up-append : (dir : Location) (p : Bytes) → up (dir ++ (p ∷ [])) ≡ dir
up-append [] p = refl
up-append (d ∷ []) p = refl
up-append (d ∷ (e ∷ ds)) p = ap (◌∷◌ d) (up-append (e ∷ ds) p)

-- What a search gives in two parts of the tree.
abbrev pub or_else : Option Node → Option Node → Option Node
or_else none other = other
or_else (some n) other = some n

pub find-append :
    (l : Location) (ns ms : Nodes) → find l (ns ++ ms) ≡ or_else (find l ns) (find l ms)
unfolding find
find-append l [] ms = refl
find-append l ((m, n) ∷ ns) ms = elim (Bool-cases (same_location m l)) [
  | inl e ↦ rw e refl
  | inr e ↦ rw e (find-append l ns ms)
]

pub find-insert :
    (l m : Location) (n : Node) (ns : Nodes)
    → find l (insert m n ns) ≡ (if same_location m l then some n else find l ns)
unfolding find insert
find-insert l m n [] = refl
find-insert l m n ((k, o) ∷ ns) = elim (Bool-cases (same_location k m)) [
  | inl e ↦
      let same : k ≡ m = same_location_sound k m e in
      rw (e, same) (elim (Bool-cases (same_location m l)) [ inl f ↦ rw f refl | inr f ↦ rw f refl ])
  | inr e ↦ rw e (elim (Bool-cases (same_location k l)) [
    | inl f ↦
        let same : k ≡ l = same_location_sound k l f in
        let apart : same_location m l ≡ false =
          same_location_ne m l (λ g. absurd (ground (arith, same_location_refl l))) in
        rw (f, apart) refl
    | inr f ↦ rw f (find-insert l m n ns)
  ])
]

-- At a free location, a node is added at the end.
pub insert_absent :
    (l : Location) (n : Node) (ns : Nodes) → find l ns ≡ none → insert l n ns ≡ ns ++ ((l, n) ∷ [])
unfolding find insert
insert_absent l n [] h = refl
insert_absent l n ((m, o) ∷ ns) h = elim (Bool-cases (same_location m l)) [
  | inl e ↦ absurd (ground arith)
  | inr e ↦ rw e (ap (◌∷◌ (m, o)) (insert_absent l n ns (ground arith)))
]

-- The node that was added last is replaced where it stands.
pub insert_last :
    (l : Location) (n o : Node) (ns : Nodes)
    → find l ns ≡ none
    → insert l n (ns ++ ((l, o) ∷ [])) ≡ ns ++ ((l, n) ∷ [])
unfolding find insert
insert_last l n o [] h = rw (same_location_refl l) refl
insert_last l n o ((m, k) ∷ ns) h = elim (Bool-cases (same_location m l)) [
  | inl e ↦ absurd (ground arith)
  | inr e ↦ rw e (ap (◌∷◌ (m, k)) (insert_last l n o ns (ground arith)))
]

pub find_last :
    (l : Location) (n : Node) (ns : Nodes)
    → find l ns ≡ none
    → find l (ns ++ ((l, n) ∷ [])) ≡ some n
unfolding find
find_last l n [] h = rw (same_location_refl l) refl
find_last l n ((m, k) ∷ ns) h = elim (Bool-cases (same_location m l)) [
  | inl e ↦ absurd (ground arith)
  | inr e ↦ rw e (find_last l n ns (ground arith))
]
