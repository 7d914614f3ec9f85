-- ===== src/Builder/Commit.antt =====
-- The tree during `commit` of src/utils/file_builder.cpp: what is still staged, and what is in
-- place.
pub mod Steps
pub mod Turns
pub mod Output
pub mod Whole
use mathlib.Core.List.{append_assoc}
use file_hop_z.Base.{
  ◌≡◌, refl, sym, ap, subst, ◌∙◌, Bool, true, false, Option, none, some, List, [], ◌∷◌, ◌++◌, All,
  Bool-cases, Option-cases, inl, inr, arith,
}
use file_hop_z.Base.Bytes.{Bytes}
use file_hop_z.Disk.{
  Node, directory, regular, link, Location, Nodes, find, node_at, strip, is_below, outside, remove,
  is_last, same_location,
}
use file_hop_z.Disk.Laws.{
  or_else, find-append, same_location_refl, same_location_sound, strip-append, strip_sound,
}
use file_hop_z.Disk.Chains.{KeepsDirectories}
use file_hop_z.Builder.Commits.{listed, listing}

-- Entries with their names relative to some directory.
abbrev pub Items : Type 0
Items = List (List Bytes × Node)

abbrev pub under : Location → Items → Nodes
under dir [] = []
under dir ((names, n) ∷ xs) = (dir ++ names, n) ∷ under dir xs

-- The directories among entries.
abbrev pub only_directories : Items → Items
only_directories [] = []
only_directories ((names, directory) ∷ xs) = (names, directory) ∷ only_directories xs
only_directories ((names, regular content) ∷ xs) = only_directories xs
only_directories ((names, link target) ∷ xs) = only_directories xs

abbrev pub item_names : Items → List (List Bytes)
item_names [] = []
item_names ((names, n) ∷ xs) = names ∷ item_names xs

-- Nothing among the nodes lies at or below the directory.
abbrev pub IsApart : Location → Nodes → Type 0
IsApart dir ns = All (λ x. is_below dir x.0 ≡ false) ns

pub under-append :
    (dir : Location) (xs ys : Items) → under dir (xs ++ ys) ≡ under dir xs ++ under dir ys
under-append dir [] ys = refl
under-append dir ((names, n) ∷ xs) ys = ap (◌∷◌ (dir ++ names, n)) (under-append dir xs ys)

pub only_directories-append :
    (xs ys : Items) → only_directories (xs ++ ys) ≡ only_directories xs ++ only_directories ys
only_directories-append [] ys = refl
only_directories-append ((names, directory) ∷ xs) ys =
    ap (◌∷◌ (names, directory)) (only_directories-append xs ys)
only_directories-append ((names, regular content) ∷ xs) ys = only_directories-append xs ys
only_directories-append ((names, link target) ∷ xs) ys = only_directories-append xs ys

pub is_below_under : (dir : Location) (names : List Bytes) → is_below dir (dir ++ names) ≡ true
is_below_under dir names = rw (strip-append dir names, is_below) refl

-- Outside of a directory there is nothing of what is under it.
pub find-under_apart :
    (l dir : Location) (xs : Items) → is_below dir l ≡ false → find l (under dir xs) ≡ none
unfolding find
find-under_apart l dir [] h = refl
find-under_apart l dir ((names, n) ∷ xs) h = elim (Bool-cases (same_location (dir ++ names) l)) [
  | inl e ↦
      let below : is_below dir l ≡ true =
        ap (is_below dir) (sym (same_location_sound (dir ++ names) l e))
        ∙ is_below_under dir names in
      absurd (ground arith)
  | inr e ↦ rw e (find-under_apart l dir xs h)
]

-- What is found among nodes apart from a directory is apart from it.
pub find-IsApart :
    (l dir : Location) (n : Node) (ns : Nodes)
    → IsApart dir ns
    → find l ns ≡ some n
    → is_below dir l ≡ false
unfolding find
find-IsApart l dir n [] a h = absurd (ground arith)
find-IsApart l dir n ((m, o) ∷ ns) a h = elim (Bool-cases (same_location m l)) [
  | inl e ↦ ap (is_below dir) (sym (same_location_sound m l e)) ∙ a.0
  | inr e ↦ find-IsApart l dir n ns a.1 (ground arith)
]

-- What was a directory, or was not there, is the same without the files.
pub find-only_directories :
    (l dir : Location) (xs : Items)
    → find l (under dir xs) ≡ some directory
    → find l (under dir (only_directories xs)) ≡ some directory
unfolding find
find-only_directories l dir [] h = h
find-only_directories l dir ((names, directory) ∷ xs) h =
    elim (Bool-cases (same_location (dir ++ names) l)) [
      | inl e ↦ rw e refl
      | inr e ↦ rw e (find-only_directories l dir xs (ground arith))
    ]
find-only_directories l dir ((names, regular content) ∷ xs) h =
    elim (Bool-cases (same_location (dir ++ names) l)) [
      | inl e ↦ absurd (ground arith)
      | inr e ↦ find-only_directories l dir xs (ground arith)
    ]
find-only_directories l dir ((names, link target) ∷ xs) h =
    elim (Bool-cases (same_location (dir ++ names) l)) [
      | inl e ↦ absurd (ground arith)
      | inr e ↦ find-only_directories l dir xs (ground arith)
    ]

pub find-only_directories-none :
    (l dir : Location) (xs : Items)
    → find l (under dir xs) ≡ none
    → find l (under dir (only_directories xs)) ≡ none
unfolding find
find-only_directories-none l dir [] h = h
find-only_directories-none l dir ((names, directory) ∷ xs) h =
    elim (Bool-cases (same_location (dir ++ names) l)) [
      | inl e ↦ absurd (ground arith)
      | inr e ↦ rw e (find-only_directories-none l dir xs (ground arith))
    ]
find-only_directories-none l dir ((names, regular content) ∷ xs) h =
    elim (Bool-cases (same_location (dir ++ names) l)) [
      | inl e ↦ absurd (ground arith)
      | inr e ↦ find-only_directories-none l dir xs (ground arith)
    ]
find-only_directories-none l dir ((names, link target) ∷ xs) h =
    elim (Bool-cases (same_location (dir ++ names) l)) [
      | inl e ↦ absurd (ground arith)
      | inr e ↦ find-only_directories-none l dir xs (ground arith)
    ]

pub listing_apart : (dir : Location) (ns : Nodes) → IsApart dir ns → listing dir ns ≡ []
unfolding listing
listing_apart dir [] a = refl
listing_apart dir ((m, o) ∷ ns) a = elim (Option-cases (strip dir m)) [
  | inl e ↦ rw (e, listing) (listing_apart dir ns a.1)
  | inr (rest, e) ↦
      let below : is_below dir m ≡ true = rw (e, is_below) refl in absurd (ground (arith, a.0))
]

pub outside_apart : (dir : Location) (ns : Nodes) → IsApart dir ns → outside dir ns ≡ ns
unfolding outside
outside_apart dir [] a = refl
outside_apart dir ((m, o) ∷ ns) a = rw a.0 (ap (◌∷◌ (m, o)) (outside_apart dir ns a.1))

pub outside-append :
    (dir : Location) (ns ms : Nodes) → outside dir (ns ++ ms) ≡ outside dir ns ++ outside dir ms
unfolding outside
outside-append dir [] ms = refl
outside-append dir ((m, o) ∷ ns) ms = elim (Bool-cases (is_below dir m)) [
  | inl e ↦ rw e (outside-append dir ns ms)
  | inr e ↦ rw e (ap (◌∷◌ (m, o)) (outside-append dir ns ms))
]

pub outside-under : (dir : Location) (xs : Items) → outside dir (under dir xs) ≡ []
unfolding outside
outside-under dir [] = refl
outside-under dir ((names, n) ∷ xs) = rw (is_below_under dir names) (outside-under dir xs)

listed-append :
    (o : Option (List Bytes)) (xs ys : List (List Bytes)) → listed o (xs ++ ys) ≡ listed o xs ++ ys
listed-append none xs ys = refl
listed-append (some []) xs ys = refl
listed-append (some (p ∷ ps)) xs ys = refl

pub listing-append :
    (dir : Location) (ns ms : Nodes) → listing dir (ns ++ ms) ≡ listing dir ns ++ listing dir ms
unfolding listing
listing-append dir [] ms = refl
listing-append dir ((m, o) ∷ ns) ms =
    rw (listing-append dir ns ms) (listed-append (strip dir m) (listing dir ns) (listing dir ms))

pub listing-under :
    (dir : Location) (xs : Items)
    → All (λ x. is_last x.0 ≡ false) xs
    → listing dir (under dir xs) ≡ item_names xs
unfolding listing
listing-under dir [] h = refl
listing-under dir (([], n) ∷ xs) h = absurd (ground arith)
listing-under dir ((p ∷ ps, n) ∷ xs) h =
    ap (λ o. listed o (listing dir (under dir xs))) (strip-append dir (p ∷ ps))
    ∙ ap (◌∷◌ (p ∷ ps)) (listing-under dir xs h.1)

-- Removing the first node at a location.
pub remove-append :
    (l : Location) (n : Node) (ns ms : Nodes)
    → find l ns ≡ none
    → remove l (ns ++ ((l, n) ∷ ms)) ≡ ns ++ ms
unfolding find remove
remove-append l n [] ms h = rw (same_location_refl l) refl
remove-append l n ((m, o) ∷ ns) ms h = elim (Bool-cases (same_location m l)) [
  | inl e ↦ absurd (ground arith)
  | inr e ↦ rw e (ap (◌∷◌ (m, o)) (remove-append l n ns ms (ground arith)))
]
