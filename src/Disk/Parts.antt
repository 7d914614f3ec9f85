-- ===== src/Disk/Parts.antt =====
-- The parts of a path below a directory, and those of its parent.
use file_hop_z.Base.{
  ◌≡◌, refl, ap, false, ◌||◌, List, [], ◌∷◌, ◌++◌, ◌==◌, Bool-cases, inl, inr, arith,
}
use file_hop_z.Base.Bytes.{Bytes}
use file_hop_z.Errors.{failed}
use file_hop_z.FilePath.{
  pieces, collapse, parts, extend, is_parent, is_empty_path, is_absolute, is_forbidden_path_part,
  check_parts, validate_relative_path,
}
use file_hop_z.Disk.{is_last, up}

collapse_some : (p : Bytes) (ps : List Bytes) → is_last (collapse (p ∷ ps)) ≡ false
unfolding collapse
collapse_some p [] = refl
collapse_some p (q ∷ ps) = elim (Bool-cases (is_empty_path p)) [
  | inl e ↦ rw e (collapse_some q ps)
  | inr e ↦ rw e refl
]

extend_some : (p : Bytes) (ps : List Bytes) → is_last (collapse (extend p ps)) ≡ false
extend_some p [] = collapse_some p []
extend_some [] (q ∷ ps) = collapse_some q ps
extend_some (c ∷ cs) (q ∷ ps) = collapse_some (c ∷ q) ps

pub parts_some : (path : Bytes) → is_last (parts path) ≡ false
unfolding parts pieces
parts_some [] = collapse_some [] []
parts_some (c ∷ cs) = elim (Bool-cases (c == 47)) [
  | inl e ↦ rw e (collapse_some [] (pieces cs))
  | inr e ↦ rw e (extend_some (c ∷ []) (pieces cs))
]

pub check_parts_cons :
    (p : Bytes) (ps : List Bytes)
    → failed (check_parts (p ∷ ps)) ≡ false
    → (is_parent p ≡ false) × (failed (check_parts ps) ≡ false)
unfolding check_parts is_forbidden_path_part
check_parts_cons p ps h = elim (Bool-cases (is_parent p || is_empty_path p)) [
  | inl e ↦ absurd (ground arith)
  | inr e ↦ (ground arith, ground arith)
]

pub check_parts_one :
    (p : Bytes) (ps : List Bytes)
    → failed (check_parts (p ∷ ps)) ≡ false
    → failed (check_parts (p ∷ [])) ≡ false
unfolding check_parts
check_parts_one p ps h = elim (Bool-cases (is_forbidden_path_part p)) [
  | inl e ↦ absurd (ground arith)
  | inr e ↦ rw e refl
]

pub check_parts-up :
    (ps : List Bytes) → failed (check_parts ps) ≡ false → failed (check_parts (up ps)) ≡ false
unfolding check_parts is_forbidden_path_part
check_parts-up [] h = h
check_parts-up (p ∷ []) h = refl
check_parts-up (p ∷ (q ∷ ps)) h =
    let (not_parent, later) = check_parts_cons p (q ∷ ps) h in
    let rest : failed (check_parts (up (q ∷ ps))) ≡ false = check_parts-up (q ∷ ps) later in
    elim (Bool-cases (is_parent p || is_empty_path p)) [
      | inl e ↦ absurd (ground arith)
      | inr e ↦ rw e rest
    ]

pub up-append_names :
    (dir names : List Bytes) → is_last names ≡ false → up (dir ++ names) ≡ dir ++ up names
up-append_names dir [] h = absurd (ground arith)
up-append_names [] (p ∷ ps) h = refl
up-append_names (d ∷ []) (p ∷ ps) h = refl
up-append_names (d ∷ (e ∷ ds)) (p ∷ ps) h = ap (◌∷◌ d) (up-append_names (e ∷ ds) (p ∷ ps) h)

pub validate_relative_path-parts :
    (path : Bytes)
    → failed (validate_relative_path path) ≡ false
    → failed (check_parts (parts path)) ≡ false
unfolding validate_relative_path
validate_relative_path-parts path h = elim (Bool-cases (is_empty_path path || is_absolute path)) [
  | inl e ↦ absurd (ground arith)
  | inr e ↦ ground arith
]

pub validate_relative_path-relative :
    (path : Bytes) → failed (validate_relative_path path) ≡ false → is_absolute path ≡ false
unfolding validate_relative_path
validate_relative_path-relative path h = ground arith
