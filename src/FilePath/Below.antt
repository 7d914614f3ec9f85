-- ===== src/FilePath/Below.antt =====
-- A path that was accepted names nothing outside the directory that it starts from, as long as no
-- symbolic link is on its way.
use file_hop_z.Base.{
  ℕ, zero, suc, ◌≡◌, refl, ap, Bool, true, false, List, [], ◌∷◌, ◌++◌, take, drop, ◌==◌, ◌||◌,
  if◌then◌else◌, Bool-cases, inl, inr, arith,
}
use file_hop_z.Base.Bytes.{Bytes}
use file_hop_z.Errors.{failed}
use file_hop_z.FilePath.{
  is_parent, is_empty_path, is_absolute, is_forbidden_path_part, check_parts, parts,
  validate_relative_path,
}

-- `part == "."`
abbrev is_here : Bytes → Bool
is_here (a ∷ []) = a == 46
is_here _ = false

-- Name resolution without links, on a directory given as its names, the innermost first: the empty
-- part and "." stay, ".." goes up, and any other part goes down.
abbrev pub enter : Bytes → List Bytes → List Bytes
enter part dir =
    if is_parent part
    then drop 1 dir
    else if is_here part || is_empty_path part
    then dir
    else part ∷ dir

unfoldable pub resolve : List Bytes → List Bytes → List Bytes
resolve [] dir = dir
resolve (p ∷ ps) dir = resolve ps (enter p dir)

-- Where resolution begins: at the root of the file system for an absolute path, and otherwise in the
-- directory that the path is relative to.
abbrev pub start : Bytes → List Bytes → List Bytes
start path dir = if is_absolute path then [] else dir

-- The directory lies at or below the other.
abbrev pub IsBelow : List Bytes → List Bytes → Type 0
IsBelow dir root = (names : List Bytes) × (dir ≡ names ++ root)

enter-IsBelow :
    (part : Bytes) (dir root : List Bytes)
    → is_parent part ≡ false
    → IsBelow dir root
    → IsBelow (enter part dir) root
enter-IsBelow part dir root h (names, e) = elim (Bool-cases (is_here part || is_empty_path part)) [
  | inl f ↦ rw (h, f) (names, e)
  | inr f ↦ rw (h, f) (part ∷ names, ap (◌∷◌ part) e)
]

check_parts-IsBelow :
    (ps : List Bytes) (n : ℕ) (dir root : List Bytes)
    → failed (check_parts ps) ≡ false
    → IsBelow dir root
    → IsBelow (resolve (take n ps) dir) root
unfolding check_parts resolve is_forbidden_path_part
check_parts-IsBelow ps zero dir root h b = b
check_parts-IsBelow [] (suc n) dir root h b = b
check_parts-IsBelow (p ∷ ps) (suc n) dir root h b =
    elim (Bool-cases (is_parent p || is_empty_path p)) [
      | inl f ↦ absurd (ground arith)
      | inr f ↦
          check_parts-IsBelow ps n (enter p dir) root (ground arith)
            (enter-IsBelow p dir root (ground arith) b)
    ]

-- An accepted path never leaves the directory that it is relative to, neither at its end nor after
-- any number of its parts, where links are not followed. An absolute path would begin at the root
-- of the file system.
pub validate_relative_path-IsBelow :
    (path : Bytes) (n : ℕ) (root : List Bytes)
    → failed (validate_relative_path path) ≡ false
    → IsBelow (resolve (take n (parts path)) (start path root)) root
unfolding validate_relative_path
validate_relative_path-IsBelow path n root h =
    let relative : is_absolute path ≡ false = ground arith in
    rw relative (check_parts-IsBelow (parts path) n root root (ground arith) ([], refl))

-- Whether a part goes up, or the path is absolute.
abbrev pub climbs : List Bytes → Bool
climbs [] = false
climbs (p ∷ ps) = is_parent p || climbs ps

check_parts_refuses : (ps : List Bytes) → climbs ps ≡ true → failed (check_parts ps) ≡ true
unfolding check_parts is_forbidden_path_part
check_parts_refuses [] h = absurd (ground arith)
check_parts_refuses (p ∷ ps) h = ground (arith, check_parts_refuses ps)

-- An absolute path, and a path with ".." among its parts, are refused.
pub validate_relative_path_refuses :
    (path : Bytes)
    → (is_absolute path || climbs (parts path)) ≡ true
    → failed (validate_relative_path path) ≡ true
unfolding validate_relative_path
validate_relative_path_refuses path h = ground (arith, check_parts_refuses (parts path))
