-- ===== src/FilePath.antt =====
-- The check of paths from the network in src/utils/file_builder.cpp (validate_relative_path), on
-- POSIX paths: a path is its bytes, and its parts are what iterating over it gives.
pub mod Below
mod Examples
use file_hop_z.Base.{Bool, true, false, List, [], ◌∷◌, drop, ◌==◌, ◌&&◌, ◌||◌, if◌then◌else◌}
use file_hop_z.Base.Bytes.{Bytes}
use file_hop_z.Errors.{BoostError, Category, success}

-- `is_absolute()`: on POSIX, a path that starts with a slash.
abbrev pub is_absolute : Bytes → Bool
is_absolute [] = false
is_absolute (c ∷ cs) = c == 47

abbrev pub is_empty_path : Bytes → Bool
is_empty_path [] = true
is_empty_path (c ∷ cs) = false

abbrev pub extend : Bytes → List Bytes → List Bytes
extend c [] = c ∷ []
extend [] (p ∷ ps) = p ∷ ps
extend (c ∷ cs) (p ∷ ps) = (c ∷ p) ∷ ps

-- The pieces between slashes, empty ones included.
unfoldable pub pieces : Bytes → List Bytes
pieces [] = [] ∷ []
pieces (c ∷ cs) = let rest = pieces cs in if c == 47 then [] ∷ rest else extend (c ∷ []) rest

-- Slashes in a row count as one; after one at the end comes an empty part.
unfoldable pub collapse : List Bytes → List Bytes
collapse [] = []
collapse (p ∷ []) = p ∷ []
collapse (p ∷ (q ∷ ps)) = let rest = collapse (q ∷ ps) in if is_empty_path p then rest else p ∷ rest

-- The parts of a path that is neither empty nor absolute.
unfoldable pub parts : Bytes → List Bytes
unfolding pieces collapse
parts path = collapse (pieces path)

-- `part == ".."`
abbrev pub is_parent : Bytes → Bool
is_parent (a ∷ (b ∷ [])) = (a == 46) && (b == 46)
is_parent _ = false

unfoldable pub is_forbidden_path_part : Bytes → Bool
is_forbidden_path_part part = is_parent part || is_empty_path part

abbrev pub invalid_argument : BoostError
invalid_argument = record { value = 22; category = Category.generic_category }

unfoldable pub check_parts : List Bytes → BoostError
unfolding is_forbidden_path_part
check_parts [] = success
check_parts (p ∷ ps) =
    let rest = check_parts ps in if is_forbidden_path_part p then invalid_argument else rest

unfoldable pub validate_relative_path : Bytes → BoostError
validate_relative_path path =
    if is_empty_path path || is_absolute path then invalid_argument else check_parts (parts path)
