-- ===== src/Walker.antt =====
-- src/utils/file_walker.cpp: the walk over what the sender sends. A path is its parts, and what the
-- file system says of it is an argument: its type, and what an iterator over it gives.
pub mod Order
mod Examples
use file_hop_z.Base.{
  ℕ, zero, suc, ◌+◌, ◌-◌, Bool, true, false, not, ◌&&◌, ◌||◌, List, [], ◌∷◌, ◌++◌, map, length,
  replicate, ltb, ◌==◌, if◌then◌else◌,
}
use file_hop_z.Base.Bytes.{Bytes}
use file_hop_z.Errors.{BoostError}
use file_hop_z.FilePath.{is_empty_path, is_parent}
use file_hop_z.Disk.{is_here, same_name}

-- `std::filesystem::file_type`; a status that was not read has an error instead.
pub data FileType : Type 0 where
  regular_file : FileType
  directory_file : FileType
  symlink_file : FileType
  other_file : FileType
  unread : BoostError → FileType

abbrev pub is_supported : FileType → Bool
is_supported regular_file = true
is_supported directory_file = true
is_supported symlink_file = true
is_supported other_file = false
is_supported (unread ec) = false

-- The types that are sent on their own.
abbrev pub is_single : FileType → Bool
is_single regular_file = true
is_single symlink_file = true
is_single _ = false

-- What an iterator gives: the names of an entry below the root, and its type.
abbrev pub WalkEntry : Type 0
WalkEntry = List Bytes × FileType

pub record Walker : Type 0 where
  pub root : List Bytes
  pub single_file : Bool
  pub single_file_returned : Bool
  pub current : List Bytes
  pub it : List WalkEntry

-- `root / names`: the empty part of a root that ends with a slash is not kept.
abbrev pub join : List Bytes → List Bytes → List Bytes
join [] names = names
join ([] ∷ []) names = names
join (p ∷ ps) names = p ∷ join ps names

-- The last part of a path.
abbrev pub filename : List Bytes → Bytes
filename [] = []
filename (p ∷ []) = p
filename (p ∷ (q ∷ ps)) = filename (q ∷ ps)

-- The constructor.
unfoldable pub file_walker : FileType → List WalkEntry → List Bytes → Walker
file_walker type listing root =
    if is_single type
    then record {
      root = root;
      single_file = true;
      single_file_returned = false;
      current = root;
      it = [];
    }
    else record {
      root = root;
      single_file = false;
      single_file_returned = false;
      current = [];
      it = listing;
    }

-- The loop of `next` over the iterator: what does not have a supported type is passed over.
unfoldable pub advance : Walker → List WalkEntry → Walker × Bool
advance w [] = (record w { it = [] }, false)
advance w ((names, type) ∷ rest) =
    let later = advance w rest in
    if is_supported type then (record w { current = join w.root names; it = rest }, true) else later

unfoldable pub next : Walker → Walker × Bool
unfolding advance
next w =
    if w.single_file
    then (if w.single_file_returned
        then (w, false)
        else (record w { single_file_returned = true }, true))
    else advance w w.it

-- The parts of two paths behind what they have in common.
abbrev pub mismatch : List Bytes → List Bytes → List Bytes × List Bytes
mismatch [] base = ([], base)
mismatch (p ∷ ps) [] = (p ∷ ps, [])
mismatch (p ∷ ps) (b ∷ bs) =
    let rest = mismatch ps bs in if same_name p b then rest else (p ∷ ps, b ∷ bs)

-- The names that go down and those that go up.
abbrev pub downs : List Bytes → ℕ
downs [] = 0
downs (p ∷ ps) =
    let rest = downs ps in if is_empty_path p || (is_here p || is_parent p) then rest else suc rest

abbrev pub ups : List Bytes → ℕ
ups [] = 0
ups (p ∷ ps) = let rest = ups ps in if is_parent p then suc rest else rest

abbrev pub here : Bytes
here = 46 ∷ []

abbrev pub parent : Bytes
parent = 46 ∷ 46 ∷ []

abbrev pub is_nothing : List Bytes → Bool
is_nothing [] = true
is_nothing (p ∷ ps) = is_empty_path p

-- `path.lexically_relative(base)` of two paths that are both relative or both absolute.
abbrev pub relative_rest : List Bytes × List Bytes → List Bytes
relative_rest ([], []) = here ∷ []
relative_rest (ps, bs) =
    if ltb (downs bs) (ups bs)
    then []
    else if (downs bs == ups bs) && is_nothing ps
    then here ∷ []
    else replicate (downs bs - ups bs) parent ++ ps

unfoldable pub relative_path : Walker → List Bytes
relative_path w =
    if w.single_file then filename w.current ∷ [] else relative_rest (mismatch w.current w.root)

unfoldable pub reset : List WalkEntry → Walker → Walker
reset listing w =
    if w.single_file
    then record w { single_file_returned = false; current = w.root }
    else record w { it = listing }

-- What a turn of the loop adds to what the later ones find.
abbrev pub met : Walker × Bool → List (List Bytes) × Walker → List (List Bytes) × Walker
met (w, true) (later, end) = (relative_path w ∷ later, end)
met (w, false) rest = ([], w)

-- The loop `while(file_walker_.next())` of the sender: the relative paths of what it meets, and the
-- walker in the end.
unfoldable pub walk_all : ℕ → Walker → List (List Bytes) × Walker
walk_all zero w = ([], w)
walk_all (suc fuel) w = let rest = walk_all fuel (next w).0 in met (next w) rest
