-- ===== src/Disk.antt =====
-- The file system that src/utils/file_builder.cpp writes to, as its calls of `std::filesystem` and
-- `std::ofstream` see it on POSIX: a tree of directories, regular files and symbolic links.
pub mod Calls
pub mod Laws
pub mod Chains
pub mod Parts
mod Examples
use file_hop_z.Base.{
  ℕ, zero, suc, ◌+◌, ◌-◌, Bool, true, false, not, ◌&&◌, ◌||◌, Option, none, some, List, [], ◌∷◌,
  ◌++◌, take, drop, length, replicate, ◌==◌, if◌then◌else◌,
}
use file_hop_z.Base.Bytes.{Bytes}
use file_hop_z.Errors.{BoostError, Category, success, failed}
use file_hop_z.FilePath.{is_absolute, is_empty_path, is_parent, pieces}

-- What a path names. A link holds its target as it was given.
pub data Node : Type 0 where
  directory : Node
  regular : Bytes → Node
  link : Bytes → Node

-- A location in the tree: the names on the way from the root, which is the empty list.
abbrev pub Location : Type 0
Location = List Bytes

-- Everything but the root, in the order of creation.
abbrev pub Nodes : Type 0
Nodes = List (Location × Node)

-- What the device and the rights on it decide: whether something may be created or replaced at a
-- location, how many bytes of a write arrive, whether a close succeeds, and whether a tree may be
-- removed.
pub record Device : Type 0 where
  pub creation : Location → BoostError
  pub taken : Location → ℕ → ℕ
  pub flushed : Location → Bool
  pub removal : Location → BoostError

abbrev errno : ℕ → BoostError
errno v = record { value = v; category = Category.generic_category }

abbrev pub no_such_file_or_directory : BoostError
no_such_file_or_directory = errno 2

abbrev pub file_exists : BoostError
file_exists = errno 17

abbrev pub not_a_directory : BoostError
not_a_directory = errno 20

abbrev pub is_a_directory : BoostError
is_a_directory = errno 21

abbrev pub too_many_symbolic_link_levels : BoostError
too_many_symbolic_link_levels = errno 40

unfoldable pub same_name : Bytes → Bytes → Bool
same_name [] [] = true
same_name [] (d ∷ ds) = false
same_name (c ∷ cs) [] = false
same_name (c ∷ cs) (d ∷ ds) = (c == d) && same_name cs ds

unfoldable pub same_location : Location → Location → Bool
same_location [] [] = true
same_location [] (q ∷ qs) = false
same_location (p ∷ ps) [] = false
same_location (p ∷ ps) (q ∷ qs) = same_name p q && same_location ps qs

-- The rest of a location below another, if it lies at or below it.
unfoldable pub strip : Location → Location → Option Location
strip [] ps = some ps
strip (d ∷ ds) [] = none
strip (d ∷ ds) (p ∷ ps) = if same_name d p then strip ds ps else none

unfoldable pub find : Location → Nodes → Option Node
find l [] = none
find l ((m, n) ∷ ns) = if same_location m l then some n else find l ns

-- What is at a location; the root is a directory.
abbrev pub node_at : Location → Nodes → Option Node
node_at [] ns = some directory
node_at (p ∷ ps) ns = find (p ∷ ps) ns

unfoldable pub insert : Location → Node → Nodes → Nodes
insert l n [] = (l, n) ∷ []
insert l n ((m, o) ∷ ns) = if same_location m l then (l, n) ∷ ns else (m, o) ∷ insert l n ns

unfoldable pub remove : Location → Nodes → Nodes
remove l [] = []
remove l ((m, o) ∷ ns) = if same_location m l then ns else (m, o) ∷ remove l ns

abbrev pub is_below : Location → Location → Bool
is_below dir l = elim (strip dir l) [ none ↦ false | some rest ↦ true ]

-- Everything but a location and what lies below it.
unfoldable pub outside : Location → Nodes → Nodes
outside dir [] = []
outside dir ((m, o) ∷ ns) =
    let rest = outside dir ns in if is_below dir m then rest else (m, o) ∷ rest

-- `part == "."`
abbrev pub is_here : Bytes → Bool
is_here (a ∷ []) = a == 46
is_here _ = false

abbrev pub up : Location → Location
up [] = []
up (p ∷ []) = []
up (p ∷ (q ∷ ps)) = p ∷ up (q ∷ ps)

abbrev pub is_last : List Bytes → Bool
is_last [] = true
is_last (p ∷ ps) = false

-- What name resolution ends at: something, a free name in a directory, or an error.
pub data Resolved : Type 0 where
  found : Location → Node → Resolved
  absent : Location → Resolved
  fails : BoostError → Resolved

-- Name resolution from a directory, where `follow` goes on behind a link. The last part's own link
-- is followed unless `keep` is set.
unfoldable pub walk_names :
    (Location → List Bytes → Resolved) → Nodes → Bool → Location → List Bytes → Resolved
walk_names follow ns keep dir [] = found dir directory
walk_names follow ns keep dir (p ∷ ps) =
    if is_here p || is_empty_path p
    then walk_names follow ns keep dir ps
    else if is_parent p
    then walk_names follow ns keep (up dir) ps
    else elim (node_at (dir ++ (p ∷ [])) ns) [
      | none ↦ if is_last ps then absent (dir ++ (p ∷ [])) else fails no_such_file_or_directory
      | some directory ↦ walk_names follow ns keep (dir ++ (p ∷ [])) ps
      | some (regular content) ↦
          if is_last ps then found (dir ++ (p ∷ [])) (regular content) else fails not_a_directory
      | some (link target) ↦
          if is_last ps && keep
          then found (dir ++ (p ∷ [])) (link target)
          else follow (if is_absolute target then [] else dir) (pieces target ++ ps)
    ]

-- Name resolution that follows at most so many links.
unfoldable pub walk : ℕ → Nodes → Bool → Location → List Bytes → Resolved
unfolding walk_names
walk zero ns keep = walk_names (λ dir names. fails too_many_symbolic_link_levels) ns keep
walk (suc links) ns keep = walk_names (walk links ns keep) ns keep

-- Linux follows 40 links.
abbrev pub max_links : ℕ
max_links = 40

-- A path is the names on the way to it from the root.
abbrev pub resolve : Nodes → List Bytes → Resolved
resolve ns names = walk max_links ns false [] names

abbrev pub resolve_link : Nodes → List Bytes → Resolved
resolve_link ns names = walk max_links ns true [] names

-- `std::filesystem::file_status` with the error: a missing name or directory is `not_found`.
pub data Status : Type 0 where
  is : Node → Status
  not_found : BoostError → Status
  unknown : BoostError → Status

abbrev pub status_of : Resolved → Status
status_of (found l n) = is n
status_of (absent l) = not_found no_such_file_or_directory
status_of (fails ec) = if (ec.value == 2) || (ec.value == 20) then not_found ec else unknown ec

-- `std::filesystem::symlink_status`
abbrev pub symlink_status : Nodes → List Bytes → Status
symlink_status ns names = status_of (resolve_link ns names)

-- Bytes written over a file's content at an offset; a gap is filled with zeroes.
unfoldable pub overwrite : ℕ → Bytes → Bytes → Bytes
overwrite offset bytes content =
    take offset content
    ++ (replicate (offset - length content) 0 ++ (bytes ++ drop (offset + length bytes) content))
