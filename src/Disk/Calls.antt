-- ===== src/Disk/Calls.antt =====
-- The calls of `std::filesystem` and `std::ofstream` that src/utils/file_builder.cpp makes to change the file system.
use file_hop_z.Base.{Bool, false, not, Option, none, some, List, [], ◌∷◌, ◌++◌, if◌then◌else◌}
use file_hop_z.Base.Bytes.{Bytes}
use file_hop_z.Errors.{BoostError, success, failed}
use file_hop_z.FilePath.{is_empty_path}
use file_hop_z.Disk.{
  Node, Location, Nodes, Device, no_such_file_or_directory, file_exists, not_a_directory,
  is_a_directory, same_location, insert, remove, outside, walk, max_links, resolve, resolve_link,
  directory, regular, link, found, absent, fails,
}

module _ (device : Device) where
  -- What creating or replacing a node gives.
  abbrev pub create_at : Location → Node → Nodes → Nodes × BoostError
  create_at l n ns =
      if failed (device.creation l) then (ns, device.creation l) else (insert l n ns, success)

  -- `std::filesystem::create_directories` below a directory that was resolved already.
  unfoldable pub make_directories : Nodes → Location → List Bytes → Nodes × BoostError
  make_directories ns dir [] = (ns, success)
  make_directories ns dir (p ∷ ps) = elim (walk max_links ns false dir (p ∷ [])) [
    | found l directory ↦ make_directories ns l ps
    | found l n ↦ (ns, not_a_directory)
    | absent l ↦
        if same_location l (dir ++ (p ∷ []))
        then (if failed (device.creation l)
            then (ns, device.creation l)
            else make_directories (insert l directory ns) l ps)
        else (ns, file_exists)
    | fails ec ↦ (ns, ec)
  ]

  abbrev pub create_directories : Nodes → List Bytes → Nodes × BoostError
  create_directories ns names = make_directories ns [] names

  -- `std::filesystem::create_directory`, and whether it created one.
  unfoldable pub create_directory : Nodes → List Bytes → Nodes × Bool × BoostError
  create_directory ns names = elim (resolve_link ns names) [
    | absent l ↦ let (ns', ec) = create_at l directory ns in (ns', not (failed ec), ec)
    | found l directory ↦ (ns, false, success)
    | found l (regular content) ↦ (ns, false, file_exists)
    | found l (link target) ↦ elim (resolve ns names) [
      | found m directory ↦ (ns, false, success)
      | _ ↦ (ns, false, file_exists)
    ]
    | fails ec ↦ (ns, false, ec)
  ]

  -- `std::filesystem::create_symlink`
  unfoldable pub create_symlink : Nodes → Bytes → List Bytes → Nodes × BoostError
  create_symlink ns target names =
      if is_empty_path target
      then (ns, no_such_file_or_directory)
      else elim (resolve_link ns names) [
        | absent l ↦ create_at l (link target) ns
        | found l n ↦ (ns, file_exists)
        | fails ec ↦ (ns, ec)
      ]

  -- Opening a stream with `std::ios::trunc`: where it writes, or nothing if it does not open.
  unfoldable pub open_truncated : Nodes → List Bytes → Nodes × Option Location
  open_truncated ns names = elim (resolve ns names) [
    | absent l ↦
        let (ns', ec) = create_at l (regular []) ns in (ns', if failed ec then none else some l)
    | found l (regular content) ↦
        let (ns', ec) = create_at l (regular []) ns in (ns', if failed ec then none else some l)
    | found l _ ↦ (ns, none)
    | fails ec ↦ (ns, none)
  ]

  -- Moving a node to another location.
  abbrev pub replace_at : Location → Location → Node → Nodes → Nodes × BoostError
  replace_at l m n ns =
      if failed (device.creation m)
      then (ns, device.creation m)
      else (insert m n (remove l ns), success)

  -- `std::filesystem::rename` of what is not a directory.
  unfoldable pub rename : Nodes → List Bytes → List Bytes → Nodes × BoostError
  rename ns from to = elim (resolve_link ns from) [
    | absent l ↦ (ns, no_such_file_or_directory)
    | fails ec ↦ (ns, ec)
    | found l n ↦ elim (resolve_link ns to) [
      | absent m ↦ replace_at l m n ns
      | fails ec ↦ (ns, ec)
      | found m directory ↦ (ns, is_a_directory)
      | found m o ↦ if same_location l m then (ns, success) else replace_at l m n ns
    ]
  ]

  -- `std::filesystem::remove_all`; a link is removed itself, not what it leads to.
  unfoldable pub remove_all : Nodes → List Bytes → Nodes × BoostError
  remove_all ns names = elim (resolve_link ns names) [
    | absent l ↦ (ns, success)
    | fails ec ↦ (ns, ec)
    | found l n ↦
        if failed (device.removal l) then (ns, device.removal l) else (outside l ns, success)
  ]
