-- ===== src/Builder.antt =====
-- src/utils/file_builder.cpp and include/utils/file_builder.hpp: files are written to a staging
-- directory inside of the output directory, and moved to their places in the end.
pub mod Decimal
pub mod Commits
pub mod Staging
pub mod Writes
pub mod Commit
pub mod Confined
pub mod Isolation
pub mod Kept
pub mod Cleanup
pub mod Opening
mod Examples
use file_hop_z.Base.{
  ℕ, zero, suc, ◌+◌, ◌≤◌, Bool, true, false, not, ◌&&◌, Option, none, some, List, [], ◌∷◌, ◌++◌,
  length, min, take, leb, ◌==◌, if◌then◌else◌,
}
use file_hop_z.Base.Dict.{Dict, lookup, erase, insert}
use file_hop_z.Base.Bytes.{Bytes, codes}
use file_hop_z.Errors.{
  BoostError, success, failed, same_error, Expected, ok, unexpected, ErrorCode, make_error_code,
}
use file_hop_z.FilePath.{is_absolute, parts, validate_relative_path}
use file_hop_z.Disk.{
  Node, directory, regular, link, Location, Nodes, Device, Status, is, not_found, unknown, find,
  strip, up, outside, overwrite, symlink_status, resolve_link, found, absent, fails, file_exists,
  is_a_directory, no_such_file_or_directory,
}
use file_hop_z.Disk.Calls.{open_truncated, remove_all, rename, create_directories}
use file_hop_z.Builder.Decimal.{to_string}
use file_hop_z.Receiver.{FileBuilder}
use file_hop_z.Disk
use file_hop_z.Disk.Calls

-- `Open_file`: where the stream writes, its position, and whether it has failed.
pub record OpenFile : Type 0 where
  pub location : Location
  pub offset : ℕ
  pub broken : Bool

-- A `File_builder` and the file system. An empty `staging_root_` is `none`.
pub record Builder : Type 0 where
  pub root : List Bytes
  pub staging_root : Option (List Bytes)
  pub open_files : Dict OpenFile
  pub nodes : Nodes

-- The name of the staging directory of an attempt.
unfoldable pub staging_name : ℕ → ℕ → ℕ → Bytes
staging_name pid now attempt =
    codes ".filehopz-tmp-"
    ++ (to_string pid ++ (codes "-" ++ (to_string now ++ (codes "-" ++ to_string attempt))))

-- `staging_root_ / relative_path`, where an absolute right operand replaces the left one.
abbrev pub staged_path : List Bytes → Bytes → List Bytes
staged_path staging path = if is_absolute path then parts path else staging ++ parts path

abbrev pub final_path : List Bytes → List Bytes → List Bytes
final_path root names = root ++ names

-- `parent_path()`
abbrev pub parent_path : List Bytes → List Bytes
parent_path names = up names

-- What `stream->write` leaves at the stream's location.
abbrev pub put : ℕ → Bytes → Location → Nodes → Nodes
put offset bytes l ns = elim (find l ns) [
  | some (regular content) ↦ Disk.insert l (regular (overwrite offset bytes content)) ns
  | _ ↦ ns
]

module _ (device : Device) where
  -- The attempts of the constructor to find a free name.
  unfoldable pub try_names : (ℕ → Bytes) → ℕ → ℕ → List Bytes → Nodes → Nodes × Option (List Bytes)
  try_names name zero attempt root ns = (ns, none)
  try_names name (suc left) attempt root ns =
      let candidate = root ++ (name attempt ∷ []) in
      let (ns', created, ec) = Calls.create_directory device ns candidate in
      let later = try_names name left (suc attempt) root ns' in
      if created
      then (ns', some candidate)
      else if failed ec && not (same_error ec file_exists)
      then (ns', none)
      else later

  -- The constructor.
  unfoldable pub file_builder : (ℕ → Bytes) → List Bytes → Nodes → Builder
  unfolding try_names
  file_builder name root ns =
      let (made, ec) = create_directories device ns root in
      let (ns', staging) = try_names name 100 0 root made in
      if failed ec
      then record { root = root; staging_root = none; open_files = []; nodes = made }
      else record { root = root; staging_root = staging; open_files = []; nodes = ns' }

  -- What the operations on a path begin with: there must be a staging directory, and the path must
  -- be acceptable.
  abbrev pub guarded :
      Option (List Bytes)
      → Bytes
      → (List Bytes → Builder → Builder × BoostError)
      → Builder
      → Builder × BoostError
  guarded none path operation b = (b, no_such_file_or_directory)
  guarded (some staging) path operation b =
      if failed (validate_relative_path path)
      then (b, validate_relative_path path)
      else operation (staged_path staging path) b

  abbrev pub with_nodes : Builder → Nodes × BoostError → Builder × BoostError
  with_nodes b (ns, ec) = (record b { nodes = ns }, ec)

  unfoldable pub create_directory : Bytes → Builder → Builder × BoostError
  create_directory path b =
      guarded b.staging_root path (λ full b. with_nodes b (create_directories device b.nodes full))
        b

  -- What is done once the parent directories are there.
  abbrev pub after_parents :
      Builder → (Nodes → Builder × BoostError) → Nodes × BoostError → Builder × BoostError
  after_parents b go (made, ec) = if failed ec then (record b { nodes = made }, ec) else go made

  -- The new stream, if it opened.
  abbrev pub opened : ℕ → Builder → Nodes × Option Location → Builder × BoostError
  opened file_id b (ns, none) =
      (record b { nodes = ns }, make_error_code ErrorCode.file_open_failed)
  opened file_id b (ns, some l) = (
    record b {
      nodes = ns;
      open_files =
          insert file_id (record { location = l; offset = 0; broken = false }) b.open_files;
    },
    success,
  )

  -- The stream of a new file, at `full`.
  unfoldable pub open_file : ℕ → List Bytes → Builder → Builder × BoostError
  open_file file_id full b =
      after_parents b (λ made. opened file_id b (open_truncated device made full))
        (create_directories device b.nodes (parent_path full))

  unfoldable pub create_file : Bytes → ℕ → Builder → Builder × BoostError
  create_file path file_id b = guarded b.staging_root path (open_file file_id) b

  -- A link at `full`, where nothing may stand yet.
  abbrev pub place_link : Bytes → List Bytes → Builder → Nodes → Builder × BoostError
  place_link target full b made = elim (symlink_status made full) [
    | unknown ec' ↦ (record b { nodes = made }, ec')
    | is n ↦ (record b { nodes = made }, file_exists)
    | not_found ec' ↦ with_nodes b (Calls.create_symlink device made target full)
  ]

  unfoldable pub place_symlink : Bytes → List Bytes → Builder → Builder × BoostError
  place_symlink target full b =
      after_parents b (place_link target full b)
        (create_directories device b.nodes (parent_path full))

  unfoldable pub create_symlink : Bytes → Bytes → Builder → Builder × BoostError
  create_symlink path target b = guarded b.staging_root path (place_symlink target) b

  -- So many bytes of a write arrive, and the stream fails if that is not all of them.
  abbrev pub arrive : Bytes → OpenFile → Nodes → ℕ → Nodes × OpenFile
  arrive bytes f ns arrived = (
    put f.offset (take arrived bytes) f.location ns,
    record f { offset = f.offset + arrived; broken = not (arrived == length bytes) },
  )

  -- `stream->write`
  unfoldable pub stream_write : Bytes → OpenFile → Nodes → Nodes × OpenFile
  stream_write bytes f ns =
      if f.broken
      then (ns, f)
      else arrive bytes f ns (min (device.taken f.location (length bytes)) (length bytes))

  abbrev pub written : ℕ → Builder → Nodes × OpenFile → Builder × BoostError
  written file_id b (ns, f) = (
    record b { nodes = ns; open_files = insert file_id f b.open_files },
    if f.broken then make_error_code ErrorCode.file_write_failed else success,
  )

  unfoldable pub write : Bytes → ℕ → Builder → Builder × BoostError
  write bytes file_id b = elim (lookup file_id b.open_files) [
    | none ↦ (b, make_error_code ErrorCode.unknown_file_id)
    | some f ↦ written file_id b (stream_write bytes f b.nodes)
  ]

  -- Whether `close()` leaves the stream without an error.
  abbrev pub closes_well : OpenFile → Bool
  closes_well f = not f.broken && device.flushed f.location

  unfoldable pub close_file : ℕ → Builder → Builder × BoostError
  close_file file_id b = elim (lookup file_id b.open_files) [
    | none ↦ (b, make_error_code ErrorCode.unknown_file_id)
    | some f ↦
        if closes_well f then (record b { open_files = erase file_id b.open_files }, success) else (
          record b { open_files = insert file_id (record f { broken = true }) b.open_files },
          make_error_code ErrorCode.file_write_failed,
        )
  ]

  unfoldable pub close_streams : Dict OpenFile → BoostError
  close_streams [] = success
  close_streams ((id, f) ∷ fs) =
      let rest = close_streams fs in
      if closes_well f then rest else make_error_code ErrorCode.file_write_failed

  abbrev pub close_all : Builder → Builder × BoostError
  close_all b = (record b { open_files = [] }, close_streams b.open_files)
