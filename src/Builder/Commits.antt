-- ===== src/Builder/Commits.antt =====
-- The end of a transfer in src/utils/file_builder.cpp: commit and cleanup, and all operations as the receiver calls them.
use file_hop_z.Base.{Option, none, some, List, [], ◌∷◌, ◌++◌, if◌then◌else◌}
use file_hop_z.Base.Bytes.{Bytes}
use file_hop_z.Errors.{BoostError, success, failed}
use file_hop_z.Disk.{
  directory, Location, Nodes, Device, is, not_found, unknown, strip, symlink_status, resolve_link,
  found, absent, fails, file_exists, is_a_directory, no_such_file_or_directory,
}
use file_hop_z.Disk.Calls.{remove_all, rename, create_directories}
use file_hop_z.Receiver.{FileBuilder}
use file_hop_z.Builder.{
  Builder, final_path, parent_path, with_nodes, create_directory, create_file, create_symlink,
  write, close_file, close_all,
}

-- An entry's place relative to the staging directory, if it has one below it.
abbrev pub listed : Option (List Bytes) → List (List Bytes) → List (List Bytes)
listed none rest = rest
listed (some []) rest = rest
listed (some (p ∷ ps)) rest = (p ∷ ps) ∷ rest

-- The entries below the staging directory, relative to it, in the order of their creation.
unfoldable pub listing : Location → Nodes → List (List Bytes)
listing dir [] = []
listing dir ((l, n) ∷ ns) = listed (strip dir l) (listing dir ns)

module _ (device : Device) where
  -- An entry of the staging directory that is a directory: it is created at its destination, unless
  -- something else stands there.
  unfoldable pub commit_directory : List Bytes → Nodes → Nodes × BoostError
  commit_directory destination ns = elim (symlink_status ns destination) [
    | unknown ec ↦ (ns, ec)
    | is directory ↦ create_directories device ns destination
    | is n ↦ (ns, file_exists)
    | not_found ec ↦ create_directories device ns destination
  ]

  -- Any other entry is moved to its destination.
  abbrev pub move_entry : List Bytes → List Bytes → Nodes × BoostError → Nodes × BoostError
  move_entry staged destination (made, ec) =
      if failed ec then (made, ec) else elim (symlink_status made destination) [
        | unknown ec' ↦ (made, ec')
        | is directory ↦ (made, is_a_directory)
        | _ ↦ rename device made staged destination
      ]

  unfoldable pub commit_file : List Bytes → List Bytes → Nodes → Nodes × BoostError
  commit_file staged destination ns =
      move_entry staged destination (create_directories device ns (parent_path destination))

  -- The body of the loop of `commit`.
  unfoldable pub commit_entry : List Bytes → List Bytes → List Bytes → Nodes → Nodes × BoostError
  commit_entry root staging names ns = elim (symlink_status ns (staging ++ names)) [
    | unknown ec ↦ (ns, ec)
    | not_found ec ↦ (ns, ec)
    | is directory ↦ commit_directory (final_path root names) ns
    | is n ↦ commit_file (staging ++ names) (final_path root names) ns
  ]

  unfoldable pub commit_entries :
      List Bytes → List Bytes → List (List Bytes) → Nodes → Nodes × BoostError
  commit_entries root staging [] ns = (ns, success)
  commit_entries root staging (names ∷ rest) ns =
      let (ns', ec) = commit_entry root staging names ns in
      let later = commit_entries root staging rest ns' in if failed ec then (ns', ec) else later

  -- The end of `commit`, if the loop went through.
  abbrev pub remove_staging : List Bytes → Nodes × BoostError → Nodes × BoostError
  remove_staging staging (ns, ec) = if failed ec then (ns, ec) else remove_all device ns staging

  -- The loop over the staging directory, and its removal.
  unfoldable pub commit_tree : List Bytes → List Bytes → Nodes → Nodes × BoostError
  commit_tree root staging ns = elim (resolve_link ns staging) [
    | absent l ↦ (ns, no_such_file_or_directory)
    | fails ec ↦ (ns, ec)
    | found dir n ↦ remove_staging staging (commit_entries root staging (listing dir ns) ns)
  ]

  unfoldable pub commit : Builder → Builder × BoostError
  commit b = elim b.staging_root [
    | none ↦ (b, no_such_file_or_directory)
    | some staging ↦
        let (closed, ec) = close_all device b in
        if failed ec
        then (closed, ec)
        else with_nodes device closed (commit_tree closed.root staging closed.nodes)
  ]

  abbrev pub cleaned : Option (List Bytes) → Builder → Builder
  cleaned none b = b
  cleaned (some staging) b = record (close_all device b).0 {
    nodes = (remove_all device b.nodes staging).0;
  }

  unfoldable pub cleanup : Builder → Builder
  cleanup b = cleaned b.staging_root b

  -- The operations that the receiver calls.
  abbrev pub builder_operations : FileBuilder
  builder_operations = record {
    State = Builder;
    make_directory = create_directory device;
    make_file = create_file device;
    make_symlink = create_symlink device;
    write = write device;
    close_file = close_file device;
    commit = commit;
    cleanup = cleanup;
  }
