-- ===== src/Builder/Examples.antt =====
-- The builder on a device that refuses nothing, and on one that refuses.
use file_hop_z.Base.{◌≡◌, refl, true, some, List, [], ◌∷◌, ◌++◌}
use file_hop_z.Base.Bytes.{Bytes, codes}
use file_hop_z.Base.Dict.{lookup, erase}
use file_hop_z.Base.Dict
use file_hop_z.Errors.{success, ErrorCode, make_error_code}
use file_hop_z.FilePath.{
  pieces, collapse, parts, check_parts, is_forbidden_path_part, validate_relative_path,
}
use file_hop_z.Disk.{
  Nodes, Device, directory, regular, walk, walk_names, find, strip, insert, same_name,
  same_location, is_a_directory,
}
use file_hop_z.Disk.Calls.{make_directories, open_truncated, rename, remove_all}
use file_hop_z.Disk.Calls
use file_hop_z.Builder.{
  Builder, staging_name, file_builder, try_names, open_file, create_file, place_symlink,
  create_symlink, stream_write, write, close_streams,
}
use file_hop_z.Builder.Commits.{
  listing, commit_file, commit_entry, commit_entries, commit_tree, commit,
}
use file_hop_z.Builder.Decimal.{to_string, digits}

abbrev pub willing : Device
willing = record {
  creation = λ l. success;
  taken = λ l n. n;
  flushed = λ l. true;
  removal = λ l. success;
}

abbrev pub output : List Bytes
output = codes "o" ∷ []

abbrev disk : Nodes
disk = (output, directory) ∷ ((output ++ (codes "k" ∷ []), regular (9 ∷ [])) ∷ [])

-- The name of the first attempt is taken, and the second is used.
file_builder_second :
    (file_builder willing (staging_name 7 20) output (
      (output, directory)
      ∷ ((output ++ (codes ".filehopz-tmp-7-20-0" ∷ []), directory) ∷ []))).staging_root
    ≡ some (output ++ (codes ".filehopz-tmp-7-20-1" ∷ []))
unfolding file_builder try_names staging_name to_string digits make_directories walk walk_names find
    same_name same_location insert Calls.create_directory
file_builder_second = refl

abbrev start : Builder
start = record {
  root = output;
  staging_root = some (output ++ (codes "t" ∷ []));
  open_files = [];
  nodes = disk ++ ((output ++ (codes "t" ∷ []), directory) ∷ []);
}

-- A link to a place outside, and a file below it: the file is written there before any commit.
escapes :
    find
      (codes "x" ∷ [])
      (create_file willing
        (codes "l/x")
        1
        (create_symlink willing (codes "l") (codes "/") start).0).0.nodes
    ≡ some (regular [])
unfolding create_symlink place_symlink create_file open_file open_truncated make_directories walk
    walk_names find same_name same_location insert Calls.create_symlink parts pieces collapse
    check_parts is_forbidden_path_part validate_relative_path Dict.insert
escapes = refl

-- A staged file where the output holds a directory is not committed, and the staging directory stays.
commit_refuses :
    (commit willing (record start {
      nodes =
          (output, directory)
          ∷ ((output ++ (codes "d" ∷ []), directory)
              ∷ ((output ++ (codes "t" ∷ []), directory)
                  ∷ ((output ++ (codes "t" ∷ codes "d" ∷ []), regular []) ∷ [])));
    })).1
    ≡ is_a_directory
unfolding commit commit_tree commit_entries commit_entry commit_file listing strip walk walk_names
    find same_name same_location make_directories close_streams
commit_refuses = refl

-- A device that takes one byte of a write.
write_fails :
    (write
      (record willing { taken = λ l n. 1 })
      (5 ∷ 6 ∷ [])
      1
      (create_file willing (codes "f") 1 start).0).1
    ≡ make_error_code ErrorCode.file_write_failed
unfolding write stream_write create_file open_file open_truncated make_directories walk walk_names
    find same_name same_location insert parts pieces collapse check_parts is_forbidden_path_part
    validate_relative_path Dict.insert lookup
write_fails = refl
