-- ===== src/Builder/Staging.antt =====
-- What each operation of the builder does in a staging directory without links on the way, on a
-- device that refuses nothing.
use mathlib.Core.List.{append-nil}
use file_hop_z.Base.{
  ℕ, ◌+◌, ◌-◌, ◌≤◌, ◌≡◌, refl, ap, subst, ◌∙◌, Bool, true, false, none, some, List, [], ◌∷◌, ◌++◌,
  length, take_all, drop, drop_all, arith,
}
use file_hop_z.Base.Dict.{Dict, insert}
use file_hop_z.Base.Bytes.{Bytes}
use file_hop_z.Errors.{success, failed}
use file_hop_z.FilePath.{parts, validate_relative_path, is_empty_path}
use file_hop_z.Disk.{
  directory, regular, link, Location, Nodes, Device, find, node_at, walk, up, overwrite, max_links,
  absent,
}
use file_hop_z.Disk.Calls.{open_truncated, create_directories}
use file_hop_z.Disk.Laws.{up-append, insert_absent}
use file_hop_z.Disk.Parts.{validate_relative_path-relative}
use file_hop_z.Disk.Chains.{
  IsOrdinary, IsChain, node_at_child, walk-chain, walk_free, make_directories-chain,
  make_directories_free,
}
use file_hop_z.Disk.Calls
use file_hop_z.Builder.{
  OpenFile, Builder, create_directory, open_file, create_file, place_symlink, create_symlink,
  after_parents, opened, place_link, with_nodes,
}

-- The device permits every creation, takes every write whole, and loses nothing on a close.
pub record IsReliable (device : Device) : Type 0 where
  pub permits : (l : Location) → failed (device.creation l) ≡ false
  pub takes : (l : Location) (n : ℕ) → n ≤ device.taken l n
  pub flushes : (l : Location) → device.flushed l ≡ true
  pub removes : (l : Location) → failed (device.removal l) ≡ false

-- A free name in a directory that is reached without links.
pub record IsFree (ns : Nodes) (dir : List Bytes) (name : Bytes) : Type 0 where
  pub chain : IsChain ns [] dir
  pub ordinary : IsOrdinary name
  pub free : find (dir ++ (name ∷ [])) ns ≡ none

abbrev pub child : List Bytes → Bytes → List Bytes
child dir name = dir ++ (name ∷ [])

-- A builder with its staging directory.
abbrev pub staged : List Bytes → List Bytes → Dict OpenFile → Nodes → Builder
staged root staging files ns = record {
  root = root;
  staging_root = some staging;
  open_files = files;
  nodes = ns;
}

pub node_at_free :
    (ns : Nodes) (dir : List Bytes) (name : Bytes)
    → IsFree ns dir name
    → node_at (child dir name) ns ≡ none
node_at_free ns dir name f = node_at_child dir name ns ∙ f.free

pub resolve_free :
    (links : ℕ) (keep : Bool) (ns : Nodes) (dir : List Bytes) (name : Bytes)
    → IsFree ns dir name
    → walk links ns keep [] (child dir name) ≡ absent (child dir name)
resolve_free links keep ns dir name f =
    walk-chain links ns keep [] dir (name ∷ []) f.chain
    ∙ walk_free links ns keep dir name f.ordinary (node_at_free ns dir name f)

pub overwrite_end :
    (bytes content : Bytes) → overwrite (length content) bytes content ≡ content ++ bytes
unfolding overwrite
overwrite_end bytes content =
    let no_gap : length content - length content ≡ 0 = omega arith in
    let nothing : drop (length content + length bytes) content ≡ [] =
      drop_all (length content + length bytes) content (omega arith) in
    rw (take_all (length content) content (omega arith), no_gap, nothing, append-nil bytes) refl

-- The path's staged location.
pub record IsStagedAs (staging : List Bytes) (path : Bytes) (dir : List Bytes) (name : Bytes)
    : Type 0 where
  pub accepted : failed (validate_relative_path path) ≡ false
  pub place : staging ++ parts path ≡ child dir name

-- A builder that writes a file: it stands last among the nodes, and the stream is at its end.
abbrev pub writing : List Bytes → List Bytes → Nodes → Location → ℕ → Bytes → Builder
writing root staging ns l file_id content =
    staged root staging
      ((file_id, record { location = l; offset = length content; broken = false }) ∷ [])
      (ns ++ ((l, regular content) ∷ []))

module _ (device : Device) where
  pub create_directories_there :
      (ns : Nodes) (dir : List Bytes)
      → IsChain ns [] dir
      → create_directories device ns dir ≡ (ns, success)
  unfolding Calls.make_directories
  create_directories_there ns dir c =
      subst (λ x. create_directories device ns x ≡ (ns, success)) (append-nil dir)
        (make_directories-chain device ns [] dir [] c)

  pub create_directories_free :
      (ns : Nodes) (dir : List Bytes) (name : Bytes)
      → IsReliable device
      → IsFree ns dir name
      → create_directories device ns (child dir name)
        ≡ (ns ++ ((child dir name, directory) ∷ []), success)
  create_directories_free ns dir name d f =
      make_directories-chain device ns [] dir (name ∷ []) f.chain
      ∙ make_directories_free device ns dir name f.ordinary (node_at_free ns dir name f)
          (d.permits (child dir name))

  pub create_directories_parent :
      (ns : Nodes) (dir : List Bytes) (name : Bytes)
      → IsChain ns [] dir
      → create_directories device ns (up (child dir name)) ≡ (ns, success)
  create_directories_parent ns dir name c =
      rw (up-append dir name) (create_directories_there ns dir c)

  open_truncated_free :
      (ns : Nodes) (dir : List Bytes) (name : Bytes)
      → IsReliable device
      → IsFree ns dir name
      → open_truncated device ns (child dir name)
        ≡ (ns ++ ((child dir name, regular []) ∷ []), some (child dir name))
  unfolding open_truncated
  open_truncated_free ns dir name d f =
      rw
        (
          resolve_free max_links false ns dir name f,
          open_truncated,
          d.permits (child dir name),
          insert_absent (child dir name) (regular []) ns f.free,
        )
        refl

  make_symlink_free :
      (ns : Nodes) (dir : List Bytes) (name target : Bytes)
      → IsReliable device
      → IsFree ns dir name
      → is_empty_path target ≡ false
      → Calls.create_symlink device ns target (child dir name)
        ≡ (ns ++ ((child dir name, link target) ∷ []), success)
  unfolding Calls.create_symlink
  make_symlink_free ns dir name target d f t =
      rw
        (
          t,
          resolve_free max_links true ns dir name f,
          Calls.create_symlink,
          d.permits (child dir name),
          insert_absent (child dir name) (link target) ns f.free,
        )
        refl

  module _ (root staging : List Bytes) (ns : Nodes) (dir : List Bytes) (name : Bytes)
      (d : IsReliable device) (f : IsFree ns dir name) where
    pub create_directory_free :
        (path : Bytes) (files : Dict OpenFile)
        → IsStagedAs staging path dir name
        → create_directory device path (staged root staging files ns)
          ≡ (staged root staging files (ns ++ ((child dir name, directory) ∷ [])), success)
    unfolding create_directory
    create_directory_free path files s =
        rw
          (
            s.accepted,
            validate_relative_path-relative path s.accepted,
            s.place,
            create_directories_free ns dir name d f,
          )
          refl

    open_file_free :
        (file_id : ℕ) (files : Dict OpenFile)
        → open_file device file_id (child dir name) (staged root staging files ns) ≡ (
          staged root staging
              (insert file_id
                (record { location = child dir name; offset = 0; broken = false })
                files)
              (ns ++ ((child dir name, regular []) ∷ [])),
          success,
        )
    unfolding open_file
    open_file_free file_id files =
        let b : Builder = staged root staging files ns in
        ap
          (after_parents device b
            (λ made. opened device file_id b (open_truncated device made (child dir name))))
          (create_directories_parent ns dir name f.chain)
        ∙ ap (opened device file_id b) (open_truncated_free ns dir name d f)

    pub create_file_free :
        (path : Bytes) (file_id : ℕ)
        → IsStagedAs staging path dir name
        → create_file device path file_id (staged root staging [] ns) ≡ (
          staged root staging
              ((file_id, record { location = child dir name; offset = 0; broken = false }) ∷ [])
              (ns ++ ((child dir name, regular []) ∷ [])),
          success,
        )
    unfolding create_file insert
    create_file_free path file_id s =
        rw (s.accepted, validate_relative_path-relative path s.accepted, s.place)
          (open_file_free file_id [])

    place_link_free :
        (target : Bytes) (files : Dict OpenFile)
        → is_empty_path target ≡ false
        → place_link device target (child dir name) (staged root staging files ns) ns
          ≡ (staged root staging files (ns ++ ((child dir name, link target) ∷ [])), success)
    place_link_free target files t =
        rw (resolve_free max_links true ns dir name f, place_link)
          (ap (with_nodes device (staged root staging files ns))
            (make_symlink_free ns dir name target d f t))

    place_symlink_free :
        (target : Bytes) (files : Dict OpenFile)
        → is_empty_path target ≡ false
        → place_symlink device target (child dir name) (staged root staging files ns)
          ≡ (staged root staging files (ns ++ ((child dir name, link target) ∷ [])), success)
    unfolding place_symlink
    place_symlink_free target files t =
        let b : Builder = staged root staging files ns in
        ap (after_parents device b (place_link device target (child dir name) b))
          (create_directories_parent ns dir name f.chain)
        ∙ place_link_free target files t

    pub create_symlink_free :
        (path target : Bytes) (files : Dict OpenFile)
        → is_empty_path target ≡ false
        → IsStagedAs staging path dir name
        → create_symlink device path target (staged root staging files ns)
          ≡ (staged root staging files (ns ++ ((child dir name, link target) ∷ [])), success)
    unfolding create_symlink
    create_symlink_free path target files t s =
        rw (s.accepted, validate_relative_path-relative path s.accepted, s.place)
          (place_symlink_free target files t)
