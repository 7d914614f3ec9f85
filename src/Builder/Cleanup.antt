-- ===== src/Builder/Cleanup.antt =====
-- Whatever is written to a builder of src/utils/file_builder.cpp, `cleanup` leaves what was there
-- before the transfer, as long as no link was staged.
use mathlib.Core.List.{append-nil}
use file_hop_z.Base.{
  ℕ, ◌≡◌, refl, sym, ap, subst, ◌∙◌, true, false, Option, none, some, List, [], ◌++◌, Bool-cases,
  Option-cases, inl, inr, arith,
}
use file_hop_z.Base.Dict.{lookup}
use file_hop_z.Base.Bytes.{Bytes}
use file_hop_z.Errors.{BoostError, failed}
use file_hop_z.FilePath.{check_parts, parts, validate_relative_path}
use file_hop_z.Disk.{
  directory, regular, link, Location, Nodes, Device, is_below, find, outside, overwrite, up, walk,
  walk_names, max_links, found,
}
use file_hop_z.Disk.Calls.{create_directories, open_truncated, remove_all}
use file_hop_z.Disk.Chains.{IsChain, walk-chain}
use file_hop_z.Disk.Parts.{
  check_parts-up, parts_some, up-append_names, validate_relative_path-parts,
  validate_relative_path-relative,
}
use file_hop_z.Builder.{
  OpenFile, Builder, put, guarded, with_nodes, create_directory, opened, open_file, create_file,
  stream_write, write, closes_well, close_file,
}
use file_hop_z.Builder.Commits.{cleaned, cleanup}
use file_hop_z.Builder.Confined.{IsConfined, Stays, Stays-refl, Stays-trans, insert-Stays}
use file_hop_z.Builder.Isolation.{create_directories-Stays, open_truncated-Stays, OpenedBelow}
use file_hop_z.Builder.Kept.{
  lookup-FilesBelow, insert-FilesBelow, erase-FilesBelow, IsIsolated, Keeps, Keeps-nodes,
}

walk_itself :
    (dir : Location) (ns : Nodes)
    → IsChain ns [] dir
    → walk max_links ns true [] dir ≡ found dir directory
unfolding walk walk_names
walk_itself dir ns c =
    subst (λ l. walk max_links ns true [] l ≡ found dir directory) (append-nil dir)
      (walk-chain max_links ns true [] dir [] c)

module _ (device : Device) (dir : Location) where
  -- What an operation on a path does, if it gets that far.
  guarded-Keeps :
      (path : Bytes) (operation : List Bytes → Builder → Builder × BoostError) (b : Builder)
      → IsIsolated dir b
      → (failed (check_parts (parts path)) ≡ false
          → Keeps dir b (operation (dir ++ parts path) b).0)
      → Keeps dir b (guarded device b.staging_root path operation b).0
  guarded-Keeps path operation b i go =
      subst (λ o. Keeps dir b (guarded device o path operation b).0) (sym i.staging_is)
        (elim (Bool-cases (failed (validate_relative_path path))) [
          | inl e ↦ rw e (Keeps-nodes dir b b.nodes i (Stays-refl dir b.nodes i.confined))
          | inr e ↦
              rw (e, validate_relative_path-relative path e)
                (go (validate_relative_path-parts path e))
        ])

  pub create_directory-Keeps :
      (path : Bytes) (b : Builder)
      → IsIsolated dir b
      → Keeps dir b (create_directory device path b).0
  unfolding create_directory
  create_directory-Keeps path b i =
      guarded-Keeps path (λ full b. with_nodes device b (create_directories device b.nodes full)) b
        i
        (λ h.
          Keeps-nodes dir b (create_directories device b.nodes (dir ++ parts path)).0 i
            (create_directories-Stays device dir b.nodes (parts path) i.confined h))

  -- The parent directories of a path below the directory.
  parents-Stays :
      (path : Bytes) (ns : Nodes)
      → IsConfined dir ns
      → failed (check_parts (parts path)) ≡ false
      → Stays dir ns (create_directories device ns (up (dir ++ parts path))).0
  parents-Stays path ns c h =
      rw (up-append_names dir (parts path) (parts_some path))
        (create_directories-Stays device dir ns (up (parts path)) c (check_parts-up (parts path) h))

  opened-Keeps :
      (file_id : ℕ) (b : Builder) (ns : Nodes) (o : Option Location)
      → IsIsolated dir b
      → Stays dir b.nodes ns
      → OpenedBelow device dir o
      → Keeps dir b (opened device file_id b (ns, o)).0
  opened-Keeps file_id b ns none i s w = Keeps-nodes dir b ns i s
  opened-Keeps file_id b ns (some l) i s w = record {
    isolated = record {
      staging_is = i.staging_is;
      confined = s.confined;
      files =
          insert-FilesBelow dir file_id (record { location = l; offset = 0; broken = false })
            b.open_files i.files w;
    };
    same = s.same;
  }

  pub create_file-Keeps :
      (path : Bytes) (file_id : ℕ) (b : Builder)
      → IsIsolated dir b
      → Keeps dir b (create_file device path file_id b).0
  unfolding create_file open_file
  create_file-Keeps path file_id b i = guarded-Keeps path (open_file device file_id) b i (λ h.
      let full : List Bytes = dir ++ parts path in
      let made : Nodes × BoostError = create_directories device b.nodes (up full) in
      let s : Stays dir b.nodes made.0 = parents-Stays path b.nodes i.confined h in
      elim (Bool-cases (failed made.1)) [
        | inl e ↦ rw e (Keeps-nodes dir b made.0 i s)
        | inr e ↦
            let (t, w) = open_truncated-Stays device dir made.0 (parts path) s.confined h in
            rw e (
              opened-Keeps file_id b (open_truncated device made.0 full).0
                (open_truncated device made.0 full).1 i
                (Stays-trans dir b.nodes made.0 (open_truncated device made.0 full).0 s t) w)
      ])

  put-Stays :
      (offset : ℕ) (bytes : Bytes) (l : Location) (ns : Nodes)
      → IsConfined dir ns
      → is_below dir l ≡ true
      → Stays dir ns (put offset bytes l ns)
  put-Stays offset bytes l ns c b = elim (Option-cases (find l ns)) [
    | inl e ↦ rw (e, put) (Stays-refl dir ns c)
    | inr (directory, e) ↦ rw (e, put) (Stays-refl dir ns c)
    | inr (link target, e) ↦ rw (e, put) (Stays-refl dir ns c)
    | inr (regular content, e) ↦
        rw (e, put)
          (insert-Stays dir l (regular (overwrite offset bytes content)) ns c b
            (λ h. absurd (ground (arith, e))) (λ t h. absurd (ground arith)))
  ]

  stream_write-Stays :
      (bytes : Bytes) (f : OpenFile) (ns : Nodes)
      → IsConfined dir ns
      → is_below dir f.location ≡ true
      → Stays dir ns (stream_write device bytes f ns).0
        × ((stream_write device bytes f ns).1.location ≡ f.location)
  unfolding stream_write
  stream_write-Stays bytes f ns c b = elim (Bool-cases f.broken) [
    | inl e ↦ rw e (Stays-refl dir ns c, refl)
    | inr e ↦ rw e (put-Stays f.offset _ f.location ns c b, refl)
  ]

  pub write-Keeps :
      (bytes : Bytes) (file_id : ℕ) (b : Builder)
      → IsIsolated dir b
      → Keeps dir b (write device bytes file_id b).0
  unfolding write
  write-Keeps bytes file_id b i = elim (Option-cases (lookup file_id b.open_files)) [
    | inl e ↦ rw (e, write) (Keeps-nodes dir b b.nodes i (Stays-refl dir b.nodes i.confined))
    | inr (f, e) ↦
        let below : is_below dir f.location ≡ true =
          lookup-FilesBelow dir file_id f b.open_files i.files e in
        let (s, w) = stream_write-Stays bytes f b.nodes i.confined below in
        rw (e, write)
          (record {
            isolated = record {
              staging_is = i.staging_is;
              confined = s.confined;
              files =
                  insert-FilesBelow dir file_id (stream_write device bytes f b.nodes).1 b.open_files
                    i.files (ap (is_below dir) w ∙ below);
            };
            same = s.same;
          })
  ]

  pub close_file-Keeps :
      (file_id : ℕ) (b : Builder) → IsIsolated dir b → Keeps dir b (close_file device file_id b).0
  unfolding close_file
  close_file-Keeps file_id b i = elim (Option-cases (lookup file_id b.open_files)) [
    | inl e ↦ rw (e, close_file) (Keeps-nodes dir b b.nodes i (Stays-refl dir b.nodes i.confined))
    | inr (f, e) ↦
        let below : is_below dir f.location ≡ true =
          lookup-FilesBelow dir file_id f b.open_files i.files e in
        elim (Bool-cases (closes_well device f)) [
          | inl g ↦
              rw (e, close_file, g)
                (record {
                  isolated = record {
                    staging_is = i.staging_is;
                    confined = i.confined;
                    files = erase-FilesBelow dir file_id b.open_files i.files;
                  };
                  same = refl;
                })
          | inr g ↦
              rw (e, close_file, g)
                (record {
                  isolated = record {
                    staging_is = i.staging_is;
                    confined = i.confined;
                    files =
                        insert-FilesBelow dir file_id (record f { broken = true }) b.open_files
                          i.files below;
                  };
                  same = refl;
                })
        ]
  ]

  -- `cleanup` removes the staging directory and nothing else.
  pub cleanup_outside :
      (b : Builder)
      → IsIsolated dir b
      → failed (device.removal dir) ≡ false
      → (cleanup device b).nodes ≡ outside dir b.nodes
  unfolding cleanup remove_all
  cleanup_outside b i removable =
      ap (λ o. (cleaned device o b).nodes) i.staging_is
      ∙ rw (walk_itself dir b.nodes i.confined.chain, remove_all, removable) refl
