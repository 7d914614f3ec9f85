-- ===== src/Walker/Examples.antt =====
-- Walks over a small directory and over a single file.
use file_hop_z.Base.{◌≡◌, refl, List, [], ◌∷◌, arith}
use file_hop_z.Base.Bytes.{codes}
use file_hop_z.Disk.{same_name}
use file_hop_z.Walker.{
  regular_file, directory_file, symlink_file, other_file, WalkEntry, file_walker, reset, mismatch,
  relative_rest, walk_all,
}
use file_hop_z.Walker.Order.{expected_walk, supported, walk_all-reset}

-- A directory with a file, a pipe, which is passed over, and a link.
abbrev listing : List WalkEntry
listing =
    (codes "d" ∷ [], directory_file)
    ∷ ((codes "d" ∷ codes "f" ∷ [], regular_file)
        ∷ ((codes "pipe" ∷ [], other_file) ∷ ((codes "l" ∷ [], symlink_file) ∷ [])))

pipe_is_passed :
    supported listing ≡ (codes "d" ∷ []) ∷ ((codes "d" ∷ codes "f" ∷ []) ∷ ((codes "l" ∷ []) ∷ []))
pipe_is_passed = refl

-- Two paths that part: one up, and down again.
relative_rest_up :
    relative_rest (mismatch (codes "a" ∷ codes "b" ∷ []) (codes "a" ∷ codes "c" ∷ []))
    ≡ codes ".." ∷ codes "b" ∷ []
unfolding same_name
relative_rest_up = refl

walk_all-reset_example :
    ((walk_all 9 (file_walker directory_file listing (codes "in" ∷ codes "" ∷ []))).0
      ≡ expected_walk directory_file listing (codes "in" ∷ codes "" ∷ []))
    × ((walk_all 9 (
          reset []
            (walk_all 9 (file_walker directory_file listing (codes "in" ∷ codes "" ∷ []))).1)).0
        ≡ expected_walk directory_file [] (codes "in" ∷ codes "" ∷ []))
walk_all-reset_example =
    walk_all-reset 9 directory_file listing [] (codes "in" ∷ codes "" ∷ [])
      (refl, (refl, (refl, (refl, tt)))) tt (omega arith) (omega arith)
