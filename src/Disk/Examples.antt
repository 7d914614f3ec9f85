-- ===== src/Disk/Examples.antt =====
-- Resolution on a small tree.
use file_hop_z.Base.{◌≡◌, refl, [], ◌∷◌}
use file_hop_z.Base.Bytes.{codes}
use file_hop_z.FilePath.{pieces}
use file_hop_z.Disk.{
  Nodes, directory, regular, link, found, absent, fails, resolve, resolve_link, walk, walk_names,
  find, same_name, same_location, no_such_file_or_directory, not_a_directory,
  too_many_symbolic_link_levels, overwrite,
}

-- /d, /d/f, /up -> .., /l -> d/f, /a -> /l, /loop -> loop
abbrev tree : Nodes
tree =
    (codes "d" ∷ [], directory)
    ∷ ((codes "d" ∷ codes "f" ∷ [], regular (1 ∷ []))
        ∷ ((codes "d" ∷ codes "up" ∷ [], link (codes ".."))
            ∷ ((codes "l" ∷ [], link (codes "d/f"))
                ∷ ((codes "a" ∷ [], link (codes "/l"))
                    ∷ ((codes "loop" ∷ [], link (codes "loop")) ∷ [])))))

resolve_through :
    resolve tree (codes "a" ∷ []) ≡ found (codes "d" ∷ codes "f" ∷ []) (regular (1 ∷ []))
unfolding walk walk_names find same_location same_name pieces
resolve_through = refl

resolve_up : resolve tree (codes "d" ∷ codes "up" ∷ codes "x" ∷ []) ≡ absent (codes "x" ∷ [])
unfolding walk walk_names find same_location same_name pieces
resolve_up = refl

resolve_link_itself :
    resolve_link tree (codes "l" ∷ []) ≡ found (codes "l" ∷ []) (link (codes "d/f"))
unfolding walk walk_names find same_location same_name
resolve_link_itself = refl

resolve_loop : resolve tree (codes "loop" ∷ []) ≡ fails too_many_symbolic_link_levels
unfolding walk walk_names find same_location same_name pieces
resolve_loop = refl

resolve_missing : resolve tree (codes "n" ∷ codes "f" ∷ []) ≡ fails no_such_file_or_directory
unfolding walk walk_names find same_location same_name
resolve_missing = refl

resolve_file : resolve tree (codes "l" ∷ codes "f" ∷ []) ≡ fails not_a_directory
unfolding walk walk_names find same_location same_name pieces
resolve_file = refl

overwrite_gap : overwrite 3 (7 ∷ []) (1 ∷ []) ≡ 1 ∷ 0 ∷ 0 ∷ 7 ∷ []
unfolding overwrite
overwrite_gap = refl
