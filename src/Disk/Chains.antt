-- ===== src/Disk/Chains.antt =====
-- Name resolution along directories: it goes down part by part, and no link is met.
use mathlib.Core.List.{append_assoc, append-nil}
use file_hop_z.Base.{
  ℕ, zero, suc, ◌≡◌, refl, sym, ap, subst, ◌∙◌, Bool, true, false, ◌||◌, none, some, List, [], ◌∷◌,
  ◌++◌, ◌≢◌,
}
use file_hop_z.Base.Bytes.{Bytes}
use file_hop_z.Errors.{success, failed}
use file_hop_z.FilePath.{is_parent, is_empty_path}
use file_hop_z.Disk.{
  Node, directory, regular, link, Location, Nodes, Device, Resolved, found, absent, fails,
  too_many_symbolic_link_levels, same_location, find, node_at, insert, is_here, walk_names, walk,
  max_links,
}
use file_hop_z.Disk.Calls.{make_directories}
use file_hop_z.Disk.Laws.{
  find-append, find-insert, same_location_refl, same_location_ne, insert_absent,
}

-- A name that resolution goes down by.
abbrev pub IsOrdinary : Bytes → Type 0
IsOrdinary p = ((is_here p || is_empty_path p) ≡ false) × (is_parent p ≡ false)

-- From a directory, every part names a directory in the one before.
abbrev pub IsChain : Nodes → Location → List Bytes → Type 0
IsChain ns dir [] = Unit
IsChain ns dir (p ∷ ps) =
    IsOrdinary p × (node_at (dir ++ (p ∷ [])) ns ≡ some directory) × IsChain ns (dir ++ (p ∷ [])) ps

-- A directory stays one in the other tree.
abbrev pub KeepsDirectories : Nodes → Nodes → Type 0
KeepsDirectories ns ms =
    (l : Location) → node_at l ns ≡ some directory → node_at l ms ≡ some directory

pub IsChain-kept :
    (ns ms : Nodes) (dir : Location) (ps : List Bytes)
    → KeepsDirectories ns ms
    → IsChain ns dir ps
    → IsChain ms dir ps
IsChain-kept ns ms dir [] k c = tt
IsChain-kept ns ms dir (p ∷ ps) k (o, d, c) =
    (o, k (dir ++ (p ∷ [])) d, IsChain-kept ns ms (dir ++ (p ∷ [])) ps k c)

-- A parent is not below its child: the location with one more name is never the root.
pub node_at_child :
    (dir : Location) (p : Bytes) (ns : Nodes)
    → node_at (dir ++ (p ∷ [])) ns ≡ find (dir ++ (p ∷ [])) ns
node_at_child [] p ns = refl
node_at_child (d ∷ ds) p ns = refl

pub append-KeepsDirectories : (ns ms : Nodes) → KeepsDirectories ns (ns ++ ms)
append-KeepsDirectories ns ms [] h = refl
append-KeepsDirectories ns ms (p ∷ ps) h = rw (find-append (p ∷ ps) ns ms, h) refl

-- A node that is put where there is no directory leaves the directories as they are.
pub insert-KeepsDirectories :
    (l : Location) (n : Node) (ns : Nodes)
    → find l ns ≢ some directory
    → KeepsDirectories ns (insert l n ns)
insert-KeepsDirectories l n ns free [] h = refl
insert-KeepsDirectories l n ns free (p ∷ ps) h =
    let apart : same_location l (p ∷ ps) ≡ false =
      same_location_ne l (p ∷ ps) (λ e. free (ap (λ m. find m ns) e ∙ h)) in
    rw (find-insert (p ∷ ps) l n ns, apart) h

pub IsChain-append :
    (ns : Nodes) (dir : Location) (ps qs : List Bytes)
    → IsChain ns dir ps
    → IsChain ns (dir ++ ps) qs
    → IsChain ns dir (ps ++ qs)
IsChain-append ns dir [] qs c d = subst (λ x. IsChain ns x qs) (append-nil dir) d
IsChain-append ns dir (p ∷ ps) qs (o, e, c) d = (
  o,
  e,
  IsChain-append ns (dir ++ (p ∷ [])) ps qs c
      (subst (λ x. IsChain ns x qs) (sym (append_assoc dir (p ∷ []) ps)) d),
)

-- Resolution along a chain.
pub walk_names-chain :
    (follow : Location → List Bytes → Resolved) (ns : Nodes) (keep : Bool) (dir : Location)
    (ps qs : List Bytes)
    → IsChain ns dir ps
    → walk_names follow ns keep dir (ps ++ qs) ≡ walk_names follow ns keep (dir ++ ps) qs
unfolding walk_names
walk_names-chain follow ns keep dir [] qs c =
    ap (λ x. walk_names follow ns keep x qs) (sym (append-nil dir))
walk_names-chain follow ns keep dir (p ∷ ps) qs (o, e, c) =
    rw
      (
        o.0,
        o.1,
        e,
        walk_names-chain follow ns keep (dir ++ (p ∷ [])) ps qs c,
        append_assoc dir (p ∷ []) ps,
      )
      refl

pub walk-chain :
    (links : ℕ) (ns : Nodes) (keep : Bool) (dir : Location) (ps qs : List Bytes)
    → IsChain ns dir ps
    → walk links ns keep dir (ps ++ qs) ≡ walk links ns keep (dir ++ ps) qs
unfolding walk
walk-chain zero ns keep dir ps qs c =
    walk_names-chain (λ dir names. fails too_many_symbolic_link_levels) ns keep dir ps qs c
walk-chain (suc links) ns keep dir ps qs c =
    walk_names-chain (walk links ns keep) ns keep dir ps qs c

-- Resolution of one name in a directory.
pub walk_directory :
    (links : ℕ) (ns : Nodes) (keep : Bool) (dir : Location) (p : Bytes)
    → IsOrdinary p
    → node_at (dir ++ (p ∷ [])) ns ≡ some directory
    → walk links ns keep dir (p ∷ []) ≡ found (dir ++ (p ∷ [])) directory
unfolding walk walk_names
walk_directory zero ns keep dir p o e = rw (o.0, o.1, e) refl
walk_directory (suc links) ns keep dir p o e = rw (o.0, o.1, e) refl

pub walk_free :
    (links : ℕ) (ns : Nodes) (keep : Bool) (dir : Location) (p : Bytes)
    → IsOrdinary p
    → node_at (dir ++ (p ∷ [])) ns ≡ none
    → walk links ns keep dir (p ∷ []) ≡ absent (dir ++ (p ∷ []))
unfolding walk walk_names
walk_free zero ns keep dir p o e = rw (o.0, o.1, e) refl
walk_free (suc links) ns keep dir p o e = rw (o.0, o.1, e) refl

pub walk_regular :
    (links : ℕ) (ns : Nodes) (keep : Bool) (dir : Location) (p content : Bytes)
    → IsOrdinary p
    → node_at (dir ++ (p ∷ [])) ns ≡ some (regular content)
    → walk links ns keep dir (p ∷ []) ≡ found (dir ++ (p ∷ [])) (regular content)
unfolding walk walk_names
walk_regular zero ns keep dir p content o e = rw (o.0, o.1, e) refl
walk_regular (suc links) ns keep dir p content o e = rw (o.0, o.1, e) refl

pub walk_link :
    (links : ℕ) (ns : Nodes) (dir : Location) (p target : Bytes)
    → IsOrdinary p
    → node_at (dir ++ (p ∷ [])) ns ≡ some (link target)
    → walk links ns true dir (p ∷ []) ≡ found (dir ++ (p ∷ [])) (link target)
unfolding walk walk_names
walk_link zero ns dir p target o e = rw (o.0, o.1, e) refl
walk_link (suc links) ns dir p target o e = rw (o.0, o.1, e) refl

-- A name's node, where its own link is not followed.
pub walk_node :
    (links : ℕ) (ns : Nodes) (dir : Location) (p : Bytes) (n : Node)
    → IsOrdinary p
    → node_at (dir ++ (p ∷ [])) ns ≡ some n
    → walk links ns true dir (p ∷ []) ≡ found (dir ++ (p ∷ [])) n
walk_node links ns dir p directory o e = walk_directory links ns true dir p o e
walk_node links ns dir p (regular content) o e = walk_regular links ns true dir p content o e
walk_node links ns dir p (link target) o e = walk_link links ns dir p target o e

module _ (device : Device) where
  make_directories_step :
      (ns : Nodes) (dir : Location) (p : Bytes) (ps : List Bytes)
      → IsOrdinary p
      → node_at (dir ++ (p ∷ [])) ns ≡ some directory
      → make_directories device ns dir (p ∷ ps) ≡ make_directories device ns (dir ++ (p ∷ [])) ps
  unfolding make_directories
  make_directories_step ns dir p ps o e =
      rw (walk_directory max_links ns false dir p o e, make_directories) refl

  -- Directories that are there are passed.
  pub make_directories-chain :
      (ns : Nodes) (dir : Location) (ps qs : List Bytes)
      → IsChain ns dir ps
      → make_directories device ns dir (ps ++ qs) ≡ make_directories device ns (dir ++ ps) qs
  unfolding make_directories
  make_directories-chain ns dir [] qs c =
      ap (λ x. make_directories device ns x qs) (sym (append-nil dir))
  make_directories-chain ns dir (p ∷ ps) qs (o, e, c) =
      make_directories_step ns dir p (ps ++ qs) o e
      ∙ make_directories-chain ns (dir ++ (p ∷ [])) ps qs c
      ∙ ap (λ x. make_directories device ns x qs) (append_assoc dir (p ∷ []) ps)

  -- A free name is made a directory, if the device permits it.
  pub make_directories_free :
      (ns : Nodes) (dir : Location) (p : Bytes)
      → IsOrdinary p
      → node_at (dir ++ (p ∷ [])) ns ≡ none
      → failed (device.creation (dir ++ (p ∷ []))) ≡ false
      → make_directories device ns dir (p ∷ [])
        ≡ (ns ++ ((dir ++ (p ∷ []), directory) ∷ []), success)
  unfolding make_directories
  make_directories_free ns dir p o e permitted =
      let free : find (dir ++ (p ∷ [])) ns ≡ none = sym (node_at_child dir p ns) ∙ e in
      rw
        (
          walk_free max_links ns false dir p o e,
          make_directories,
          same_location_refl (dir ++ (p ∷ [])),
          permitted,
          insert_absent (dir ++ (p ∷ [])) directory ns free,
        )
        refl
