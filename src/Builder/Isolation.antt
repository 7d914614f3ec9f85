-- ===== src/Builder/Isolation.antt =====
-- The operations of src/utils/file_builder.cpp before `commit` change nothing outside of the
-- staging directory, as long as no link is staged, and `cleanup` then leaves what was there.
use mathlib.Core.List.{append_assoc, append-nil}
use file_hop_z.Base.{
  ◌≡◌, ◌≢◌, refl, subst, Bool, true, false, Option, none, some, List, [], ◌∷◌, ◌++◌, if◌then◌else◌,
  Bool-cases, inl, inr, arith,
}
use file_hop_z.Base.Bytes.{Bytes}
use file_hop_z.Errors.{failed}
use file_hop_z.FilePath.{check_parts}
use file_hop_z.Disk.{
  Node, directory, regular, link, Location, Nodes, Device, Resolved, found, absent, fails, is_below,
  find, node_at, outside, same_location, walk, max_links, up,
}
use file_hop_z.Disk.Calls.{make_directories, open_truncated, create_directories, create_at}
use file_hop_z.Disk
use file_hop_z.Disk.Laws.{find-insert, same_location_refl}
use file_hop_z.Disk.Chains.{IsChain, walk-chain, make_directories-chain}
use file_hop_z.Disk.Parts.{check_parts_cons, check_parts_one}
use file_hop_z.Builder.Confined.{
  IsConfined, IsWithin, walk-IsWithin, Stays, Stays-refl, Stays-trans, insert-Stays,
  is_below-append,
}

-- After it is created, a directory is there; the root always was.
node_at_created :
    (l : Location) (ns : Nodes) → node_at l (Disk.insert l directory ns) ≡ some directory
node_at_created [] ns = refl
node_at_created (p ∷ ps) ns =
    rw (find-insert (p ∷ ps) (p ∷ ps) directory ns, same_location_refl (p ∷ ps)) refl

is_below_itself : (dir : Location) → is_below dir dir ≡ true
is_below_itself dir = subst (λ l. is_below dir l ≡ true) (append-nil dir) (is_below-append dir [])

pub node_at_end :
    (ns : Nodes) (at : Location) (ps : List Bytes)
    → node_at at ns ≡ some directory
    → IsChain ns at ps
    → node_at (at ++ ps) ns ≡ some directory
node_at_end ns at [] h c = rw (append-nil at) h
node_at_end ns at (p ∷ ps) h (o, e, c) =
    rw (← append_assoc at (p ∷ []) ps) (node_at_end ns (at ++ (p ∷ [])) ps e c)

regular_not_directory :
    (ns : Nodes) (l : Location) (content : Bytes)
    → node_at l ns ≡ some (regular content)
    → find l ns ≢ some directory
regular_not_directory ns [] content h e = absurd (ground arith)
regular_not_directory ns (p ∷ ps) content h e = absurd (ground arith)

module _ (device : Device) (dir : Location) where
  -- What `make_directories` does after the walk to the first part.
  after_walk :
      (ns : Nodes) (at : Location) (p : Bytes) (ps : List Bytes) (r : Resolved)
      → IsConfined dir ns
      → walk max_links ns false at (p ∷ []) ≡ r
      → IsWithin dir ns r
      → ((ms : Nodes) (l : Location)
          → IsConfined dir ms
          → is_below dir l ≡ true
          → node_at l ms ≡ some directory
          → Stays dir ms (make_directories device ms l ps).0)
      → Stays dir ns (make_directories device ns at (p ∷ ps)).0
  unfolding make_directories
  after_walk ns at p ps (found l directory) c e w go = rw (e, make_directories) (go ns l c w.0 w.1)
  after_walk ns at p ps (found l (regular content)) c e w go =
      rw (e, make_directories) (Stays-refl dir ns c)
  after_walk ns at p ps (found l (link target)) c e w go =
      rw (e, make_directories) (Stays-refl dir ns c)
  after_walk ns at p ps (fails ec) c e w go = rw (e, make_directories) (Stays-refl dir ns c)
  after_walk ns at p ps (absent l) c e w go = elim (Bool-cases (same_location l (at ++ (p ∷ [])))) [
    | inr f ↦ rw (e, make_directories, f) (Stays-refl dir ns c)
    | inl f ↦ elim (Bool-cases (failed (device.creation l))) [
      | inl g ↦ rw (e, make_directories, f, g) (Stays-refl dir ns c)
      | inr g ↦
          let s : Stays dir ns (Disk.insert l directory ns) =
            insert-Stays dir l directory ns c w.0 (λ h. absurd (ground (arith, w.1)))
              (λ t h. absurd (ground arith)) in
          rw (e, make_directories, f, g)
            (Stays-trans dir ns (Disk.insert l directory ns) _ s
              (go (Disk.insert l directory ns) l s.confined w.0 (node_at_created l ns)))
    ]
  ]

  pub make_directories-Stays :
      (ns : Nodes) (at : Location) (names : List Bytes)
      → IsConfined dir ns
      → is_below dir at ≡ true
      → node_at at ns ≡ some directory
      → failed (check_parts names) ≡ false
      → Stays dir ns (make_directories device ns at names).0
  unfolding make_directories check_parts
  make_directories-Stays ns at [] c b n h = Stays-refl dir ns c
  make_directories-Stays ns at (p ∷ ps) c b n h =
      let later : failed (check_parts ps) ≡ false = (check_parts_cons p ps h).1 in
      after_walk ns at p ps (walk max_links ns false at (p ∷ [])) c refl
        (walk-IsWithin dir ns c max_links false at (p ∷ []) (check_parts_one p ps h) b n)
        (λ ms l c' b' n'. make_directories-Stays ms l ps c' b' n' later)

  -- A path below the directory.
  pub create_directories-Stays :
      (ns : Nodes) (names : List Bytes)
      → IsConfined dir ns
      → failed (check_parts names) ≡ false
      → Stays dir ns (create_directories device ns (dir ++ names)).0
  create_directories-Stays ns names c h =
      rw (make_directories-chain device ns [] dir names c.chain) (
        make_directories-Stays ns dir names c (is_below_itself dir)
          (node_at_end ns [] dir refl c.chain) h)

  -- Where a stream opens.
  abbrev pub OpenedBelow : Option Location → Type 0
  OpenedBelow none = Unit
  OpenedBelow (some l) = is_below dir l ≡ true

  created-Stays :
      (ns : Nodes) (l : Location) (n : Node)
      → IsConfined dir ns
      → is_below dir l ≡ true
      → find l ns ≢ some directory
      → ((t : Bytes) → n ≢ link t)
      → Stays dir ns (create_at device l n ns).0
  created-Stays ns l n c b free plain = elim (Bool-cases (failed (device.creation l))) [
    | inl e ↦ rw e (Stays-refl dir ns c)
    | inr e ↦ rw e (insert-Stays dir l n ns c b free plain)
  ]

  -- The walk to a path below the directory.
  walk_below :
      (ns : Nodes) (keep : Bool) (names : List Bytes)
      → IsConfined dir ns
      → failed (check_parts names) ≡ false
      → IsWithin dir ns (walk max_links ns keep [] (dir ++ names))
  walk_below ns keep names c h = rw (walk-chain max_links ns keep [] dir names c.chain) (
      walk-IsWithin dir ns c max_links keep dir names h (is_below_itself dir)
        (node_at_end ns [] dir refl c.chain))

  opened_if :
      (refused : Bool) (l : Location)
      → is_below dir l ≡ true
      → OpenedBelow (if refused then none else some l)
  opened_if true l b = tt
  opened_if false l b = b

  after_resolution :
      (ns : Nodes) (full : List Bytes) (r : Resolved)
      → IsConfined dir ns
      → walk max_links ns false [] full ≡ r
      → IsWithin dir ns r
      → Stays dir ns (open_truncated device ns full).0
        × OpenedBelow (open_truncated device ns full).1
  unfolding open_truncated
  after_resolution ns full (found l directory) c e w =
      rw (e, open_truncated) (Stays-refl dir ns c, tt)
  after_resolution ns full (found l (regular content)) c e w =
      rw (e, open_truncated)
        (
          created-Stays ns l (regular []) c w.0 (regular_not_directory ns l content w.1)
              (λ t h. absurd (ground arith)),
          opened_if (failed (create_at device l (regular []) ns).1) l w.0,
        )
  after_resolution ns full (found l (link target)) c e w =
      rw (e, open_truncated) (Stays-refl dir ns c, tt)
  after_resolution ns full (fails ec) c e w = rw (e, open_truncated) (Stays-refl dir ns c, tt)
  after_resolution ns full (absent l) c e w =
      rw (e, open_truncated)
        (
          created-Stays ns l (regular []) c w.0 (λ h. absurd (ground (arith, w.1)))
              (λ t h. absurd (ground arith)),
          opened_if (failed (create_at device l (regular []) ns).1) l w.0,
        )

  pub open_truncated-Stays :
      (ns : Nodes) (names : List Bytes)
      → IsConfined dir ns
      → failed (check_parts names) ≡ false
      → Stays dir ns (open_truncated device ns (dir ++ names)).0
        × OpenedBelow (open_truncated device ns (dir ++ names)).1
  open_truncated-Stays ns names c h =
      after_resolution ns (dir ++ names) (walk max_links ns false [] (dir ++ names)) c refl
        (walk_below ns false names c h)
