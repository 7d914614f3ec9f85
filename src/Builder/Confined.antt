-- ===== src/Builder/Confined.antt =====
-- src/utils/file_builder.cpp before `commit`: as long as no link is staged, nothing outside of the
-- staging directory changes.
use mathlib.Core.List.{append_assoc}
use file_hop_z.Base.{
  ℕ, zero, suc, ◌≡◌, ◌≢◌, ◌⊎◌, refl, sym, ap, ◌∙◌, Bool, true, false, ◌||◌, Option, none, some,
  List, [], ◌∷◌, ◌++◌, Bool-cases, Option-cases, inl, inr, arith,
}
use file_hop_z.Base.Bytes.{Bytes}
use file_hop_z.Errors.{failed}
use file_hop_z.FilePath.{is_empty_path, check_parts}
use file_hop_z.Disk.{
  Node, directory, regular, link, Location, Nodes, Resolved, found, absent, fails,
  too_many_symbolic_link_levels, strip, is_below, is_here, is_last, find, node_at, insert, outside,
  same_location, walk_names, walk,
}
use file_hop_z.Disk.Laws.{same_location_sound, strip-append, strip_sound, find-insert}
use file_hop_z.Disk.Parts.{check_parts_cons}
use file_hop_z.Disk.Chains.{IsChain, IsChain-kept, insert-KeepsDirectories, node_at_child}

-- The staging directory is reached without links, and there are none below it.
pub record IsConfined (dir : Location) (ns : Nodes) : Type 0 where
  pub chain : IsChain ns [] dir
  pub no_links : (l : Location) (t : Bytes) → is_below dir l ≡ true → find l ns ≡ some (link t) → ⊥

is_below_iff : (dir l : Location) → is_below dir l ≡ true → (rest : Location) × (l ≡ dir ++ rest)
is_below_iff dir l h = elim (Option-cases (strip dir l)) [
  | inl e ↦ let outside : is_below dir l ≡ false = rw (e, is_below) refl in absurd (ground arith)
  | inr (rest, e) ↦ (rest, strip_sound dir l rest e)
]

pub is_below-append : (dir rest : Location) → is_below dir (dir ++ rest) ≡ true
is_below-append dir rest = rw (strip-append dir rest, is_below) refl

is_below_child :
    (dir l : Location) (p : Bytes) → is_below dir l ≡ true → is_below dir (l ++ (p ∷ [])) ≡ true
is_below_child dir l p h =
    let (rest, e) = is_below_iff dir l h in
    rw (e, append_assoc dir rest (p ∷ [])) (is_below-append dir (rest ++ (p ∷ [])))

-- A change below a directory is none outside.
pub outside-insert :
    (dir l : Location) (n : Node) (ns : Nodes)
    → is_below dir l ≡ true
    → outside dir (insert l n ns) ≡ outside dir ns
unfolding outside insert
outside-insert dir l n [] h = rw h refl
outside-insert dir l n ((m, o) ∷ ns) h = elim (Bool-cases (same_location m l)) [
  | inl e ↦
      let below : is_below dir m ≡ true = ap (is_below dir) (same_location_sound m l e) ∙ h in
      rw (e, h, below) refl
  | inr e ↦ elim (Bool-cases (is_below dir m)) [
    | inl f ↦ rw (e, f) (outside-insert dir l n ns h)
    | inr f ↦ rw (e, f) (ap (◌∷◌ (m, o)) (outside-insert dir l n ns h))
  ]
]

-- Where resolution ends: below the directory, and with what is there.
abbrev pub IsWithin : Location → Nodes → Resolved → Type 0
IsWithin dir ns (found l n) = (is_below dir l ≡ true) × (node_at l ns ≡ some n)
IsWithin dir ns (absent l) = (is_below dir l ≡ true) × (find l ns ≡ none)
IsWithin dir ns (fails ec) = Unit

Node-cases :
    (o : Option Node)
    → (o ≡ none)
      ⊎ ((o ≡ some directory)
          ⊎ (((content : Bytes) × (o ≡ some (regular content)))
              ⊎ ((target : Bytes) × (o ≡ some (link target)))))
Node-cases none = inl refl
Node-cases (some directory) = inr (inl refl)
Node-cases (some (regular content)) = inr (inr (inl (content, refl)))
Node-cases (some (link target)) = inr (inr (inr (target, refl)))

some_inj : (m n : Node) → some m ≡ some n → m ≡ n
some_inj m n h = ground arith

module _ (dir : Location) (ns : Nodes) (c : IsConfined dir ns) where
  pub walk_names-IsWithin :
      (follow : Location → List Bytes → Resolved) (keep : Bool) (at : Location) (names : List Bytes)
      → failed (check_parts names) ≡ false
      → is_below dir at ≡ true
      → node_at at ns ≡ some directory
      → IsWithin dir ns (walk_names follow ns keep at names)
  unfolding walk_names
  walk_names-IsWithin follow keep at [] h b n = (b, n)
  walk_names-IsWithin follow keep at (p ∷ ps) h b n =
      let (not_parent, later) = check_parts_cons p ps h in
      let below : is_below dir (at ++ (p ∷ [])) ≡ true = is_below_child dir at p b in
      elim (Bool-cases (is_here p || is_empty_path p)) [
        | inl e ↦ rw e (walk_names-IsWithin follow keep at ps later b n)
        | inr e ↦ elim (Node-cases (node_at (at ++ (p ∷ [])) ns)) [
          | inl f ↦
              rw (e, not_parent, f)
                (elim (Bool-cases (is_last ps)) [
                  | inl g ↦ rw g (below, sym (node_at_child at p ns) ∙ f)
                  | inr g ↦ rw g tt
                ])
          | inr (inl f) ↦
              rw (e, not_parent, f)
                (walk_names-IsWithin follow keep (at ++ (p ∷ [])) ps later below f)
          | inr (inr (inl (content, f))) ↦
              rw (e, not_parent, f)
                (elim (Bool-cases (is_last ps)) [ inl g ↦ rw g (below, f) | inr g ↦ rw g tt ])
          | inr (inr (inr (target, f))) ↦
              absurd (c.no_links (at ++ (p ∷ [])) target below (sym (node_at_child at p ns) ∙ f))
        ]
      ]

  pub walk-IsWithin :
      (links : ℕ) (keep : Bool) (at : Location) (names : List Bytes)
      → failed (check_parts names) ≡ false
      → is_below dir at ≡ true
      → node_at at ns ≡ some directory
      → IsWithin dir ns (walk links ns keep at names)
  unfolding walk
  walk-IsWithin zero keep at names h b n =
      walk_names-IsWithin (λ dir names. fails too_many_symbolic_link_levels) keep at names h b n
  walk-IsWithin (suc links) keep at names h b n =
      walk_names-IsWithin (walk links ns keep) keep at names h b n

  -- A node that is no link, below the directory where no directory is, keeps everything confined.
  pub insert-IsConfined :
      (l : Location) (n : Node)
      → find l ns ≢ some directory
      → ((t : Bytes) → n ≢ link t)
      → IsConfined dir (insert l n ns)
  insert-IsConfined l n free plain = record {
    chain = IsChain-kept ns (insert l n ns) [] dir (insert-KeepsDirectories l n ns free) c.chain;
    no_links = λ m t b h. elim (Bool-cases (same_location l m)) [
      | inl e ↦
          let same : find m (insert l n ns) ≡ some n = rw (find-insert m l n ns, e) refl in
          absurd (plain t (some_inj n (link t) (sym same ∙ h)))
      | inr e ↦
          let same : find m (insert l n ns) ≡ find m ns = rw (find-insert m l n ns, e) refl in
          absurd (c.no_links m t b (sym same ∙ h))
    ];
  }

-- A change of the tree that stays within the directory.
pub record Stays (dir : Location) (ns ms : Nodes) : Type 0 where
  pub same : outside dir ms ≡ outside dir ns
  pub confined : IsConfined dir ms

pub Stays-refl : (dir : Location) (ns : Nodes) → IsConfined dir ns → Stays dir ns ns
Stays-refl dir ns c = record { same = refl; confined = c }

pub Stays-trans :
    (dir : Location) (ns ms ks : Nodes) → Stays dir ns ms → Stays dir ms ks → Stays dir ns ks
Stays-trans dir ns ms ks s t = record { same = t.same ∙ s.same; confined = t.confined }

pub insert-Stays :
    (dir l : Location) (n : Node) (ns : Nodes)
    → IsConfined dir ns
    → is_below dir l ≡ true
    → find l ns ≢ some directory
    → ((t : Bytes) → n ≢ link t)
    → Stays dir ns (insert l n ns)
insert-Stays dir l n ns c b free plain = record {
  same = outside-insert dir l n ns b;
  confined = insert-IsConfined dir ns c l n free plain;
}
