-- ===== src/Builder/Commit/Steps.antt =====
-- The tree between two turns of the loop of `commit` of src/utils/file_builder.cpp.
use mathlib.Core.List.{append_assoc, append-nil}
use file_hop_z.Base.{
  ◌≡◌, refl, sym, ap, subst, ◌∙◌, true, false, Option, none, some, List, [], ◌∷◌, ◌++◌,
  Option-cases, inl, inr, arith,
}
use file_hop_z.Base.Bytes.{Bytes}
use file_hop_z.Disk.{
  Node, directory, Location, Nodes, find, is_below, remove, walk, max_links, found, absent,
}
use file_hop_z.Disk.Laws.{or_else, find-append, same_location_refl}
use file_hop_z.Disk.Chains.{
  IsOrdinary, IsChain, IsChain-kept, KeepsDirectories, node_at_child, walk-chain, walk_node,
}
use file_hop_z.Builder.Staging.{IsFree, child, resolve_free}
use file_hop_z.Builder.Commit.{
  Items, under, only_directories, IsApart, under-append, only_directories-append, find-under_apart,
  find-IsApart, find-only_directories, find-only_directories-none, remove-append,
}

-- Where neither part has something, or where it must be.
pub or_else-none : (o q : Option Node) → or_else o q ≡ none → (o ≡ none) × (q ≡ none)
or_else-none none q h = (refl, h)
or_else-none (some n) q h = absurd (ground arith)

abbrev pub FindNeither : Location → Nodes → Nodes → Type 0
FindNeither l ns ms = (find l ns ≡ none) × (find l ms ≡ none)

pub find-append-none :
    (l : Location) (ns ms : Nodes) → find l (ns ++ ms) ≡ none → FindNeither l ns ms
find-append-none l ns ms h = or_else-none (find l ns) (find l ms) (sym (find-append l ns ms) ∙ h)

pub find-append_absent :
    (l : Location) (ns ms : Nodes) → find l ns ≡ none → find l (ns ++ ms) ≡ find l ms
find-append_absent l ns ms h = find-append l ns ms ∙ ap (λ o. or_else o (find l ms)) h

pub find-append_there :
    (l : Location) (n : Node) (ns ms : Nodes) → find l ns ≡ some n → find l (ns ++ ms) ≡ some n
find-append_there l n ns ms h = find-append l ns ms ∙ ap (λ o. or_else o (find l ms)) h

-- The walk to something that is not a link on the way.
pub walk_there :
    (ns : Nodes) (dir : Location) (name : Bytes) (n : Node)
    → IsChain ns [] dir
    → IsOrdinary name
    → find (child dir name) ns ≡ some n
    → walk max_links ns true [] (child dir name) ≡ found (child dir name) n
walk_there ns dir name n c o h =
    walk-chain max_links ns true [] dir (name ∷ []) c
    ∙ walk_node max_links ns dir name n o (node_at_child dir name ns ∙ h)

-- A place below a directory that is free among nodes.
pub record IsPlaceIn (at : List Bytes) (ns : Nodes) (names : List Bytes) : Type 0 where
  pub dir : List Bytes
  pub name : Bytes
  pub place : at ++ names ≡ child dir name
  pub free : IsFree ns dir name

-- The tree as the staging directory was made.
abbrev pub begun : Location → Nodes → Nodes
begun staging base = base ++ ((staging, directory) ∷ [])

module _ (root staging : List Bytes) (base : Nodes) where
  -- The tree when some entries are in place and the rest is staged. Staged directories stay.
  abbrev pub midway : Items → Items → Nodes
  midway done rest =
      (begun staging base)
      ++ (under staging (only_directories done) ++ (under staging rest ++ under root done))

  -- What a turn relies on.
  pub record IsDue (done : Items) (names : List Bytes) : Type 0 where
    pub staged_place : IsPlaceIn staging ((begun staging base) ++ under staging done) names
    pub final_place : IsPlaceIn root (base ++ under root done) names
    pub apart : is_below staging (root ++ names) ≡ false

  module _ (apart_base : IsApart staging base) (done : Items)
      (apart_done : IsApart staging (under root done)) where
    pub keeps_staged :
        (rest : Items)
        → KeepsDirectories ((begun staging base) ++ under staging done) (midway done rest)
    keeps_staged rest [] h = refl
    keeps_staged rest (p ∷ ps) h = elim (Option-cases (find (p ∷ ps) (begun staging base))) [
      | inl e ↦
          find-append_absent (p ∷ ps) (begun staging base) _ e
          ∙ find-append_there (p ∷ ps) directory (under staging (only_directories done)) _ (
              find-only_directories (p ∷ ps) staging done
                (sym (find-append_absent (p ∷ ps) (begun staging base) (under staging done) e) ∙ h))
      | inr (n, e) ↦
          find-append_there (p ∷ ps) n (begun staging base) _ e
          ∙ (sym (find-append_there (p ∷ ps) n (begun staging base) (under staging done) e) ∙ h)
    ]

    pub find-staging :
        (l : Location) → is_below staging l ≡ false → find l ((staging, directory) ∷ []) ≡ none
    find-staging l a =
        subst (λ m. find l ((m, directory) ∷ []) ≡ none) (append-nil staging)
          (find-under_apart l staging (([], directory) ∷ []) a)

    pub apart_rest :
        (l : Location) (rest : Items)
        → is_below staging l ≡ false
        → find l base ≡ none
        → find l (midway done rest) ≡ find l (under root done)
    apart_rest l rest a e =
        find-append_absent l (begun staging base) _
          (find-append_absent l base _ e ∙ find-staging l a)
        ∙ (find-append_absent l (under staging (only_directories done)) _
              (find-under_apart l staging (only_directories done) a)
            ∙ find-append_absent l (under staging rest) _ (find-under_apart l staging rest a))

    pub keeps_final : (rest : Items) → KeepsDirectories (base ++ under root done) (midway done rest)
    keeps_final rest [] h = refl
    keeps_final rest (p ∷ ps) h = elim (Option-cases (find (p ∷ ps) base)) [
      | inl e ↦
          let there : find (p ∷ ps) (under root done) ≡ some directory =
            sym (find-append_absent (p ∷ ps) base (under root done) e) ∙ h in
          apart_rest (p ∷ ps) rest
            (find-IsApart (p ∷ ps) staging directory (under root done) apart_done there) e
          ∙ there
      | inr (n, e) ↦
          find-append_there (p ∷ ps) n (begun staging base) _
            (find-append_there (p ∷ ps) n base _ e)
          ∙ (sym (find-append_there (p ∷ ps) n base (under root done) e) ∙ h)
    ]

    -- The entry whose turn it is is found where it was staged.
    pub staged_there :
        (names : List Bytes) (n : Node) (rest : Items)
        → find (staging ++ names) ((begun staging base) ++ under staging done) ≡ none
        → find (staging ++ names) (midway done ((names, n) ∷ rest)) ≡ some n
    unfolding find
    staged_there names n rest h =
        let (no_base, no_done) =
          find-append-none (staging ++ names) (begun staging base) (under staging done) h in
        find-append_absent (staging ++ names) (begun staging base) _ no_base
        ∙ (find-append_absent (staging ++ names) (under staging (only_directories done)) _
              (find-only_directories-none (staging ++ names) staging done no_done)
            ∙ rw (same_location_refl (staging ++ names)) refl)

    pub final_free :
        (names : List Bytes) (rest : Items)
        → is_below staging (root ++ names) ≡ false
        → find (root ++ names) (base ++ under root done) ≡ none
        → find (root ++ names) (midway done rest) ≡ none
    final_free names rest a h =
        let (no_base, no_done) = find-append-none (root ++ names) base (under root done) h in
        apart_rest (root ++ names) rest a no_base ∙ no_done

    -- With an entry in place, the tree is that of the next turn.
    pub midway_directory :
        (names : List Bytes) (rest : Items)
        → midway done ((names, directory) ∷ rest) ++ ((root ++ names, directory) ∷ [])
          ≡ midway (done ++ ((names, directory) ∷ [])) rest
    midway_directory names rest =
        simp
          (
            only_directories-append done ((names, directory) ∷ []),
            under-append staging (only_directories done) ((names, directory) ∷ []),
            under-append root done ((names, directory) ∷ []),
            append_assoc,
          )
          refl

    pub midway_file :
        (names : List Bytes) (n : Node) (rest : Items)
        → only_directories ((names, n) ∷ []) ≡ []
        → midway done rest ++ ((root ++ names, n) ∷ []) ≡ midway (done ++ ((names, n) ∷ [])) rest
    midway_file names n rest f =
        simp
          (
            only_directories-append done ((names, n) ∷ []),
            f,
            append-nil,
            under-append root done ((names, n) ∷ []),
            append_assoc,
          )
          refl

    pub midway_removed :
        (names : List Bytes) (n : Node) (rest : Items)
        → find (staging ++ names) ((begun staging base) ++ under staging done) ≡ none
        → remove (staging ++ names) (midway done ((names, n) ∷ rest)) ≡ midway done rest
    midway_removed names n rest h =
        let (no_base, no_done) =
          find-append-none (staging ++ names) (begun staging base) (under staging done) h in
        let dirs : Nodes = under staging (only_directories done) in
        let ms : Nodes = under staging rest ++ under root done in
        ap (remove (staging ++ names))
          (sym (append_assoc (begun staging base) dirs ((staging ++ names, n) ∷ ms)))
        ∙ (remove-append (staging ++ names) n ((begun staging base) ++ dirs) ms (
              find-append_absent (staging ++ names) (begun staging base) dirs no_base
              ∙ find-only_directories-none (staging ++ names) staging done no_done)
            ∙ append_assoc (begun staging base) dirs ms)

    module _ (names : List Bytes) (due : IsDue done names) where
      pub staged_walk :
          (n : Node) (rest : Items)
          → walk max_links (midway done ((names, n) ∷ rest)) true [] (staging ++ names)
            ≡ found (staging ++ names) n
      staged_walk n rest =
          let p : IsPlaceIn staging ((begun staging base) ++ under staging done) names =
            due.staged_place in
          let ns : Nodes = midway done ((names, n) ∷ rest) in
          subst (λ l. (find l ns ≡ some n) → walk max_links ns true [] l ≡ found l n) (sym p.place)
            (walk_there ns p.dir p.name n
              (IsChain-kept ((begun staging base) ++ under staging done) ns [] p.dir
                (keeps_staged ((names, n) ∷ rest)) p.free.chain)
              p.free.ordinary)
            (staged_there names n rest
              (ap (λ l. find l ((begun staging base) ++ under staging done)) p.place ∙ p.free.free))

      pub final-IsFree :
          (rest : Items) → IsFree (midway done rest) due.final_place.dir due.final_place.name
      final-IsFree rest =
          let p : IsPlaceIn root (base ++ under root done) names = due.final_place in
          record {
            chain =
                IsChain-kept (base ++ under root done) (midway done rest) [] p.dir
                  (keeps_final rest) p.free.chain;
            ordinary = p.free.ordinary;
            free =
                ap (λ l. find l (midway done rest)) (sym p.place)
                ∙ final_free names rest due.apart
                    (ap (λ l. find l (base ++ under root done)) p.place ∙ p.free.free);
          }

      pub final_walk :
          (rest : Items)
          → walk max_links (midway done rest) true [] (root ++ names) ≡ absent (root ++ names)
      final_walk rest =
          subst (λ l. walk max_links (midway done rest) true [] l ≡ absent l)
            (sym due.final_place.place)
            (resolve_free max_links true (midway done rest) due.final_place.dir due.final_place.name
              (final-IsFree rest))
