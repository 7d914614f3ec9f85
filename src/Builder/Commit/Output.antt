-- ===== src/Builder/Commit/Output.antt =====
-- The output directory of src/utils/file_builder.cpp with its staging directory, before and after
-- the entries got in place.
use mathlib.Core.List.{append-nil}
use file_hop_z.Base.{
  ◌≡◌, refl, sym, ap, subst, true, false, none, some, List, [], ◌∷◌, ◌++◌, All-append, arith,
  Option-cases, inl, inr,
}
use file_hop_z.Base.Bytes.{Bytes}
use file_hop_z.Disk.{
  Node, directory, Location, Nodes, find, is_below, strip, outside, walk, max_links, found,
}
use file_hop_z.Disk.Laws.{find_last, strip-append}
use file_hop_z.Disk.Chains.{IsOrdinary, IsChain, IsChain-kept, append-KeepsDirectories}
use file_hop_z.Builder.Commits.{listed, listing}
use file_hop_z.Builder.Staging.{child}
use file_hop_z.Builder.Commit.{
  Items, under, only_directories, IsApart, under-append, find-IsApart, outside_apart,
  outside-append, outside-under,
}
use file_hop_z.Builder.Commit.Steps.{begun, midway, walk_there, find-append_there}

strip_self : (l : Location) → strip l l ≡ some []
strip_self l = subst (λ m. strip l m ≡ some []) (append-nil l) (strip-append l [])

below_itself : (l : Location) → is_below l l ≡ false → ⊥
below_itself l h =
    let below : is_below l l ≡ true = rw (strip_self l, is_below) refl in absurd (ground arith)

-- An output directory that is there, where the staging directory's name is free.
pub record IsOutput (root : List Bytes) (tmp : Bytes) (base : Nodes) : Type 0 where
  pub chain : IsChain base [] root
  pub ordinary : IsOrdinary tmp
  pub apart : IsApart (child root tmp) base

module _ (root : List Bytes) (tmp : Bytes) (base : Nodes) (o : IsOutput root tmp base) where
  -- Nothing has the staging directory's name.
  pub no_staging : find (child root tmp) base ≡ none
  no_staging = elim (Option-cases (find (child root tmp) base)) [
    | inl e ↦ e
    | inr (n, e) ↦ absurd (
        below_itself (child root tmp)
          (find-IsApart (child root tmp) (child root tmp) n base o.apart e))
  ]

  pub IsApart-under_one :
      (done : Items) (names : List Bytes) (n : Node)
      → IsApart (child root tmp) (under root done)
      → is_below (child root tmp) (root ++ names) ≡ false
      → IsApart (child root tmp) (under root (done ++ ((names, n) ∷ [])))
  IsApart-under_one done names n a h =
      subst (IsApart (child root tmp)) (sym (under-append root done ((names, n) ∷ []))) (
        All-append (λ x. is_below (child root tmp) x.0 ≡ false) (under root done)
          ((root ++ names, n) ∷ []) a (h, tt))

  -- The staging directory is found, whatever stands behind it.
  pub staging_walk :
      (ms : Nodes)
      → walk max_links (begun (child root tmp) base ++ ms) true [] (child root tmp)
        ≡ found (child root tmp) directory
  staging_walk ms =
      let b : Nodes = begun (child root tmp) base in
      walk_there (b ++ ms) root tmp directory
        (IsChain-kept base (b ++ ms) [] root
          (λ l h.
            append-KeepsDirectories b ms l
              (append-KeepsDirectories base ((child root tmp, directory) ∷ []) l h))
          o.chain)
        o.ordinary
        (find-append_there (child root tmp) directory b ms
          (find_last (child root tmp) directory base no_staging))

  pub outside_staging : outside (child root tmp) ((child root tmp, directory) ∷ []) ≡ []
  outside_staging =
      subst (λ l. outside (child root tmp) ((l, directory) ∷ []) ≡ []) (append-nil (child root tmp))
        (outside-under (child root tmp) (([], directory) ∷ []))

  pub listing_staging : listing (child root tmp) ((child root tmp, directory) ∷ []) ≡ []
  unfolding listing
  listing_staging = ap (λ o. listed o []) (strip_self (child root tmp))

  -- Without the staging directory, there is what was there before.
  pub outside-begun : outside (child root tmp) (begun (child root tmp) base) ≡ base
  outside-begun =
      rw
        (
          outside-append (child root tmp) base ((child root tmp, directory) ∷ []),
          outside_apart (child root tmp) base o.apart,
          outside_staging,
        )
        (append-nil base)

  pub outside-midway :
      (items : Items)
      → IsApart (child root tmp) (under root items)
      → outside (child root tmp) (midway root (child root tmp) base items [])
        ≡ base ++ under root items
  outside-midway items a =
      let t : Location = child root tmp in
      let dirs : Nodes = under t (only_directories items) in
      rw
        (
          outside-append t (begun t base) (dirs ++ ([] ++ under root items)),
          outside-append t base ((t, directory) ∷ []),
          outside-append t dirs ([] ++ under root items),
          outside_apart t base o.apart,
          outside_staging,
          outside-under t (only_directories items),
          outside_apart t (under root items) a,
          append-nil base,
        )
        refl
