-- ===== src/Builder/Commit/Whole.antt =====
-- The whole of `commit` of src/utils/file_builder.cpp, for entries whose places are free.
use mathlib.Core.List.{append_assoc, append-nil}
use file_hop_z.Base.{◌≡◌, refl, sym, ap, subst, ◌∙◌, false, List, [], ◌∷◌, ◌++◌, All}
use file_hop_z.Base.Bytes.{Bytes}
use file_hop_z.Errors.{success}
use file_hop_z.Disk.{directory, Location, Nodes, Device, is_last}
use file_hop_z.Disk.Calls.{remove_all}
use file_hop_z.Builder.{close_streams, with_nodes}
use file_hop_z.Builder.Commits.{listing, commit_entries, remove_staging, commit_tree, commit}
use file_hop_z.Builder.Staging.{IsReliable, child, staged}
use file_hop_z.Builder.Commit.{
  Items, under, only_directories, item_names, IsApart, listing_apart, listing-append, listing-under,
}
use file_hop_z.Builder.Commit.Steps.{begun, midway, IsDue}
use file_hop_z.Builder.Commit.Turns.{commit_entry_placed}
use file_hop_z.Builder.Commit.Output.{
  IsOutput, IsApart-under_one, staging_walk, listing_staging, outside-midway,
}

-- Every entry is due in its turn.
abbrev pub AreDue : List Bytes → Location → Nodes → Items → Items → Type 0
AreDue root staging base done [] = Unit
AreDue root staging base done ((names, n) ∷ rest) =
    IsDue root staging base done names
    × (is_last names ≡ false)
    × AreDue root staging base (done ++ ((names, n) ∷ [])) rest

module _ (device : Device) (d : IsReliable device) (root : List Bytes) (tmp : Bytes)
    (base : Nodes) where
  module _ (o : IsOutput root tmp base) where
    -- The loop puts every entry in place.
    commit_entries_placed :
        (rest done : Items)
        → IsApart (child root tmp) (under root done)
        → AreDue root (child root tmp) base done rest
        → (commit_entries device root
              (child root tmp)
              (item_names rest)
              (midway root (child root tmp) base done rest)
            ≡ (midway root (child root tmp) base (done ++ rest) [], success))
          × IsApart (child root tmp) (under root (done ++ rest))
    unfolding commit_entries
    commit_entries_placed [] done a due = rw (append-nil done) (refl, a)
    commit_entries_placed ((names, n) ∷ rest) done a due =
        let (same, apart) =
          commit_entries_placed rest (done ++ ((names, n) ∷ []))
            (IsApart-under_one root tmp base o done names n a due.0.apart) due.2 in
        (
          rw
              (commit_entry_placed device d root (child root tmp) base o.apart done a names due.0 n
                rest)
              (same
                ∙ ap (λ x. (midway root (child root tmp) base x [], success))
                    (append_assoc done ((names, n) ∷ []) rest)),
          subst (λ x. IsApart (child root tmp) (under root x))
              (append_assoc done ((names, n) ∷ []) rest) apart,
        )

    commit_tree_placed :
        (items : Items)
        → AreDue root (child root tmp) base [] items
        → All (λ x. is_last x.0 ≡ false) items
        → commit_tree device root
            (child root tmp)
            (begun (child root tmp) base ++ under (child root tmp) items)
          ≡ (base ++ under root items, success)
    unfolding commit_tree remove_all
    commit_tree_placed items due names =
        let t : Location = child root tmp in
        let b : Nodes = begun t base in
        let (looped, apart) = commit_entries_placed items [] tt due in
        let listed : listing t (b ++ under t items) ≡ item_names items =
          rw
            (
              listing-append t b (under t items),
              listing-append t base ((t, directory) ∷ []),
              listing_apart t base o.apart,
              listing_staging root tmp base o,
            )
            (listing-under t items names) in
        rw (staging_walk root tmp base o (under t items), commit_tree)
          (ap (λ x. remove_staging device t (commit_entries device root t x (b ++ under t items)))
              listed
            ∙ (ap
                  (λ x.
                    remove_staging device t
                      (commit_entries device root t (item_names items) (b ++ x)))
                  (sym (append-nil (under t items)))
                ∙ (ap (remove_staging device t) looped
                    ∙ rw
                        (
                          staging_walk root tmp base o
                              (under t (only_directories items) ++ ([] ++ under root items)),
                          remove_all,
                          d.removes t,
                          outside-midway root tmp base o items apart,
                        )
                        refl)))

    -- `commit` moves every entry to its place and removes the staging directory: what was there
    -- before stays, and the entries stand below the output directory.
    pub commit_placed :
        (items : Items)
        → AreDue root (child root tmp) base [] items
        → All (λ x. is_last x.0 ≡ false) items
        → commit device (
            staged root
              (child root tmp)
              []
              (begun (child root tmp) base ++ under (child root tmp) items))
          ≡ (staged root (child root tmp) [] (base ++ under root items), success)
    unfolding commit close_streams
    commit_placed items due names =
        ap
          (with_nodes device (
            staged root (child root tmp) []
              (begun (child root tmp) base ++ under (child root tmp) items)))
          (commit_tree_placed items due names)
