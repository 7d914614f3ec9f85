-- ===== src/Builder/Commit/Turns.antt =====
-- One turn of the loop of `commit` of src/utils/file_builder.cpp: a staged entry gets in place.
use file_hop_z.Base.{◌≡◌, refl, sym, ap, ◌∙◌, none, List, [], ◌∷◌, ◌++◌}
use file_hop_z.Base.Bytes.{Bytes}
use file_hop_z.Errors.{success}
use file_hop_z.Disk.{Node, directory, regular, link, Nodes, Device, find, remove, up}
use file_hop_z.Disk.Calls.{rename, create_directories}
use file_hop_z.Disk.Laws.{insert_absent}
use file_hop_z.Builder.Commits.{commit_directory, move_entry, commit_file, commit_entry}
use file_hop_z.Builder.Staging.{IsReliable, create_directories_free, create_directories_parent}
use file_hop_z.Builder.Commit.{Items, under, only_directories, IsApart}
use file_hop_z.Builder.Commit.Steps.{
  begun, IsPlaceIn, IsDue, midway, midway_directory, midway_file, midway_removed, staged_walk,
  final-IsFree, final_walk,
}

module _ (device : Device) (d : IsReliable device) (root staging : List Bytes) (base : Nodes) where
  module _ (apart_base : IsApart staging base) (done : Items)
      (apart_done : IsApart staging (under root done)) (names : List Bytes)
      (due : IsDue root staging base done names) where
    -- A staged directory is created at its destination.
    pub commit_entry_directory :
        (rest : Items)
        → commit_entry device root staging names
            (midway root staging base done ((names, directory) ∷ rest))
          ≡ (midway root staging base (done ++ ((names, directory) ∷ [])) rest, success)
    unfolding commit_entry commit_directory
    commit_entry_directory rest =
        let p : IsPlaceIn root (base ++ under root done) names = due.final_place in
        let ns : Nodes = midway root staging base done ((names, directory) ∷ rest) in
        rw
          (
            staged_walk root staging base apart_base done apart_done names due directory rest,
            commit_entry,
            final_walk root staging base apart_base done apart_done names due
                ((names, directory) ∷ rest),
            commit_directory,
          )
          (ap (create_directories device ns) p.place
            ∙ (create_directories_free device ns p.dir p.name d (
                  final-IsFree root staging base apart_base done apart_done names due
                    ((names, directory) ∷ rest))
                ∙ ap (λ x. (x, success))
                    (ap (λ l. ns ++ ((l, directory) ∷ [])) (sym p.place)
                      ∙ midway_directory root staging base apart_base done apart_done names rest)))

    -- A staged file or link is moved there.
    rename_entry :
        (n : Node) (rest : Items)
        → only_directories ((names, n) ∷ []) ≡ []
        → rename device
            (midway root staging base done ((names, n) ∷ rest))
            (staging ++ names)
            (root ++ names)
          ≡ (midway root staging base (done ++ ((names, n) ∷ [])) rest, success)
    unfolding rename
    rename_entry n rest f =
        let ns : Nodes = midway root staging base done ((names, n) ∷ rest) in
        let sp : IsPlaceIn staging ((begun staging base) ++ under staging done) names =
          due.staged_place in
        let removed : remove (staging ++ names) ns ≡ midway root staging base done rest =
          midway_removed root staging base apart_base done apart_done names n rest (
            ap (λ l. find l ((begun staging base) ++ under staging done)) sp.place
            ∙ sp.free.free) in
        let fp : IsPlaceIn root (base ++ under root done) names = due.final_place in
        let free : find (root ++ names) (midway root staging base done rest) ≡ none =
          ap (λ l. find l (midway root staging base done rest)) fp.place
          ∙ (final-IsFree root staging base apart_base done apart_done names due rest).free in
        rw
          (
            staged_walk root staging base apart_base done apart_done names due n rest,
            rename,
            final_walk root staging base apart_base done apart_done names due ((names, n) ∷ rest),
            d.permits (root ++ names),
            removed,
            insert_absent (root ++ names) n (midway root staging base done rest) free,
            midway_file root staging base apart_base done apart_done names n rest f,
          )
          refl

    pub commit_file_entry :
        (n : Node) (rest : Items)
        → only_directories ((names, n) ∷ []) ≡ []
        → commit_file device
            (staging ++ names)
            (root ++ names)
            (midway root staging base done ((names, n) ∷ rest))
          ≡ (midway root staging base (done ++ ((names, n) ∷ [])) rest, success)
    unfolding commit_file
    commit_file_entry n rest f =
        let p : IsPlaceIn root (base ++ under root done) names = due.final_place in
        let ns : Nodes = midway root staging base done ((names, n) ∷ rest) in
        ap
          (λ l.
            move_entry device (staging ++ names) (root ++ names)
              (create_directories device ns (up l)))
          p.place
        ∙ (ap (move_entry device (staging ++ names) (root ++ names)) (
              create_directories_parent device ns p.dir p.name
                (final-IsFree root staging base apart_base done apart_done names due
                  ((names, n) ∷ rest)).chain)
            ∙ rw
                (
                  final_walk root staging base apart_base done apart_done names due
                      ((names, n) ∷ rest),
                  move_entry,
                )
                (rename_entry n rest f))

    -- A turn of the loop puts the entry in place.
    pub commit_entry_placed :
        (n : Node) (rest : Items)
        → commit_entry device root staging names (midway root staging base done ((names, n) ∷ rest))
          ≡ (midway root staging base (done ++ ((names, n) ∷ [])) rest, success)
    unfolding commit_entry
    commit_entry_placed directory rest = commit_entry_directory rest
    commit_entry_placed (regular content) rest =
        rw
          (
            staged_walk root staging base apart_base done apart_done names due (regular content)
                rest,
            commit_entry,
          )
          (commit_file_entry (regular content) rest refl)
    commit_entry_placed (link target) rest =
        rw
          (
            staged_walk root staging base apart_base done apart_done names due (link target) rest,
            commit_entry,
          )
          (commit_file_entry (link target) rest refl)
