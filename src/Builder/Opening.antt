-- ===== src/Builder/Opening.antt =====
-- The constructor of src/utils/file_builder.cpp, where the name of the first attempt is free.
use file_hop_z.Base.{
  ℕ, ◌≡◌, refl, sym, ◌∙◌, true, false, some, List, [], ◌∷◌, Option-cases, Bool-cases, inl, inr,
  arith,
}
use file_hop_z.Base.Bytes.{Bytes}
use file_hop_z.Errors.{success, failed}
use file_hop_z.Disk.{directory, link, Location, Nodes, Device, find, max_links, same_location}
use file_hop_z.Disk.Calls
use file_hop_z.Disk.Laws.{find_last, insert_absent}
use file_hop_z.Disk.Chains.{IsChain-append, IsChain-kept, append-KeepsDirectories, node_at_child}
use file_hop_z.Builder.{try_names, file_builder}
use file_hop_z.Builder.Staging.{IsFree, child, staged, resolve_free, create_directories_there}
use file_hop_z.Builder.Kept.{IsIsolated}
use file_hop_z.Builder.Commit.{find-IsApart}
use file_hop_z.Builder.Commit.Steps.{begun, find-append_absent}
use file_hop_z.Builder.Commit.Output.{IsOutput, no_staging}

only_directory : (m l : Location) (t : Bytes) → find l ((m, directory) ∷ []) ≡ some (link t) → ⊥
unfolding find
only_directory m l t h = elim (Bool-cases (same_location m l)) [
  | inl e ↦ absurd (ground arith)
  | inr e ↦ absurd (ground arith)
]

-- With its staging directory, the output directory is ready for a builder.
pub begun-IsIsolated :
    (root : List Bytes) (name : ℕ → Bytes) (base : Nodes)
    → IsOutput root (name 0) base
    → IsIsolated
        (child root (name 0))
        (staged root (child root (name 0)) [] (begun (child root (name 0)) base))
begun-IsIsolated root name base o = record {
  staging_is = refl;
  confined = record {
    chain =
        IsChain-append (begun (child root (name 0)) base) [] root (name 0 ∷ [])
          (IsChain-kept base (begun (child root (name 0)) base) [] root
            (append-KeepsDirectories base ((child root (name 0), directory) ∷ [])) o.chain)
          (
            o.ordinary,
            node_at_child root (name 0) (begun (child root (name 0)) base)
                ∙ find_last (child root (name 0)) directory base (no_staging root (name 0) base o),
            tt,
          );
    no_links = λ l t b h. elim (Option-cases (find l base)) [
      | inr (n, e) ↦ absurd (ground (arith, find-IsApart l (child root (name 0)) n base o.apart e))
      | inl e ↦ absurd (
          only_directory (child root (name 0)) l t
            (sym (find-append_absent l base ((child root (name 0), directory) ∷ []) e) ∙ h))
    ];
  };
  files = tt;
}

module _ (device : Device) (root : List Bytes) (name : ℕ → Bytes) (base : Nodes)
    (o : IsOutput root (name 0) base)
    (permitted : failed (device.creation (child root (name 0))) ≡ false) where
  place-IsFree : IsFree base root (name 0)
  place-IsFree = record {
    chain = o.chain;
    ordinary = o.ordinary;
    free = no_staging root (name 0) base o;
  }

  create_directory-begun :
      Calls.create_directory device base (child root (name 0))
      ≡ (begun (child root (name 0)) base, true, success)
  unfolding Calls.create_directory
  create_directory-begun =
      rw
        (
          resolve_free max_links true base root (name 0) place-IsFree,
          Calls.create_directory,
          permitted,
          insert_absent (child root (name 0)) directory base place-IsFree.free,
        )
        refl

  -- The builder starts with an empty staging directory of its own.
  pub file_builder-begun :
      file_builder device name root base
      ≡ staged root (child root (name 0)) [] (begun (child root (name 0)) base)
  unfolding file_builder try_names
  file_builder-begun =
      rw (create_directories_there device base root o.chain, create_directory-begun) refl
