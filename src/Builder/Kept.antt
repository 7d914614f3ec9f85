-- ===== src/Builder/Kept.antt =====
-- Builders of src/utils/file_builder.cpp whose writes go to their staging directory only.
use file_hop_z.Base.{ℕ, ◌≡◌, subst, true, some, [], ◌∷◌, All, Bool-cases, inl, inr, arith, ◌==◌}
use file_hop_z.Base.Dict.{Dict, lookup, insert, erase}
use file_hop_z.Disk.{Location, Nodes, is_below, outside}
use file_hop_z.Builder.{OpenFile, Builder}
use file_hop_z.Builder.Confined.{IsConfined, Stays}

abbrev pub FilesBelow : Location → Dict OpenFile → Type 0
FilesBelow dir fs = All (λ x. is_below dir x.1.location ≡ true) fs

pub lookup-FilesBelow :
    (dir : Location) (id : ℕ) (f : OpenFile) (fs : Dict OpenFile)
    → FilesBelow dir fs
    → lookup id fs ≡ some f
    → is_below dir f.location ≡ true
unfolding lookup
lookup-FilesBelow dir id f [] a h = absurd (ground arith)
lookup-FilesBelow dir id f ((j, g) ∷ fs) a h = elim (Bool-cases (j == id)) [
  | inl e ↦ let same : g ≡ f = ground arith in subst (λ x. is_below dir x.location ≡ true) same a.0
  | inr e ↦ lookup-FilesBelow dir id f fs a.1 (ground arith)
]

pub insert-FilesBelow :
    (dir : Location) (id : ℕ) (f : OpenFile) (fs : Dict OpenFile)
    → FilesBelow dir fs
    → is_below dir f.location ≡ true
    → FilesBelow dir (insert id f fs)
unfolding insert
insert-FilesBelow dir id f [] a h = (h, tt)
insert-FilesBelow dir id f ((j, g) ∷ fs) a h = elim (Bool-cases (j == id)) [
  | inl e ↦ rw e (h, a.1)
  | inr e ↦ rw e (a.0, insert-FilesBelow dir id f fs a.1 h)
]

pub erase-FilesBelow :
    (dir : Location) (id : ℕ) (fs : Dict OpenFile)
    → FilesBelow dir fs
    → FilesBelow dir (erase id fs)
unfolding erase
erase-FilesBelow dir id [] a = tt
erase-FilesBelow dir id ((j, g) ∷ fs) a = elim (Bool-cases (j == id)) [
  | inl e ↦ rw e a.1
  | inr e ↦ rw e (a.0, erase-FilesBelow dir id fs a.1)
]

-- A builder whose writes go to its staging directory only.
pub record IsIsolated (dir : Location) (b : Builder) : Type 0 where
  pub staging_is : b.staging_root ≡ some dir
  pub confined : IsConfined dir b.nodes
  pub files : FilesBelow dir b.open_files

-- An operation that leaves it so, and everything outside as it was.
pub record Keeps (dir : Location) (b c : Builder) : Type 0 where
  pub isolated : IsIsolated dir c
  pub same : outside dir c.nodes ≡ outside dir b.nodes

pub Keeps-nodes :
    (dir : Location) (b : Builder) (ns : Nodes)
    → IsIsolated dir b
    → Stays dir b.nodes ns
    → Keeps dir b (record b { nodes = ns })
Keeps-nodes dir b ns i s = record {
  isolated = record { staging_is = i.staging_is; confined = s.confined; files = i.files };
  same = s.same;
}
