-- ===== src/Transfer/Whole.antt =====
-- A whole transfer: the sender's packets for a tree of entries leave a copy of the tree in the
-- output directory.
use mathlib.Core.List.{append_assoc, append-nil}
use file_hop_z.Base.{
  ℕ, ◌<◌, ◌≡◌, refl, sym, ap, subst, ◌∙◌, true, false, List, [], ◌∷◌, ◌++◌, All, arith,
}
use file_hop_z.Base.Bytes.{Bytes, u32_mod}
use file_hop_z.Errors.{BoostError, success, ok}
use file_hop_z.FilePath.{parts}
use file_hop_z.Disk.{Node, Location, Nodes, Device, is_below, is_last}
use file_hop_z.Disk.Parts.{parts_some}
use file_hop_z.Builder.{Builder, file_builder}
use file_hop_z.Builder.Commits.{commit, builder_operations}
use file_hop_z.Builder.Opening.{file_builder-begun}
use file_hop_z.Builder.Staging.{IsReliable, child, staged}
use file_hop_z.Builder.Commit.{Items, under, under-append}
use file_hop_z.Builder.Commit.Steps.{begun}
use file_hop_z.Builder.Commit.Whole.{AreDue, commit_placed}
use file_hop_z.Builder.Commit.Output.{IsOutput}
use file_hop_z.Ftp.{Packet, PacketHeader, as_bytes, end_transfer}
use file_hop_z.Progress.{Progress}
use file_hop_z.Receiver.{Receiver, closes, start_transfer}
use file_hop_z.Receiver.Turns.{chunks_of, chunks_of-append}
use file_hop_z.Sender.{Entry, empty_packet, path_handler, send_entries}
use file_hop_z.Sender.Announced.{file_sizes, file_sizes_cons}
use file_hop_z.Sender.Packets.{empty_packet-Carries}
use file_hop_z.Transfer.Handled.{receiving, start_transfer_end}
use file_hop_z.Transfer.Rebuild.{goes_on, start_transfer_entry}
use file_hop_z.Transfer.Entries.{entry_path, entry_node, placed, IsTree}

-- An entry and its place relative to the walk's root.
abbrev items_of : List Entry → Items
items_of [] = []
items_of (e ∷ es) = (parts (entry_path e), entry_node e) ∷ items_of es

under-items_of : (dir : Location) (es : List Entry) → under dir (items_of es) ≡ placed dir es
under-items_of dir [] = refl
under-items_of dir (e ∷ es) =
    ap (◌∷◌ (dir ++ parts (entry_path e), entry_node e)) (under-items_of dir es)

-- No entry has its place in the staging directory.
abbrev pub AreApart : Location → List Bytes → List Entry → Type 0
AreApart staging root es = All (λ e. is_below staging (root ++ parts (entry_path e)) ≡ false) es

module _ (device : Device) (d : IsReliable device) (root : List Bytes) (name : ℕ → Bytes)
    (stale : Bytes) where
  abbrev pub staging : List Bytes
  staging = child root (name 0)

  -- The entries are staged, and the packet that ends the transfer is what is left.
  start_transfer_entries :
      (stale_header : PacketHeader) (stale_sender : Bytes) (es : List Entry) (id : ℕ)
      (pr : Progress) (ns : Nodes)
      → id < u32_mod
      → IsTree staging ns es
      → (pr' : Progress) × (goes_on device d root staging stale
            (chunks_of stale (send_entries stale_header stale_sender es id).0)
            (file_sizes es)
            pr
            (staged root staging [] ns)
          ≡ goes_on device d root staging stale
              ((stale, ok (as_bytes (empty_packet end_transfer 0 stale_sender))) ∷ [])
              0
              pr'
              (staged root staging [] (ns ++ placed staging es)))
  unfolding send_entries
  start_transfer_entries stale_header stale_sender [] id pr ns i t = (
    pr,
    ap
        (λ x.
          goes_on device d root staging stale
            ((stale, ok (as_bytes (empty_packet end_transfer 0 stale_sender))) ∷ []) 0 pr
            (staged root staging [] x))
        (sym (append-nil ns)),
  )
  start_transfer_entries stale_header stale_sender (e ∷ es) id pr ns i t =
      let r : List Packet × ℕ × BoostError = path_handler stale_header stale_sender e id in
      let later : List Packet × BoostError = send_entries stale_header stale_sender es r.1 in
      let x : Nodes = (staging ++ parts (entry_path e), entry_node e) ∷ [] in
      let (sent, next, pr', same) =
        start_transfer_entry device d root staging stale stale_header stale_sender e id
          (chunks_of stale later.0) (file_sizes es) pr ns i t.0 in
      let (pr'', rest) =
        start_transfer_entries stale_header stale_sender es r.1 pr' (ns ++ x) next t.1 in
      (
        pr'',
        rw (sent, file_sizes_cons e es, chunks_of-append stale r.0 later.0)
            (same
              ∙ (rest
                  ∙ ap
                      (λ y.
                        goes_on device d root staging stale
                          ((stale, ok (as_bytes (empty_packet end_transfer 0 stale_sender))) ∷ []) 0
                          pr'' (staged root staging [] y))
                      (append_assoc ns x (placed staging es)))),
      )

  module _ (base : Nodes) where
    due_of :
        (es : List Entry) (done : Items)
        → IsTree staging (begun staging base ++ under staging done) es
        → IsTree root (base ++ under root done) es
        → AreApart staging root es
        → AreDue root staging base done (items_of es)
    due_of [] done s f a = tt
    due_of (e ∷ es) done s f a =
        let item : List Bytes × Node = (parts (entry_path e), entry_node e) in
        let one_more : (at : Location) (ns : Nodes)
            → ns ++ under at done ++ ((at ++ parts (entry_path e), entry_node e) ∷ [])
              ≡ ns ++ under at (done ++ (item ∷ [])) =
          λ at ns.
            append_assoc ns (under at done) _
            ∙ ap (λ x. ns ++ x) (sym (under-append at done (item ∷ []))) in
        (
          record {
            staged_place = record {
              dir = s.0.dir;
              name = s.0.name;
              place = s.0.at.place;
              free = s.0.free;
            };
            final_place = record {
              dir = f.0.dir;
              name = f.0.name;
              place = f.0.at.place;
              free = f.0.free;
            };
            apart = a.0;
          },
          parts_some (entry_path e),
          due_of es (done ++ (item ∷ []))
              (subst (λ x. IsTree staging x es) (one_more staging (begun staging base)) s.1)
              (subst (λ x. IsTree root x es) (one_more root base) f.1) a.1,
        )

    items_named : (es : List Entry) → All (λ x. is_last x.0 ≡ false) (items_of es)
    items_named [] = tt
    items_named (e ∷ es) = (parts_some (entry_path e), items_named es)

    -- `commit` after the last packet.
    commit_entries_of :
        (es : List Entry)
        → IsOutput root (name 0) base
        → IsTree staging (begun staging base) es
        → IsTree root base es
        → AreApart staging root es
        → commit device (staged root staging [] (begun staging base ++ placed staging es))
          ≡ (staged root staging [] (base ++ placed root es), success)
    commit_entries_of es o s f a =
        let due : AreDue root staging base [] (items_of es) =
          due_of es [] (subst (λ x. IsTree staging x es) (sym (append-nil (begun staging base))) s)
            (subst (λ x. IsTree root x es) (sym (append-nil base)) f) a in
        rw (← under-items_of staging es, ← under-items_of root es)
          (commit_placed device d root (name 0) base o (items_of es) due (items_named es))

    -- The transfer of a tree, from the first packet after the confirmation to the last: on a device
    -- that refuses nothing, the receiver ends with its stream closed, and the output directory holds
    -- what it held before and after that every entry that was walked, each once, at its path, with
    -- its content or target. The staging directory is gone. The entries come in the order of a walk,
    -- their places are free in the output directory and in the staging directory, and the announced
    -- size is the size of the files.
    pub start_transfer_copies :
        (stale_header : PacketHeader) (stale_sender : Bytes) (es : List Entry) (pr : Progress)
        → IsOutput root (name 0) base
        → IsTree staging (begun staging base) es
        → IsTree root base es
        → AreApart staging root es
        → (r : Receiver (builder_operations device)) × (start_transfer
              (builder_operations device)
              (chunks_of stale (send_entries stale_header stale_sender es 0).0)
              (receiving
                (builder_operations device)
                (file_sizes es)
                pr
                (file_builder device name root base))
            ≡ (r, closes))
          × (r.file_builder ≡ staged root staging [] (base ++ placed root es))
    start_transfer_copies stale_header stale_sender es pr o s f a =
        let b : Builder = staged root staging [] (begun staging base ++ placed staging es) in
        let b' : Builder = staged root staging [] (base ++ placed root es) in
        let (pr', same) =
          start_transfer_entries stale_header stale_sender es 0 pr (begun staging base)
            (omega arith) s in
        (
          record (receiving (builder_operations device) 0 pr' b') { end_transfer_flag = true },
          rw (file_builder-begun device root name base o (d.permits (child root (name 0)))) (
              same
              ∙ start_transfer_end (builder_operations device) stale pr' b b'
                  (empty_packet end_transfer 0 stale_sender)
                  (empty_packet-Carries end_transfer 0 stale_sender tt (omega arith))
                  (commit_entries_of es o s f a)),
          refl,
        )
