-- ===== src/Transfer/Harmless.antt =====
-- A transfer that is given up leaves the file system as it was, whatever the sender sends, as long
-- as it stages no link.
use file_hop_z.Base.{
  ℕ, ◌≡◌, refl, sym, ◌∙◌, Bool, true, false, ◌||◌, leb, ◌==◌, List, [], ◌∷◌, Bool-cases, inl, inr,
  arith,
}
use file_hop_z.Base.Bytes.{Bytes}
use file_hop_z.Errors.{BoostError, failed, Expected, ok, unexpected, Expected-cases}
use file_hop_z.Disk.{Location, Nodes, Device, outside}
use file_hop_z.Builder.{Builder, file_builder, write}
use file_hop_z.Builder.Commits.{builder_operations}
use file_hop_z.Builder.Cleanup.{
  create_directory-Keeps, create_file-Keeps, write-Keeps, close_file-Keeps, cleanup_outside,
}
use file_hop_z.Builder.Kept.{IsIsolated, Keeps}
use file_hop_z.Builder.Staging.{child, staged}
use file_hop_z.Builder.Commit.Steps.{begun}
use file_hop_z.Builder.Commit.Output.{IsOutput, outside-begun}
use file_hop_z.Builder.Opening.{file_builder-begun, begun-IsIsolated}
use file_hop_z.Progress.{Progress}
use file_hop_z.Transfer.Handled.{receiving}
use file_hop_z.Ftp.{
  PacketType, Packet, get_payload, read_packet, confirm, confirm_failed, create_directory,
  create_file, create_symlink, file_data, end_file, end_transfer, unnamed,
}
use file_hop_z.Receiver.{
  Receiver, TransferOutcome, waits, gives_up, commit_fails, closes, handle_data, handle_end,
  handle_type, handle_packet, finish, give_up, taken_up, take_packet, transfer_turn, go_on,
  start_transfer,
}

abbrev pub is_symlink_type : PacketType → Bool
is_symlink_type create_symlink = true
is_symlink_type _ = false

-- Whether a chunk is a packet that creates a link.
abbrev pub stages_link : Bytes → Expected Bytes → Bool
stages_link stale (unexpected ec) = false
stages_link stale (ok chunk) = elim (read_packet stale chunk) [
  | unexpected ec ↦ false
  | ok p ↦ is_symlink_type p.header.type
]

abbrev pub stage_links : List (Bytes × Expected Bytes) → Bool
stage_links [] = false
stage_links ((stale, result) ∷ rs) = stages_link stale result || stage_links rs

module _ (device : Device) (dir : Location) (removable : failed (device.removal dir) ≡ false) where
  Keeps-refl : (b : Builder) → IsIsolated dir b → Keeps dir b b
  Keeps-refl b i = record { isolated = i; same = refl }

  Keeps-trans : (a b c : Builder) → Keeps dir a b → Keeps dir b c → Keeps dir a c
  Keeps-trans a b c k l = record { isolated = l.isolated; same = l.same ∙ k.same }

  handle_data-Keeps :
      (p : Packet) (r : Receiver (builder_operations device))
      → IsIsolated dir r.file_builder
      → Keeps dir r.file_builder (handle_data (builder_operations device) p r).0.file_builder
  unfolding handle_data
  handle_data-Keeps p r i = elim (Bool-cases (leb p.header.size r.bytes_remaining)) [
    | inr e ↦ rw e (Keeps-refl r.file_builder i)
    | inl e ↦
        let k : Keeps dir r.file_builder
            (write device (get_payload p) p.header.file_id r.file_builder).0 =
          write-Keeps device dir (get_payload p) p.header.file_id r.file_builder i in
        elim (Bool-cases
          (failed (write device (get_payload p) p.header.file_id r.file_builder).1)) [
            | inl f ↦ rw (e, f) k
            | inr f ↦ rw (e, f) k
          ]
  ]

  handle_end-Keeps :
      (r : Receiver (builder_operations device))
      → IsIsolated dir r.file_builder
      → Keeps dir r.file_builder (handle_end (builder_operations device) r).0.file_builder
  unfolding handle_end
  handle_end-Keeps r i = elim (Bool-cases (r.bytes_remaining == 0)) [
    | inl e ↦ rw e (Keeps-refl r.file_builder i)
    | inr e ↦ rw e (Keeps-refl r.file_builder i)
  ]

  handle_type-Keeps :
      (type : PacketType) (p : Packet) (r : Receiver (builder_operations device))
      → is_symlink_type type ≡ false
      → IsIsolated dir r.file_builder
      → Keeps dir r.file_builder (handle_type (builder_operations device) type p r).0.file_builder
  unfolding handle_type
  handle_type-Keeps create_directory p r t i =
      create_directory-Keeps device dir (get_payload p) r.file_builder i
  handle_type-Keeps create_file p r t i =
      create_file-Keeps device dir (get_payload p) p.header.file_id r.file_builder i
  handle_type-Keeps create_symlink p r t i = absurd (ground arith)
  handle_type-Keeps file_data p r t i = handle_data-Keeps p r i
  handle_type-Keeps end_file p r t i = close_file-Keeps device dir p.header.file_id r.file_builder i
  handle_type-Keeps end_transfer p r t i = handle_end-Keeps r i
  handle_type-Keeps confirm p r t i = Keeps-refl r.file_builder i
  handle_type-Keeps confirm_failed p r t i = Keeps-refl r.file_builder i
  handle_type-Keeps (unnamed b) p r t i = Keeps-refl r.file_builder i

  -- What a transfer that goes on, or was given up, has left.
  pub record IsHarmless (b : Builder) (t : Receiver (builder_operations device) × TransferOutcome)
      : Type 0 where
    pub going : t.1 ≡ waits → Keeps dir b t.0.file_builder
    pub given_up :
        (ec : BoostError) → t.1 ≡ gives_up ec → t.0.file_builder.nodes ≡ outside dir b.nodes

  give_up-IsHarmless :
      (b : Builder) (ec : BoostError) (r : Receiver (builder_operations device))
      → Keeps dir b r.file_builder
      → IsHarmless b (give_up (builder_operations device) ec r)
  give_up-IsHarmless b ec r k = record {
    going = λ h. absurd (ground arith);
    given_up = λ ec' h. cleanup_outside device dir r.file_builder k.isolated removable ∙ k.same;
  }

  taken_up-IsHarmless :
      (b : Builder) (r : Receiver (builder_operations device)) (ec : BoostError)
      → Keeps dir b r.file_builder
      → IsHarmless b (taken_up (builder_operations device) (r, ec))
  unfolding finish
  taken_up-IsHarmless b r ec k = elim (Bool-cases (failed ec)) [
    | inl e ↦ rw e (give_up-IsHarmless b ec r k)
    | inr e ↦ elim (Bool-cases r.end_transfer_flag) [
      | inl f ↦
          rw (e, f)
            (record {
              going = λ h. absurd (ground arith);
              given_up = λ ec' h. absurd (ground arith);
            })
      | inr f ↦ rw (e, f) (record { going = λ h. k; given_up = λ ec' h. absurd (ground arith) })
    ]
  ]

  transfer_turn-IsHarmless :
      (stale : Bytes) (result : Expected Bytes) (r : Receiver (builder_operations device))
      → stages_link stale result ≡ false
      → IsIsolated dir r.file_builder
      → IsHarmless r.file_builder (transfer_turn (builder_operations device) stale result r)
  unfolding transfer_turn take_packet handle_packet
  transfer_turn-IsHarmless stale (unexpected ec) r n i =
      give_up-IsHarmless r.file_builder ec r (Keeps-refl r.file_builder i)
  transfer_turn-IsHarmless stale (ok chunk) r n i =
      elim (Expected-cases (read_packet stale chunk)) [
        | inr (ec, e) ↦
            rw (e, transfer_turn)
              (give_up-IsHarmless r.file_builder ec r (Keeps-refl r.file_builder i))
        | inl (p, e) ↦
            let no_link : is_symlink_type p.header.type ≡ false =
              let same : stages_link stale (ok chunk) ≡ is_symlink_type p.header.type =
                rw (e, stages_link) refl in
              sym same ∙ n in
            let h : Receiver (builder_operations device) × BoostError =
              handle_type (builder_operations device) p.header.type p r in
            rw (e, transfer_turn)
              (taken_up-IsHarmless r.file_builder h.0 h.1
                (handle_type-Keeps p.header.type p r no_link i))
      ]

  go_on-IsHarmless :
      (o : TransferOutcome) (b : Builder) (r : Receiver (builder_operations device))
      (rest : Receiver (builder_operations device) × TransferOutcome)
      → IsHarmless b (r, o)
      → (o ≡ waits → IsHarmless r.file_builder rest)
      → IsHarmless b (go_on (builder_operations device) o r rest)
  go_on-IsHarmless waits b r rest now later =
      let k : Keeps dir b r.file_builder = now.going refl in
      let l : IsHarmless r.file_builder rest = later refl in
      record {
        going = λ h. Keeps-trans b r.file_builder rest.0.file_builder k (l.going h);
        given_up = λ ec h. l.given_up ec h ∙ k.same;
      }
  go_on-IsHarmless (gives_up ec) b r rest now later = now
  go_on-IsHarmless (commit_fails ec) b r rest now later = now
  go_on-IsHarmless closes b r rest now later = now

  -- Whatever chunks a sender sends, as long as none creates a link: a transfer that is given up, at
  -- whatever point and on whatever device, leaves the file system with everything that was outside of
  -- the staging directory, unchanged, and nothing else; one that still waits has changed nothing
  -- outside. The device only has to remove the staging directory when it is asked to.
  pub start_transfer-IsHarmless :
      (rs : List (Bytes × Expected Bytes)) (r : Receiver (builder_operations device))
      → stage_links rs ≡ false
      → IsIsolated dir r.file_builder
      → IsHarmless r.file_builder (start_transfer (builder_operations device) rs r)
  unfolding start_transfer
  start_transfer-IsHarmless [] r n i = record {
    going = λ h. Keeps-refl r.file_builder i;
    given_up = λ ec h. absurd (ground arith);
  }
  start_transfer-IsHarmless ((stale, result) ∷ rs) r n i =
      let turn : Receiver (builder_operations device) × TransferOutcome =
        transfer_turn (builder_operations device) stale result r in
      let now : IsHarmless r.file_builder turn =
        transfer_turn-IsHarmless stale result r (ground arith) i in
      go_on-IsHarmless turn.1 r.file_builder turn.0
        (start_transfer (builder_operations device) rs turn.0) now
        (λ h. start_transfer-IsHarmless rs turn.0 (ground arith) (now.going h).isolated)

-- Whatever a sender sends, as long as it creates no link: a transfer that is given up, at whatever
-- point, leaves the file system exactly as it was before the builder was constructed. The output
-- directory was there, the name of the staging directory was free, and the device permits that the
-- staging directory is made and removed; it may refuse anything else.
pub start_transfer_restores :
    (device : Device) (root : List Bytes) (name : ℕ → Bytes) (base : Nodes)
    (rs : List (Bytes × Expected Bytes)) (n : ℕ) (pr : Progress) (ec : BoostError)
    → IsOutput root (name 0) base
    → failed (device.creation (child root (name 0))) ≡ false
    → failed (device.removal (child root (name 0))) ≡ false
    → stage_links rs ≡ false
    → (start_transfer
        (builder_operations device)
        rs
        (receiving (builder_operations device) n pr (file_builder device name root base))).1
      ≡ gives_up ec
    → (start_transfer (builder_operations device) rs (
        receiving
          (builder_operations device)
          n
          pr
          (file_builder device name root base))).0.file_builder.nodes
      ≡ base
start_transfer_restores device root name base rs n pr ec o permitted removable no_link =
    rw (file_builder-begun device root name base o permitted) (λ h.
      (start_transfer-IsHarmless device (child root (name 0)) removable rs
          (receiving (builder_operations device) n pr
            (staged root (child root (name 0)) [] (begun (child root (name 0)) base)))
          no_link (begun-IsIsolated root name base o)).given_up
        ec h
      ∙ outside-begun root (name 0) base o)
