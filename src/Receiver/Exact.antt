-- ===== src/Receiver/Exact.antt =====
-- A transfer that is committed has written exactly the bytes that were announced.
use file_hop_z.Base.{ℕ, ◌+◌, ◌≡◌, refl, true, false, List, [], ◌∷◌, arith, Bool-cases, inl, inr}
use file_hop_z.Base.Bytes.{Bytes}
use file_hop_z.Errors.{failed, Expected, ok, unexpected, make_error_code, Expected-cases}
use file_hop_z.Ftp.{
  PacketType, Packet, read_packet, confirm, confirm_failed, create_directory, create_file,
  create_symlink, file_data, end_file, end_transfer, unnamed,
}
use file_hop_z.Receiver.{
  FileBuilder, Receiver, TransferOutcome, waits, gives_up, commit_fails, closes, handle_symlink,
  handle_data, handle_end, handle_type, handle_packet, finish, take_packet, go_on, transfer_turn,
  start_transfer,
}

-- The bytes of file content in a chunk.
abbrev pub content_size : PacketType → ℕ → ℕ
content_size file_data n = n
content_size _ n = 0

abbrev pub chunk_size : Bytes → Expected Bytes → ℕ
chunk_size stale (unexpected ec) = 0
chunk_size stale (ok chunk) = elim (read_packet stale chunk) [
  | unexpected ec ↦ 0
  | ok p ↦ content_size p.header.type p.header.size
]

abbrev pub with_rest : TransferOutcome → ℕ → ℕ → ℕ
with_rest waits size rest = size + rest
with_rest _ size rest = size

module _ (B : FileBuilder) where
  -- The file content in the chunks that the loop takes before it ends.
  unfoldable pub taken : List (Bytes × Expected Bytes) → Receiver B → ℕ
  taken [] r = 0
  taken ((stale, result) ∷ rs) r =
      let (r', outcome) = transfer_turn B stale result r in
      let rest = taken rs r' in with_rest outcome (chunk_size stale result) rest

  -- A packet that is handled without an error takes its content from what remains, and the flag
  -- is set only when nothing does.
  handle_type_remaining :
      (type : PacketType) (p : Packet) (r : Receiver B)
      → r.end_transfer_flag ≡ false
      → failed (handle_type B type p r).1 ≡ false
      → ((handle_type B type p r).0.bytes_remaining + content_size type p.header.size
          ≡ r.bytes_remaining)
        × ((handle_type B type p r).0.end_transfer_flag ≡ true
            → (handle_type B type p r).0.bytes_remaining ≡ 0)
  unfolding handle_type handle_data handle_end handle_symlink make_error_code
  handle_type_remaining create_directory p r f h = ground arith
  handle_type_remaining create_file p r f h = ground arith
  handle_type_remaining create_symlink p r f h = ground arith
  handle_type_remaining file_data p r f h = ground arith
  handle_type_remaining end_file p r f h = ground arith
  handle_type_remaining end_transfer p r f h = ground arith
  handle_type_remaining confirm p r f h = ground arith
  handle_type_remaining confirm_failed p r f h = ground arith
  handle_type_remaining (unnamed b) p r f h = ground arith

  -- What a turn leaves, if the loop goes on or is done.
  record Counts (size : ℕ) (r : Receiver B) (t : Receiver B × TransferOutcome) : Type 0 where
    going :
        t.1 ≡ waits
        → (t.0.bytes_remaining + size ≡ r.bytes_remaining) × (t.0.end_transfer_flag ≡ false)
    done : t.1 ≡ closes → size ≡ r.bytes_remaining

  finish_waits : (r : Receiver B) → (finish B r).1 ≡ waits → ⊥
  unfolding finish
  finish_waits r h = ground arith

  take_packet-Counts :
      (p : Packet) (r : Receiver B)
      → r.end_transfer_flag ≡ false
      → Counts (content_size p.header.type p.header.size) r (take_packet B p r)
  unfolding take_packet handle_packet
  take_packet-Counts p r f = elim (Bool-cases (failed (handle_packet B p r).1)) [
    | inl e ↦
        rw e (record { going = λ h. absurd (ground arith); done = λ h. absurd (ground arith) })
    | inr e ↦
        let (left, ended) = handle_type_remaining p.header.type p r f e in
        elim (Bool-cases (handle_packet B p r).0.end_transfer_flag) [
          | inl g ↦
              rw (e, g)
                (record {
                  going = λ h. absurd (finish_waits (handle_packet B p r).0 h);
                  done = λ h. omega (arith, left, ended g);
                })
          | inr g ↦ rw (e, g) (record { going = λ h. (left, g); done = λ h. absurd (ground arith) })
        ]
  ]

  transfer_turn-Counts :
      (stale : Bytes) (result : Expected Bytes) (r : Receiver B)
      → r.end_transfer_flag ≡ false
      → Counts (chunk_size stale result) r (transfer_turn B stale result r)
  unfolding transfer_turn
  transfer_turn-Counts stale (unexpected ec) r f = record {
    going = λ h. absurd (ground arith);
    done = λ h. absurd (ground arith);
  }
  transfer_turn-Counts stale (ok chunk) r f = elim (Expected-cases (read_packet stale chunk)) [
    | inr (ec, e) ↦
        rw (e, chunk_size, transfer_turn)
          (record { going = λ h. absurd (ground arith); done = λ h. absurd (ground arith) })
    | inl (p, e) ↦ rw (e, chunk_size, transfer_turn) (take_packet-Counts p r f)
  ]

  -- The file content is exactly what was announced, so far or in the end.
  abbrev pub IsExact : ℕ → ℕ → Receiver B × TransferOutcome → Type 0
  IsExact content announced t =
      (t.1 ≡ closes → content ≡ announced)
      × (t.1 ≡ waits → content + t.0.bytes_remaining ≡ announced)

  go_on-IsExact :
      (o : TransferOutcome) (size later : ℕ) (r r' : Receiver B)
      (rest : Receiver B × TransferOutcome)
      → Counts size r (r', o)
      → (o ≡ waits → IsExact later r'.bytes_remaining rest)
      → IsExact (with_rest o size later) r.bytes_remaining (go_on B o r' rest)
  go_on-IsExact waits size later r r' rest c x =
      let left : r'.bytes_remaining + size ≡ r.bytes_remaining = (c.going refl).0 in
      (λ h. omega (arith, left, (x refl).0 h), λ h. omega (arith, left, (x refl).1 h))
  go_on-IsExact (gives_up ec) size later r r' rest c x =
      (λ h. absurd (ground arith), λ h. absurd (ground arith))
  go_on-IsExact (commit_fails ec) size later r r' rest c x =
      (λ h. absurd (ground arith), λ h. absurd (ground arith))
  go_on-IsExact closes size later r r' rest c x = (λ h. c.done refl, λ h. absurd (ground arith))

  -- A transfer that ends with its files in place has received exactly as many bytes of file
  -- content as remained when it began, in the chunks that it took, whatever the chunks and the
  -- builder; one that still waits has received what no longer remains.
  pub start_transfer-IsExact :
      (rs : List (Bytes × Expected Bytes)) (r : Receiver B)
      → r.end_transfer_flag ≡ false
      → IsExact (taken rs r) r.bytes_remaining (start_transfer B rs r)
  unfolding start_transfer taken
  start_transfer-IsExact [] r f = (λ h. absurd (ground arith), λ h. omega arith)
  start_transfer-IsExact ((stale, result) ∷ rs) r f =
      let turn : Receiver B × TransferOutcome = transfer_turn B stale result r in
      let c : Counts (chunk_size stale result) r turn = transfer_turn-Counts stale result r f in
      go_on-IsExact turn.1 (chunk_size stale result) (taken rs turn.0) r turn.0
        (start_transfer B rs turn.0) c (λ e. start_transfer-IsExact rs turn.0 (c.going e).1)
