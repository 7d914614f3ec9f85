-- ===== src/Receiver/Cleanup.antt =====
-- A transfer that is given up ends with the removal of its staged files.
use file_hop_z.Base.{◌≡◌, refl, List, [], ◌∷◌, Bool-cases, inl, inr, arith}
use file_hop_z.Base.Bytes.{Bytes}
use file_hop_z.Errors.{BoostError, failed, Expected, ok, unexpected, Expected-cases}
use file_hop_z.Ftp.{Packet, read_packet}
use file_hop_z.Receiver.{
  FileBuilder, Receiver, TransferOutcome, waits, gives_up, commit_fails, closes, handle_packet,
  finish, take_packet, transfer_turn, go_on, start_transfer,
}

module _ (B : FileBuilder) where
  -- If the transfer was given up, the builder's last operation was `cleanup`.
  abbrev pub IsCleaned : Receiver B × TransferOutcome → Type 0
  IsCleaned t =
      (ec : BoostError) → t.1 ≡ gives_up ec → (s : B.State) × (t.0.file_builder ≡ B.cleanup s)

  take_packet-IsCleaned : (p : Packet) (r : Receiver B) → IsCleaned (take_packet B p r)
  unfolding take_packet finish
  take_packet-IsCleaned p r ec = elim (Bool-cases (failed (handle_packet B p r).1)) [
    | inl e ↦ rw e (λ h. ((handle_packet B p r).0.file_builder, refl))
    | inr e ↦ elim (Bool-cases (handle_packet B p r).0.end_transfer_flag) [
      | inl f ↦ rw (e, f) (λ h. absurd (ground arith))
      | inr f ↦ rw (e, f) (λ h. absurd (ground arith))
    ]
  ]

  transfer_turn-IsCleaned :
      (stale : Bytes) (result : Expected Bytes) (r : Receiver B)
      → IsCleaned (transfer_turn B stale result r)
  unfolding transfer_turn
  transfer_turn-IsCleaned stale (unexpected ec) r ec' = λ h. (r.file_builder, refl)
  transfer_turn-IsCleaned stale (ok chunk) r ec' = elim (Expected-cases (read_packet stale chunk)) [
    | inr (ec, e) ↦ rw (e, transfer_turn) (λ h. (r.file_builder, refl))
    | inl (p, e) ↦ rw (e, transfer_turn) (take_packet-IsCleaned p r ec')
  ]

  go_on-IsCleaned :
      (o : TransferOutcome) (r : Receiver B) (rest : Receiver B × TransferOutcome)
      → IsCleaned (r, o)
      → IsCleaned rest
      → IsCleaned (go_on B o r rest)
  go_on-IsCleaned waits r rest now later = later
  go_on-IsCleaned (gives_up ec) r rest now later = now
  go_on-IsCleaned (commit_fails ec) r rest now later = now
  go_on-IsCleaned closes r rest now later = now

  -- However a transfer is given up, on an error of the stream, of a packet or of the builder, the
  -- last that the builder is asked is to clean up.
  pub start_transfer-IsCleaned :
      (rs : List (Bytes × Expected Bytes)) (r : Receiver B) → IsCleaned (start_transfer B rs r)
  unfolding start_transfer
  start_transfer-IsCleaned [] r = λ ec h. absurd (ground arith)
  start_transfer-IsCleaned ((stale, result) ∷ rs) r =
      go_on-IsCleaned (transfer_turn B stale result r).1 (transfer_turn B stale result r).0
        (start_transfer B rs (transfer_turn B stale result r).0)
        (transfer_turn-IsCleaned stale result r)
        (start_transfer-IsCleaned rs (transfer_turn B stale result r).0)
