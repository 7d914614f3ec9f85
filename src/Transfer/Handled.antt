-- ===== src/Transfer/Handled.antt =====
-- What the receiver does with each packet of the sender, for every builder of files.
use file_hop_z.Base.{
  ℕ, ◌+◌, ◌-◌, ◌≡◌, refl, sym, ap, ◌∙◌, true, false, List, [], ◌∷◌, length, leb, arith,
}
use file_hop_z.Base.Bytes.{Bytes}
use file_hop_z.Errors.{success, Expected, ok}
use file_hop_z.Ftp.{
  Packet, as_bytes, create_directory, create_file, create_symlink, file_data, end_file,
  end_transfer,
}
use file_hop_z.Ftp.Codec.{length-get_payload}
use file_hop_z.Ftp.Symlink.{extract_symlink}
use file_hop_z.Progress.{Progress, print_progress}
use file_hop_z.Receiver.{
  FileBuilder, Receiver, closes, built, handle_symlink, handle_data, handle_end, handle_type,
  handle_packet, finish, start_transfer,
}
use file_hop_z.Receiver.Turns.{
  reread, get_payload-reread, start_transfer_handled, start_transfer_ended,
}
use file_hop_z.Sender.Packets.{Carries}

module _ (B : FileBuilder) where
  -- A receiver in the midst of a transfer.
  abbrev pub receiving : ℕ → Progress → B.State → Receiver B
  receiving remaining progress s = record {
    end_transfer_flag = false;
    bytes_remaining = remaining;
    progress = progress;
    file_builder = s;
  }

  module _ (stale : Bytes) (rs : List (Bytes × Expected Bytes)) (n : ℕ) (pr : Progress)
      (s s' : B.State) where
    pub start_transfer_directory :
        (id : ℕ) (path : Bytes) (p : Packet)
        → Carries create_directory id path p
        → B.make_directory path s ≡ (s', success)
        → start_transfer B ((stale, ok (as_bytes p)) ∷ rs) (receiving n pr s)
          ≡ start_transfer B rs (receiving n pr s')
    unfolding handle_packet handle_type
    start_transfer_directory id path p c h =
        start_transfer_handled B stale p rs (receiving n pr s) (receiving n pr s') c.valid
          (rw (c.type_is, get_payload-reread stale p c.valid, c.payload_is)
            (ap (built B (receiving n pr s)) h))
          refl

    pub start_transfer_file :
        (id : ℕ) (path : Bytes) (p : Packet)
        → Carries create_file id path p
        → B.make_file path id s ≡ (s', success)
        → start_transfer B ((stale, ok (as_bytes p)) ∷ rs) (receiving n pr s)
          ≡ start_transfer B rs (receiving n pr s')
    unfolding handle_packet handle_type
    start_transfer_file id path p c h =
        start_transfer_handled B stale p rs (receiving n pr s) (receiving n pr s') c.valid
          (rw (c.type_is, get_payload-reread stale p c.valid, c.payload_is, c.file_id_is)
            (ap (built B (receiving n pr s)) h))
          refl

    pub start_transfer_close :
        (id : ℕ) (p : Packet)
        → Carries end_file id [] p
        → B.close_file id s ≡ (s', success)
        → start_transfer B ((stale, ok (as_bytes p)) ∷ rs) (receiving n pr s)
          ≡ start_transfer B rs (receiving n pr s')
    unfolding handle_packet handle_type
    start_transfer_close id p c h =
        start_transfer_handled B stale p rs (receiving n pr s) (receiving n pr s') c.valid
          (rw (c.type_is, c.file_id_is) (ap (built B (receiving n pr s)) h)) refl

    pub start_transfer_symlink :
        (path target payload : Bytes) (id : ℕ) (p : Packet)
        → Carries create_symlink id payload p
        → extract_symlink (reread stale p) ≡ ok (path, target)
        → B.make_symlink path target s ≡ (s', success)
        → start_transfer B ((stale, ok (as_bytes p)) ∷ rs) (receiving n pr s)
          ≡ start_transfer B rs (receiving n pr s')
    unfolding handle_packet handle_type handle_symlink
    start_transfer_symlink path target payload id p c e h =
        start_transfer_handled B stale p rs (receiving n pr s) (receiving n pr s') c.valid
          (rw (c.type_is, e, handle_symlink) (ap (built B (receiving n pr s)) h)) refl

    -- A packet of content takes its bytes from what remains.
    pub start_transfer_data :
        (id : ℕ) (bytes : Bytes) (p : Packet)
        → Carries file_data id bytes p
        → B.write bytes id s ≡ (s', success)
        → start_transfer B ((stale, ok (as_bytes p)) ∷ rs) (receiving (length bytes + n) pr s)
          ≡ start_transfer B rs (receiving n (print_progress (length bytes) pr) s')
    unfolding handle_packet handle_type handle_data
    start_transfer_data id bytes p c h =
        let size : p.header.size ≡ length bytes =
          sym (length-get_payload p c.valid.whole) ∙ ap length c.payload_is in
        let enough : leb (length bytes) (length bytes + n) ≡ true = ground arith in
        let left : length bytes + n - length bytes ≡ n = omega arith in
        start_transfer_handled B stale p rs (receiving (length bytes + n) pr s)
          (receiving n (print_progress (length bytes) pr) s') c.valid
          (rw
            (
              c.type_is,
              get_payload-reread stale p c.valid,
              c.payload_is,
              c.file_id_is,
              size,
              enough,
              h,
              left,
            )
            refl)
          refl

  -- The packet that ends the transfer, when nothing remains.
  pub start_transfer_end :
      (stale : Bytes) (pr : Progress) (s s' : B.State) (p : Packet)
      → Carries end_transfer 0 [] p
      → B.commit s ≡ (s', success)
      → start_transfer B ((stale, ok (as_bytes p)) ∷ []) (receiving 0 pr s)
        ≡ (record (receiving 0 pr s') { end_transfer_flag = true }, closes)
  unfolding handle_packet handle_type handle_end finish
  start_transfer_end stale pr s s' p c h =
      start_transfer_ended B stale p (receiving 0 pr s)
        (record (receiving 0 pr s) { end_transfer_flag = true })
        (record (receiving 0 pr s') { end_transfer_flag = true }) c.valid (rw c.type_is refl) refl
        (rw h refl)
