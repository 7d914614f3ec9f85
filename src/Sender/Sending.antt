-- ===== src/Sender/Sending.antt =====
-- What the sender hands to a stream that refuses one of its packets, or none, against the packets
-- that it makes for a stream that takes them all.
use file_hop_z.Base.{
  ℕ, zero, suc, ◌+◌, ◌<◌, ◌%◌, ◌≡◌, refl, ap, ◌∙◌, inl, inr, true, false, List, [], ◌∷◌, ◌++◌, map,
  take, drop, length, ◌==◌, if◌then◌else◌, arith, Bool-cases,
}
use file_hop_z.Base.Bytes.{Bytes, u32_mod}
use file_hop_z.Errors.{BoostError, success, failed, Expected-cases}
use file_hop_z.Ftp.{PacketHeader, Packet, packet_size, end_file, end_transfer}
use file_hop_z.Ftp.Symlink.{symlink_packet}
use file_hop_z.Sender.{
  Entry, directory, regular, unreadable, symlink, unsupported, empty_packet, chunk_packet,
  create_file_packet, read_chunks, file_packets, path_handler, send_entries,
}
use file_hop_z.Sender.Sites.{
  unless_failed, returns_success, hand, send_chunks, send_file, send_path, start_sending,
}
use file_hop_z.Sender.Handed.{
  close_after, hand_all, hand_all-append, unless_failed_ext, entry_then, hand_all_refused,
  hand_all_taken,
}

module _ (send : ℕ → BoostError) where
  send_chunks_lem :
      (fuel file_id : ℕ) (stale rest : Bytes) (handed : List Packet)
      → send_chunks send fuel file_id stale rest handed
        ≡ hand_all send handed (map (chunk_packet file_id stale) (read_chunks fuel rest)) success
  unfolding send_chunks hand_all read_chunks
  send_chunks_lem zero file_id stale rest handed = refl
  send_chunks_lem (suc fuel) file_id stale rest handed =
      let chunk = take packet_size rest in
      let handed' = handed ++ (chunk_packet file_id stale chunk ∷ []) in
      elim (Bool-cases (length chunk == packet_size)) [
        | inl e ↦ rw e (
            ap (λ r. if failed (send (length handed)) then (handed', send (length handed)) else r)
              (send_chunks_lem fuel file_id stale (drop packet_size rest) handed'))
        | inr e ↦ rw e refl
      ]

  send_file_lem :
      (stale_header : PacketHeader) (stale : Bytes) (file_id : ℕ) (path content : Bytes)
      (handed : List Packet)
      → send_file send stale_header stale file_id path content handed
        ≡ hand_all send handed (file_packets stale_header stale file_id path content) success
  unfolding send_file file_packets hand_all
  send_file_lem stale_header stale file_id path content handed =
      let chunks = map (chunk_packet file_id stale) (read_chunks (suc (length content)) content) in
      let first = create_file_packet stale_header file_id stale path in
      let last = empty_packet end_file file_id stale in
      let finish : List Packet → List Packet × BoostError =
        λ f. unless_failed (hand send last f) returns_success in
      unless_failed_ext send (hand send first handed)
        (λ h.
          unless_failed (send_chunks send (suc (length content)) file_id stale content h) finish)
        (λ h. hand_all send h (chunks ++ (last ∷ [])) success)
        (λ h.
          ap (λ r. unless_failed r finish)
            (send_chunks_lem (suc (length content)) file_id stale content h)
          ∙ hand_all-append send h chunks (last ∷ []) success success refl)

  -- One entry: what it hands over and returns, and the next file id.
  send_path_lem :
      (stale_header : PacketHeader) (stale : Bytes) (e : Entry) (id : ℕ) (handed : List Packet)
      → let (packets, id', ec) = path_handler stale_header stale e id in
        send_path send stale_header stale e id handed ≡ (hand_all send handed packets ec, id')
  unfolding send_path path_handler hand_all
  send_path_lem stale_header stale (directory path) id handed = refl
  send_path_lem stale_header stale (regular path content) id handed =
      ap (λ r. (r, (id + 1) % u32_mod)) (send_file_lem stale_header stale id path content handed)
  send_path_lem stale_header stale (unreadable path content) id handed = refl
  send_path_lem stale_header stale (symlink path target) id handed =
      elim (Expected-cases (symlink_packet stale path target)) [
        | inl (p, e) ↦ rw (e, send_path, path_handler) refl
        | inr (ec, e) ↦ rw (e, send_path, path_handler) refl
      ]
  send_path_lem stale_header stale (unsupported path) id handed = refl

  start_sending_end :
      (closed : BoostError) (p : Packet) (handed : List Packet)
      → unless_failed (hand send p handed) (λ ended. (ended, closed))
        ≡ close_after closed (hand_all send handed (p ∷ []) success)
  unfolding hand_all
  start_sending_end closed p handed = elim (Bool-cases (failed (send (length handed)))) [
    | inl f ↦ rw (f, f) refl
    | inr f ↦ rw f refl
  ]

  -- The whole transfer: the packets that the sender makes are handed over until one is refused.
  start_sending_lem :
      (stale_header : PacketHeader) (stale : Bytes) (closed : BoostError) (es : List Entry) (id : ℕ)
      (handed : List Packet)
      → let (packets, ec) = send_entries stale_header stale es id in
        start_sending send stale_header stale closed es id handed
        ≡ close_after closed (hand_all send handed packets ec)
  unfolding start_sending send_entries
  start_sending_lem stale_header stale closed [] id handed =
      start_sending_end closed (empty_packet end_transfer 0 stale) handed
  start_sending_lem stale_header stale closed (e ∷ es) id handed =
      let (packets, id', ec) = path_handler stale_header stale e id in
      let (later, ec') = send_entries stale_header stale es id' in
      ap
        (λ (r : (List Packet × BoostError) × ℕ).
          unless_failed r.0 (start_sending send stale_header stale closed es r.1))
        (send_path_lem stale_header stale e id handed)
      ∙ entry_then send closed handed packets later ec ec'
          (start_sending send stale_header stale closed es id')
          (start_sending_lem stale_header stale closed es id')

  -- The first packet that the stream refuses, at whichever of the sends, is the last that it is
  -- handed: the sender hands it the packets in front of that one, all of which it took, and that
  -- one, returns its error, and does not close the stream.
  pub start_sending_refused :
      (stale_header : PacketHeader) (stale : Bytes) (closed : BoostError) (es : List Entry) (k : ℕ)
      → ((j : ℕ) → j < k → failed (send j) ≡ false)
      → failed (send k) ≡ true
      → k < length (send_entries stale_header stale es 0).0
      → start_sending send stale_header stale closed es 0 []
        ≡ (take (suc k) (send_entries stale_header stale es 0).0, send k)
  start_sending_refused stale_header stale closed es k took bad h =
      let (packets, ec) = send_entries stale_header stale es 0 in
      let number : (j : ℕ) → 0 + j ≡ j = λ j. omega arith in
      start_sending_lem stale_header stale closed es 0 []
      ∙ ap (close_after closed) (
          hand_all_refused send [] packets ec k
            (λ j l. ap (λ n. failed (send n)) (number j) ∙ took j l)
            (ap (λ n. failed (send n)) (number k) ∙ bad) h)
      ∙ rw (number k, bad) refl

  -- If the stream refuses none, it is handed every packet, and the sender returns the error of the
  -- entry that could not be sent, if there was one, and otherwise what closing the stream returned.
  pub start_sending_taken :
      (stale_header : PacketHeader) (stale : Bytes) (closed : BoostError) (es : List Entry)
      → ((j : ℕ) → failed (send j) ≡ false)
      → start_sending send stale_header stale closed es 0 []
        ≡ close_after closed (send_entries stale_header stale es 0)
  start_sending_taken stale_header stale closed es took =
      let (packets, ec) = send_entries stale_header stale es 0 in
      start_sending_lem stale_header stale closed es 0 []
      ∙ ap (close_after closed) (hand_all_taken send [] packets ec took)
