-- ===== src/Sender/Sites.antt =====
-- The sends of src/sender/sender.cpp, each with its own check of what the stream returned: an error
-- ends the transfer there. The state is the packets that were handed to the stream so far, and
-- `send` has what the stream returns for each number of a packet.
use file_hop_z.Base.{
  ℕ, zero, suc, ◌+◌, ◌%◌, List, [], ◌∷◌, ◌++◌, take, drop, length, ◌==◌, if◌then◌else◌,
}
use file_hop_z.Base.Bytes.{Bytes, u32_mod}
use file_hop_z.Errors.{BoostError, success, failed, ok, unexpected, ErrorCode, make_error_code}
use file_hop_z.Ftp.{
  PacketHeader, Packet, packet_size, set_payload, create_directory, end_file, end_transfer,
}
use file_hop_z.Ftp.Symlink.{symlink_packet}
use file_hop_z.Sender.{
  Entry, directory, regular, unreadable, symlink, unsupported, empty_packet, chunk_packet,
  create_file_packet,
}

-- `if(ec) co_return ec;` and what stands after it.
abbrev pub unless_failed :
    List Packet × BoostError → (List Packet → List Packet × BoostError) → List Packet × BoostError
unless_failed (handed, ec) go = if failed ec then (handed, ec) else go handed

-- `co_return boost::system::error_code()`
abbrev pub returns_success : List Packet → List Packet × BoostError
returns_success handed = (handed, success)

module _ (send : ℕ → BoostError) where
  -- `co_await protostream_.send(...)`
  abbrev pub hand : Packet → List Packet → List Packet × BoostError
  hand p handed = (handed ++ (p ∷ []), send (length handed))

  -- The loop over the content of a file. `print_progress` returns no error, so that its check
  -- lets every turn pass.
  unfoldable pub send_chunks : ℕ → ℕ → Bytes → Bytes → List Packet → List Packet × BoostError
  send_chunks zero file_id stale rest handed = (handed, success)
  send_chunks (suc fuel) file_id stale rest handed =
      let chunk = take packet_size rest in
      let (handed', ec) = hand (chunk_packet file_id stale chunk) handed in
      let more = send_chunks fuel file_id stale (drop packet_size rest) handed' in
      if failed ec
      then (handed', ec)
      else if length chunk == packet_size
      then more
      else (handed', success)

  -- The case of a regular file that opened; its length is fuel enough for the loop.
  unfoldable pub send_file :
      PacketHeader → Bytes → ℕ → Bytes → Bytes → List Packet → List Packet × BoostError
  unfolding send_chunks
  send_file stale_header stale file_id path content handed =
      unless_failed (hand (create_file_packet stale_header file_id stale path) handed) λ created.
        unless_failed (send_chunks (suc (length content)) file_id stale content created) λ filled.
          unless_failed (hand (empty_packet end_file file_id stale) filled) returns_success

  -- `path_handler`, with the next file id.
  unfoldable pub send_path :
      PacketHeader → Bytes → Entry → ℕ → List Packet → (List Packet × BoostError) × ℕ
  unfolding send_file
  send_path stale_header stale (directory path) id handed = (
    unless_failed (hand (set_payload path (empty_packet create_directory id stale)).0 handed)
        returns_success,
    (id + 1) % u32_mod,
  )
  send_path stale_header stale (regular path content) id handed =
      (send_file stale_header stale id path content handed, (id + 1) % u32_mod)
  send_path stale_header stale (unreadable path content) id handed =
      ((handed, make_error_code ErrorCode.file_open_failed), id)
  send_path stale_header stale (symlink path target) id handed =
      elim (symlink_packet stale path target) [
        | unexpected ec ↦ ((handed, ec), id)
        | ok p ↦ (unless_failed (hand p handed) returns_success, id)
      ]
  send_path stale_header stale (unsupported path) id handed =
      ((handed, make_error_code ErrorCode.unsupported_file_type), id)

  -- `start_transfer`; `closed` is what closing the stream returns.
  unfoldable pub start_sending :
      PacketHeader → Bytes → BoostError → List Entry → ℕ → List Packet → List Packet × BoostError
  unfolding send_path
  start_sending stale_header stale closed [] id handed =
      unless_failed (hand (empty_packet end_transfer 0 stale) handed) λ ended. (ended, closed)
  start_sending stale_header stale closed (e ∷ es) id handed =
      let (r, id') = send_path stale_header stale e id handed in
      unless_failed r (start_sending stale_header stale closed es id')
