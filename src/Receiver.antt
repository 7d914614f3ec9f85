-- ===== src/Receiver.antt =====
-- src/receiver/receiver.cpp: what the receiver does with each chunk of a transfer. The builder of
-- the files is an interface here.
pub mod Exact
pub mod Cleanup
pub mod Turns
mod Examples
use file_hop_z.Base.{
  ℕ, ◌+◌, ◌-◌, Bool, true, false, not, List, [], ◌∷◌, take, ltb, leb, ◌==◌, if◌then◌else◌,
}
use file_hop_z.Base.Bytes.{Bytes, of_le}
use file_hop_z.Errors.{
  BoostError, success, failed, Expected, ok, unexpected, ErrorCode, make_error_code,
}
use file_hop_z.Ftp.{
  PacketType, Packet, get_payload, read_packet, create_directory, create_file, create_symlink,
  file_data, end_file, end_transfer,
}
use file_hop_z.Ftp.Symlink.{extract_symlink}
use file_hop_z.Progress.{Progress, print_progress}

-- The operations of `File_builder` that the receiver calls.
pub record FileBuilder : Type 1 where
  pub State : Type 0
  pub make_directory : Bytes → State → State × BoostError
  pub make_file : Bytes → ℕ → State → State × BoostError
  pub make_symlink : Bytes → Bytes → State → State × BoostError
  pub write : Bytes → ℕ → State → State × BoostError
  pub close_file : ℕ → State → State × BoostError
  pub commit : State → State × BoostError
  pub cleanup : State → State

-- The announced size in the first chunk, as `transfer_confirmation` reads it.
unfoldable pub receive_announcement : Bytes → Bytes → Expected ℕ
receive_announcement stale chunk = elim (read_packet stale chunk) [
  | unexpected ec ↦ unexpected ec
  | ok p ↦
      if ltb p.header.size 8
      then unexpected (make_error_code ErrorCode.malformed_packet)
      else ok (of_le (take 8 p.data_bytes))
]

-- How a turn of the loop of `start_transfer` ends: the next chunk is awaited, the transfer is
-- given up, or all files are in place and the stream is closed.
pub data TransferOutcome : Type 0 where
  waits : TransferOutcome
  gives_up : BoostError → TransferOutcome
  commit_fails : BoostError → TransferOutcome
  closes : TransferOutcome

module _ (B : FileBuilder) where
  pub record Receiver : Type 0 where
    pub end_transfer_flag : Bool
    pub bytes_remaining : ℕ
    pub progress : Progress
    pub file_builder : B.State

  -- The result of an operation of the builder.
  abbrev pub built : Receiver → B.State × BoostError → Receiver × BoostError
  built r (s, ec) = (record r { file_builder = s }, ec)

  -- `case CREATE_SYMLINK`
  unfoldable pub handle_symlink : Packet → Receiver → Receiver × BoostError
  unfolding extract_symlink
  handle_symlink p r = elim (extract_symlink p) [
    | unexpected ec ↦ (r, ec)
    | ok (relative_path, target) ↦ built r (B.make_symlink relative_path target r.file_builder)
  ]

  -- `case FILE_DATA`
  unfoldable pub handle_data : Packet → Receiver → Receiver × BoostError
  handle_data p r =
      if leb p.header.size r.bytes_remaining
      then (let (s, ec) = B.write (get_payload p) p.header.file_id r.file_builder in
          if failed ec then (record r { file_builder = s }, ec) else (
            record r {
              file_builder = s;
              bytes_remaining = r.bytes_remaining - p.header.size;
              progress = print_progress p.header.size r.progress;
            },
            success,
          ))
      else (r, make_error_code ErrorCode.transfer_size_exceeded)

  -- `case END_TRANSFER`
  unfoldable pub handle_end : Receiver → Receiver × BoostError
  handle_end r =
      if r.bytes_remaining == 0
      then (record r { end_transfer_flag = true }, success)
      else (r, make_error_code ErrorCode.premature_end_transfer)

  unfoldable pub handle_type : PacketType → Packet → Receiver → Receiver × BoostError
  unfolding handle_symlink handle_data handle_end
  handle_type create_directory p r = built r (B.make_directory (get_payload p) r.file_builder)
  handle_type create_file p r =
      built r (B.make_file (get_payload p) p.header.file_id r.file_builder)
  handle_type create_symlink p r = handle_symlink p r
  handle_type file_data p r = handle_data p r
  handle_type end_file p r = built r (B.close_file p.header.file_id r.file_builder)
  handle_type end_transfer p r = handle_end r
  handle_type _ p r = (r, make_error_code ErrorCode.unknown_packet_type)

  unfoldable pub handle_packet : Packet → Receiver → Receiver × BoostError
  unfolding handle_type
  handle_packet p r = handle_type p.header.type p r

  -- `file_builder_.cleanup()` and the error.
  abbrev pub give_up : BoostError → Receiver → Receiver × TransferOutcome
  give_up ec r = (record r { file_builder = B.cleanup r.file_builder }, gives_up ec)

  -- The end of the loop: `commit`, and then the stream is closed.
  unfoldable pub finish : Receiver → Receiver × TransferOutcome
  finish r =
      let (s, ec) = B.commit r.file_builder in
      (record r { file_builder = s }, if failed ec then commit_fails ec else closes)

  -- What follows a packet: an error ends the transfer, and so does the flag.
  abbrev pub taken_up : Receiver × BoostError → Receiver × TransferOutcome
  taken_up (r, ec) =
      if failed ec then give_up ec r else if r.end_transfer_flag then finish r else (r, waits)

  -- A packet, and whether the loop goes on.
  unfoldable pub take_packet : Packet → Receiver → Receiver × TransferOutcome
  take_packet p r = taken_up (handle_packet p r)

  -- One turn of the loop on the result of `receive`; `stale` is what the packet's memory held.
  unfoldable pub transfer_turn : Bytes → Expected Bytes → Receiver → Receiver × TransferOutcome
  unfolding take_packet
  transfer_turn stale result r = elim result [
    | unexpected ec ↦ give_up ec r
    | ok chunk ↦ elim (read_packet stale chunk) [
      | unexpected ec ↦ give_up ec r
      | ok p ↦ take_packet p r
    ]
  ]

  -- The loop's condition: another turn, if this one left it waiting.
  abbrev pub go_on :
      TransferOutcome → Receiver → Receiver × TransferOutcome → Receiver × TransferOutcome
  go_on waits r rest = rest
  go_on (gives_up ec) r rest = (r, gives_up ec)
  go_on (commit_fails ec) r rest = (r, commit_fails ec)
  go_on closes r rest = (r, closes)

  -- The loop over the results of `receive`, as long as it waits for another.
  unfoldable pub start_transfer :
      List (Bytes × Expected Bytes) → Receiver → Receiver × TransferOutcome
  start_transfer [] r = (r, waits)
  start_transfer ((stale, result) ∷ rs) r =
      let (r', outcome) = transfer_turn stale result r in
      let rest = start_transfer rs r' in go_on outcome r' rest
