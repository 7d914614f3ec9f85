-- ===== src/Receiver/Examples.antt =====
-- A transfer of one file, over a builder that only keeps what is written.
use file_hop_z.Base.{ℕ, ◌≡◌, refl, false, List, [], ◌∷◌, ◌++◌}
use file_hop_z.Base.Bytes.{Bytes, codes}
use file_hop_z.Errors.{success, Expected, ok, make_error_code, ErrorCode}
use file_hop_z.Ftp.{
  PacketType, as_bytes, read_header, read_packet, create_file, file_data, end_file, end_transfer,
}
use file_hop_z.Receiver.{
  finish, FileBuilder, Receiver, closes, gives_up, start_transfer, transfer_turn, handle_packet,
}
use file_hop_z.Progress.{print_progress, percentage}
use file_hop_z.Receiver.Exact.{taken, IsExact, start_transfer-IsExact}
use file_hop_z.Receiver.Cleanup.{IsCleaned, start_transfer-IsCleaned}

abbrev log_builder : FileBuilder
log_builder = record {
  State = List Bytes;
  make_directory = λ path s. (s, success);
  make_file = λ path id s. (s, success);
  make_symlink = λ path target s. (s, success);
  write = λ bytes id s. (s ++ (bytes ∷ []), success);
  close_file = λ id s. (s, success);
  commit = λ s. (s, success);
  cleanup = λ s. [];
}

abbrev start : Receiver log_builder
start = record {
  end_transfer_flag = false;
  bytes_remaining = 2;
  progress = record { bytes_to_transfer = 2; bytes_transferred = 0; last_progress = 0 };
  file_builder = [];
}

abbrev chunk : PacketType → Bytes → ℕ → Bytes × Expected Bytes
chunk type payload size = (
  [],
  ok (
      as_bytes (record {
        header = record { type = type; flags = 0; size = size; file_id = 1 };
        data_bytes = payload;
      })),
)

abbrev whole_transfer : List (Bytes × Expected Bytes)
whole_transfer =
    chunk create_file (codes "f") 1
    ∷ chunk file_data (7 ∷ 8 ∷ []) 2
    ∷ chunk end_file [] 0
    ∷ chunk end_transfer [] 0
    ∷ []

start_transfer_runs : (start_transfer log_builder whole_transfer start).1 ≡ closes
unfolding finish start_transfer transfer_turn handle_packet as_bytes read_packet read_header
    print_progress percentage
start_transfer_runs = refl

early_end_refused :
    (start_transfer log_builder (chunk end_transfer [] 0 ∷ []) start).1
    ≡ gives_up (make_error_code ErrorCode.premature_end_transfer)
unfolding start_transfer transfer_turn handle_packet as_bytes read_packet read_header
    make_error_code
early_end_refused = refl

start_transfer-IsExact_example :
    IsExact log_builder
      (taken log_builder whole_transfer start)
      2
      (start_transfer log_builder whole_transfer start)
start_transfer-IsExact_example = start_transfer-IsExact log_builder whole_transfer start refl

start_transfer-IsCleaned_example :
    IsCleaned log_builder (start_transfer log_builder (chunk end_transfer [] 0 ∷ []) start)
start_transfer-IsCleaned_example =
    start_transfer-IsCleaned log_builder (chunk end_transfer [] 0 ∷ []) start
