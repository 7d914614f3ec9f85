-- ===== src/Confirmation/Examples.antt =====
-- Dialogues before a transfer.
use file_hop_z.Base.{ℕ, ◌≡◌, ◌+◌, refl, false, some, none, [], ◌∷◌, arith}
use file_hop_z.Base.Bytes.{Bytes, codes}
use file_hop_z.Errors.{success, ok, ErrorCode, make_error_code}
use file_hop_z.Ftp.{as_bytes}
use file_hop_z.Receiver.{FileBuilder, Receiver}
use file_hop_z.Sender.{announce_packet}
use file_hop_z.Confirmation.{
  read_answer, ends, announced, confirm_transfer, read_reply, request_confirmation,
}
use file_hop_z.Confirmation.Agreement.{receiver_goes, sender_goes, confirm_transfer_agrees}

-- A builder that only counts its files.
abbrev counter : FileBuilder
counter = record {
  State = ℕ;
  make_directory = λ path s. (s, success);
  make_file = λ path id s. (s + 1, success);
  make_symlink = λ path target s. (s, success);
  write = λ bytes id s. (s, success);
  close_file = λ id s. (s, success);
  commit = λ s. (s, success);
  cleanup = λ s. s;
}

abbrev idle : Receiver counter
idle = record {
  end_transfer_flag = false;
  bytes_remaining = 0;
  progress = record { bytes_to_transfer = 0; bytes_transferred = 0; last_progress = 0 };
  file_builder = 0;
}

read_answer_last : read_answer (codes "yes" ∷ codes "" ∷ codes "N" ∷ []) ≡ some false
unfolding read_answer
read_answer_last = refl

read_answer_waits : read_answer (codes "no" ∷ []) ≡ none
unfolding read_answer
read_answer_waits = refl

-- Too short for a header.
read_reply_short : read_reply (ok (0 ∷ 0 ∷ [])) ≡ ends (make_error_code ErrorCode.malformed_packet)
unfolding read_reply
read_reply_short = refl

-- The user enters "maybe" and then "n".
confirm_transfer_agrees_example :
    (reply : Bytes) × (confirm_transfer counter [] []
        (ok (as_bytes (announce_packet [] 5000)))
        (codes "maybe" ∷ codes "n" ∷ [])
        (λ bytes. success)
        idle
      ≡ (announced counter 5000 idle, (reply ∷ [], receiver_goes false)))
    × (request_confirmation success (ok reply) ≡ sender_goes false)
unfolding read_answer
confirm_transfer_agrees_example =
    confirm_transfer_agrees counter [] [] [] 5000 (codes "maybe" ∷ codes "n" ∷ []) false idle
      (omega arith) refl
