-- ===== src/Confirmation.antt =====
-- The dialogue before a transfer: transfer_confirmation of src/receiver/receiver.cpp, which asks its
-- user, and of src/sender/sender.cpp, which reads the answer.
pub mod Agreement
mod Examples
use file_hop_z.Base.{
  ℕ, Bool, true, false, ◌&&◌, ◌||◌, Option, none, some, List, [], ◌∷◌, length, ltb, ◌==◌,
  if◌then◌else◌,
}
use file_hop_z.Base.Bytes.{Bytes}
use file_hop_z.Errors.{
  BoostError, success, failed, Expected, ok, unexpected, ErrorCode, make_error_code,
}
use file_hop_z.Ftp.{Packet, PacketType, header_len, read_header, as_bytes, confirm, confirm_failed}
use file_hop_z.Progress.{Progress}
use file_hop_z.Receiver.{FileBuilder, Receiver, receive_announcement}
use file_hop_z.Sender.{empty_packet}

-- `confirm == "Y" || confirm == "y"`
abbrev pub is_yes : Bytes → Bool
is_yes (c ∷ []) = (c == 89) || (c == 121)
is_yes _ = false

-- `confirm == "n" || confirm == "N"`
abbrev pub is_no : Bytes → Bool
is_no (c ∷ []) = (c == 110) || (c == 78)
is_no _ = false

-- The loop over the lines that the user enters, up to the first that is an answer.
unfoldable pub read_answer : List Bytes → Option Bool
read_answer [] = none
read_answer (line ∷ lines) =
    let rest = read_answer lines in
    if is_yes line then some true else if is_no line then some false else rest

-- The packet for an answer.
abbrev pub confirm_packet : Bool → Bytes → Packet
confirm_packet true stale = empty_packet confirm 0 stale
confirm_packet false stale = empty_packet confirm_failed 0 stale

-- How either side's part ends: with another line awaited, with the transfer, or with an error value,
-- which is a success where there is nothing more to do.
pub data ConfirmationOutcome : Type 0 where
  asks : ConfirmationOutcome
  starts : ConfirmationOutcome
  ends : BoostError → ConfirmationOutcome

-- What follows the sending of an answer, by what `send` returned.
abbrev pub after_answer : Bool → BoostError → ConfirmationOutcome
after_answer accepted ec = if failed ec then ends ec else if accepted then starts else ends ec

-- The receiver's part: the bytes that it sends, and how it ends. `send` is what the stream returns.
abbrev pub answer : Bytes → (Bytes → BoostError) → Option Bool → List Bytes × ConfirmationOutcome
answer stale send none = ([], asks)
answer stale send (some accepted) = (
  as_bytes (confirm_packet accepted stale) ∷ [],
  after_answer accepted (send (as_bytes (confirm_packet accepted stale))),
)

module _ (B : FileBuilder) where
  -- The announced size, in the receiver.
  abbrev pub announced : ℕ → Receiver B → Receiver B
  announced total r = record r {
    bytes_remaining = total;
    progress = record r.progress { bytes_to_transfer = total };
  }

  -- `Receiver::transfer_confirmation` on the result of `receive` and the lines of the user.
  unfoldable pub confirm_transfer :
      Bytes
      → Bytes
      → Expected Bytes
      → List Bytes
      → (Bytes → BoostError)
      → Receiver B
      → Receiver B × (List Bytes × ConfirmationOutcome)
  confirm_transfer stale stale_answer result lines send r = elim result [
    | unexpected ec ↦ (r, ([], ends ec))
    | ok chunk ↦ elim (receive_announcement stale chunk) [
      | unexpected ec ↦ (r, ([], ends ec))
      | ok total ↦ (announced total r, answer stale_answer send (read_answer lines))
    ]
  ]

-- The answer that the sender reads in the header of a chunk.
abbrev pub reply_outcome : PacketType → ConfirmationOutcome
reply_outcome confirm = starts
reply_outcome _ = ends (make_error_code ErrorCode.receiver_refused_transfer)

-- `Sender::transfer_confirmation` after the announcement was sent.
unfoldable pub read_reply : Expected Bytes → ConfirmationOutcome
read_reply result = elim result [
  | unexpected ec ↦ ends ec
  | ok chunk ↦
      if ltb (length chunk) header_len
      then ends (make_error_code ErrorCode.malformed_packet)
      else reply_outcome (read_header chunk).type
]

-- The whole of `Sender::transfer_confirmation`, by what `send` and then `receive` returned.
unfoldable pub request_confirmation : BoostError → Expected Bytes → ConfirmationOutcome
unfolding read_reply
request_confirmation sent reply = if failed sent then ends sent else read_reply reply
