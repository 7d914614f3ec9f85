-- ===== src/Confirmation/Agreement.antt =====
-- Both sides draw the same conclusion from the user's answer.
use file_hop_z.Base.{ℕ, ◌<◌, ◌≡◌, refl, ap, Bool, true, false, some, List, [], ◌∷◌}
use file_hop_z.Base.Bytes.{Bytes, u64_mod}
use file_hop_z.Errors.{success, ok, ErrorCode, make_error_code}
use file_hop_z.Ftp.{as_bytes, read_header, header_bytes, byte_type}
use file_hop_z.Receiver.{FileBuilder, Receiver}
use file_hop_z.Sender.{announce_packet}
use file_hop_z.Sender.Announcement.{receive_announcement-announce_packet}
use file_hop_z.Confirmation.{
  read_answer, confirm_packet, ConfirmationOutcome, starts, ends, after_answer, announced,
  confirm_transfer, read_reply, request_confirmation,
}

-- What the receiver's side does after its user's answer, and the sender's.
abbrev pub receiver_goes : Bool → ConfirmationOutcome
receiver_goes true = starts
receiver_goes false = ends success

abbrev pub sender_goes : Bool → ConfirmationOutcome
sender_goes true = starts
sender_goes false = ends (make_error_code ErrorCode.receiver_refused_transfer)

after_answer-success : (accepted : Bool) → after_answer accepted success ≡ receiver_goes accepted
after_answer-success true = refl
after_answer-success false = refl

read_reply-confirm_packet :
    (accepted : Bool) (stale : Bytes)
    → read_reply (ok (as_bytes (confirm_packet accepted stale))) ≡ sender_goes accepted
unfolding read_reply as_bytes read_header header_bytes byte_type
read_reply-confirm_packet true stale = refl
read_reply-confirm_packet false stale = refl

-- The user's first answer decides for both sides: if it is yes, the receiver takes the announced
-- size and both begin the transfer; if it is no, the receiver ends without an error and the sender
-- with receiver_refused_transfer. The size has 64 bits, both packets get through, and it does not
-- matter what the user entered before the answer nor what either packet's memory held.
pub confirm_transfer_agrees :
    (B : FileBuilder) (stale_sender stale_receiver stale_answer : Bytes) (total : ℕ)
    (lines : List Bytes) (accepted : Bool) (r : Receiver B)
    → total < u64_mod
    → read_answer lines ≡ some accepted
    → (reply : Bytes) × (confirm_transfer B stale_receiver stale_answer
          (ok (as_bytes (announce_packet stale_sender total)))
          lines
          (λ bytes. success)
          r
        ≡ (announced B total r, (reply ∷ [], receiver_goes accepted)))
      × (request_confirmation success (ok reply) ≡ sender_goes accepted)
unfolding confirm_transfer request_confirmation
confirm_transfer_agrees B stale_sender stale_receiver stale_answer total lines accepted r small h =
    (
      as_bytes (confirm_packet accepted stale_answer),
      rw
          (
            receive_announcement-announce_packet stale_sender stale_receiver total small,
            confirm_transfer,
            h,
          )
          (ap
            (λ o. (announced B total r, (as_bytes (confirm_packet accepted stale_answer) ∷ [], o)))
            (after_answer-success accepted)),
      read_reply-confirm_packet accepted stale_answer,
    )
