-- ===== src/Sender/Announcement.antt =====
-- The size that the sender announces is the size that the receiver asks its user about.
use file_hop_z.Base.{ℕ, ◌<◌, ◌≡◌, ap, arith}
use file_hop_z.Base.Bytes.{Bytes, of_le-to_le_u64, u64_mod}
use file_hop_z.Errors.{ok}
use file_hop_z.Ftp.{as_bytes, set_payload}
use file_hop_z.Ftp.Codec.{IsPacket, read_packet-as_bytes}
use file_hop_z.Receiver.{receive_announcement}
use file_hop_z.Sender.{announce_packet}

-- A total of 64 bits is read as it was announced, whatever both packets' memory held before.
pub receive_announcement-announce_packet :
    (stale_sender stale_receiver : Bytes) (total : ℕ)
    → total < u64_mod
    → receive_announcement stale_receiver (as_bytes (announce_packet stale_sender total)) ≡ ok total
unfolding announce_packet set_payload receive_announcement
receive_announcement-announce_packet stale_sender stale_receiver total small =
    let packet : IsPacket (announce_packet stale_sender total) = record {
      type_ok = tt;
      flags_ok = omega arith;
      size_ok = omega arith;
      file_id_ok = omega arith;
      whole = omega arith;
    } in
    rw
      (
        read_packet-as_bytes stale_receiver (announce_packet stale_sender total) packet,
        receive_announcement,
      )
      (ap ok (of_le-to_le_u64 total small))
