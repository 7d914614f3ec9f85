-- ===== src/Sender/Examples.antt =====
-- The sender at a small tree.
use file_hop_z.Base.{
  ℕ, ◌≤◌, ◌<◌, ◌≡◌, refl, false, List, [], ◌∷◌, take, length, All, arith, ◌==◌, if◌then◌else◌,
}
use file_hop_z.Base.Bytes.{codes}
use file_hop_z.Ftp.{PacketHeader, confirm, packet_size, as_bytes}
use file_hop_z.Sender.{
  Entry, directory, regular, symlink, read_chunks, send_entries, bytes_to_send, announce_packet,
}
use file_hop_z.Errors.{BoostError, success, failed, ok, ErrorCode, make_error_code}
use file_hop_z.Sender.Sites.{start_sending}
use file_hop_z.Sender.Sending.{start_sending_refused}
use file_hop_z.Receiver.{receive_announcement}
use file_hop_z.Sender.Announcement.{receive_announcement-announce_packet}
use file_hop_z.Sender.Chunks.{joined, joined-read_chunks}
use file_hop_z.Sender.Announced.{content_total, content_total_announced}
use file_hop_z.Ftp.Symlink.{symlink_packet}

abbrev old_header : PacketHeader
old_header = record { type = confirm; flags = 0; size = 0; file_id = 0 }

abbrev tree : List Entry
tree =
    directory (codes "d")
    ∷ regular (codes "d/f") (1 ∷ 2 ∷ 3 ∷ [])
    ∷ regular (codes "e") []
    ∷ symlink (codes "l") (codes "e")
    ∷ []

joined-read_chunks_example :
    (joined (read_chunks 4 (1 ∷ 2 ∷ 3 ∷ [])) ≡ 1 ∷ 2 ∷ 3 ∷ [])
    × All (λ c. length c ≤ packet_size) (read_chunks 4 (1 ∷ 2 ∷ 3 ∷ []))
joined-read_chunks_example = joined-read_chunks 4 (1 ∷ 2 ∷ 3 ∷ []) (omega arith)

content_total_announced_example :
    content_total (send_entries old_header [] tree 0).0 ≡ bytes_to_send tree 0
unfolding send_entries symlink_packet
content_total_announced_example = content_total_announced old_header [] tree (omega arith) refl

announcement_read : receive_announcement [] (as_bytes (announce_packet [] 70000)) ≡ ok 70000
announcement_read = receive_announcement-announce_packet [] [] 70000 (omega arith)

-- A stream that stops taking packets at its third.
abbrev third_refused : ℕ → BoostError
third_refused j = if j == 2 then make_error_code ErrorCode.loops_not_running else success

third_refused_before : (j : ℕ) → j < 2 → failed (third_refused j) ≡ false
unfolding make_error_code
third_refused_before j h = ground arith

start_sending_refused_example :
    start_sending third_refused old_header [] success tree 0 []
    ≡ (take 3 (send_entries old_header [] tree 0).0, make_error_code ErrorCode.loops_not_running)
unfolding send_entries make_error_code
start_sending_refused_example =
    start_sending_refused third_refused old_header [] success tree 2 third_refused_before refl
      (omega arith)
