-- ===== src/Sender/Announced.antt =====
-- The sender sends as many bytes of file content as it announces.
use file_hop_z.Base.{
  ℕ, suc, ◌+◌, ◌%◌, ◌≤◌, ◌<◌, ◌≡◌, refl, ap, ◌∙◌, List, [], ◌∷◌, ◌++◌, map, false, length,
  length-append, All, arith, Bool-cases, inl, inr,
}
use file_hop_z.Base.Bytes.{Bytes, u64_mod}
use file_hop_z.Errors.{BoostError, failed, ok, Expected-cases, make_error_code}
use file_hop_z.Ftp.{
  PacketHeader, Packet, packet_size, set_payload, create_directory, create_symlink, end_file,
}
use file_hop_z.Ftp.Symlink.{symlink_packet}
use file_hop_z.Receiver.Exact.{content_size}
use file_hop_z.Sender.{
  Entry, directory, regular, unreadable, symlink, unsupported, empty_packet, chunk_packet,
  read_chunks, file_packets, path_handler, send_entries, bytes_to_send,
}
use file_hop_z.Sender.Chunks.{joined, joined-read_chunks}

-- The bytes of file content in packets.
abbrev pub content_total : List Packet → ℕ
content_total [] = 0
content_total (p ∷ ps) = content_size p.header.type p.header.size + content_total ps

-- The sizes of the regular files among entries.
abbrev pub file_sizes : List Entry → ℕ
file_sizes [] = 0
file_sizes (regular path content ∷ es) = length content + file_sizes es
file_sizes (unreadable path content ∷ es) = length content + file_sizes es
file_sizes (e ∷ es) = file_sizes es

content_total-append :
    (ps qs : List Packet) → content_total (ps ++ qs) ≡ content_total ps + content_total qs
content_total-append [] qs = omega arith
content_total-append (p ∷ ps) qs = omega (arith, content_total-append ps qs)

content_total-chunks :
    (id : ℕ) (stale : Bytes) (cs : List Bytes)
    → All (λ c. length c ≤ packet_size) cs
    → content_total (map (chunk_packet id stale) cs) ≡ length (joined cs)
content_total-chunks id stale [] h = refl
content_total-chunks id stale (c ∷ cs) h =
    omega (arith, content_total-chunks id stale cs h.1, h.0, length-append c (joined cs))

content_total-file_packets :
    (stale_header : PacketHeader) (stale : Bytes) (id : ℕ) (path content : Bytes)
    → content_total (file_packets stale_header stale id path content) ≡ length content
unfolding file_packets
content_total-file_packets stale_header stale id path content =
    let (whole, fits) = joined-read_chunks (suc (length content)) content (omega arith) in
    let chunks : List Bytes = read_chunks (suc (length content)) content in
    let total : content_total (map (chunk_packet id stale) chunks) ≡ length content =
      content_total-chunks id stale chunks fits ∙ ap length whole in
    omega (
      arith,
      total,
      content_total-append (map (chunk_packet id stale) chunks)
          (empty_packet end_file id stale ∷ []),
    )

set_payload_type : (src : Bytes) (p : Packet) → (set_payload src p).0.header.type ≡ p.header.type
unfolding set_payload
set_payload_type src p = ground arith

-- A link's packet carries no file content.
symlink_packet_type :
    (stale path target : Bytes) (p : Packet)
    → symlink_packet stale path target ≡ ok p
    → p.header.type ≡ create_symlink
unfolding symlink_packet
symlink_packet_type stale path target p h = ground arith

content_total-path_handler :
    (stale_header : PacketHeader) (stale : Bytes) (e : Entry) (id : ℕ)
    → failed (path_handler stale_header stale e id).2 ≡ false
    → content_total (path_handler stale_header stale e id).0 ≡ file_sizes (e ∷ [])
unfolding path_handler make_error_code
content_total-path_handler stale_header stale (directory path) id h =
    rw (set_payload_type path (empty_packet create_directory id stale)) refl
content_total-path_handler stale_header stale (regular path content) id h =
    omega (arith, content_total-file_packets stale_header stale id path content)
content_total-path_handler stale_header stale (unreadable path content) id h = absurd (ground arith)
content_total-path_handler stale_header stale (symlink path target) id h =
    elim (Expected-cases (symlink_packet stale path target)) [
      | inl (p, e) ↦ rw (e, path_handler, symlink_packet_type stale path target p e) refl
      | inr (ec, e) ↦ rw (e, path_handler) refl
    ]
content_total-path_handler stale_header stale (unsupported path) id h = refl

pub file_sizes_cons :
    (e : Entry) (es : List Entry) → file_sizes (e ∷ es) ≡ file_sizes (e ∷ []) + file_sizes es
file_sizes_cons (directory path) es = omega arith
file_sizes_cons (regular path content) es = omega arith
file_sizes_cons (unreadable path content) es = omega arith
file_sizes_cons (symlink path target) es = omega arith
file_sizes_cons (unsupported path) es = omega arith

-- Entries that are all sent carry exactly their files' content.
content_total-send_entries :
    (stale_header : PacketHeader) (stale : Bytes) (es : List Entry) (id : ℕ)
    → failed (send_entries stale_header stale es id).1 ≡ false
    → content_total (send_entries stale_header stale es id).0 ≡ file_sizes es
unfolding send_entries
content_total-send_entries stale_header stale [] id h = refl
content_total-send_entries stale_header stale (e ∷ es) id h =
    let r : List Packet × ℕ × BoostError = path_handler stale_header stale e id in
    let later : List Packet × BoostError = send_entries stale_header stale es r.1 in
    elim (Bool-cases (failed r.2)) [
      | inl f ↦ absurd (ground arith)
      | inr f ↦ rw f (
          omega (
            arith,
            content_total-append r.0 later.0,
            content_total-path_handler stale_header stale e id f,
            content_total-send_entries stale_header stale es r.1 (ground arith),
            file_sizes_cons e es,
          ))
    ]

pub bytes_to_send_sum :
    (es : List Entry) (total : ℕ)
    → total + file_sizes es < u64_mod
    → bytes_to_send es total ≡ total + file_sizes es
unfolding bytes_to_send
bytes_to_send_sum [] total h = omega arith
bytes_to_send_sum (regular path content ∷ es) total h =
    let sum : ((total + length content) % u64_mod) ≡ total + length content = omega arith in
    rw sum (omega (arith, bytes_to_send_sum es (total + length content)))
bytes_to_send_sum (unreadable path content ∷ es) total h =
    let sum : ((total + length content) % u64_mod) ≡ total + length content = omega arith in
    rw sum (omega (arith, bytes_to_send_sum es (total + length content)))
bytes_to_send_sum (directory path ∷ es) total h = bytes_to_send_sum es total h
bytes_to_send_sum (symlink path target ∷ es) total h = bytes_to_send_sum es total h
bytes_to_send_sum (unsupported path ∷ es) total h = bytes_to_send_sum es total h

-- The sender announces what it sends: if every entry is sent, the packets carry exactly as many
-- bytes of file content as `transfer_confirmation` announced, provided that the walk meets the same
-- entries both times and that their files together have less than 2^64 bytes.
pub content_total_announced :
    (stale_header : PacketHeader) (stale : Bytes) (es : List Entry)
    → file_sizes es < u64_mod
    → failed (send_entries stale_header stale es 0).1 ≡ false
    → content_total (send_entries stale_header stale es 0).0 ≡ bytes_to_send es 0
content_total_announced stale_header stale es small h = omega (
  arith,
  content_total-send_entries stale_header stale es 0 h,
  bytes_to_send_sum es 0 (omega arith),
)
