-- ===== src/Sender.antt =====
-- src/sender/sender.cpp: the packets that the sender makes of each entry of the walk. What the
-- file system says of an entry is the argument.
pub mod Chunks
pub mod Packets
pub mod Sites
pub mod Handed
pub mod Sending
pub mod Announced
pub mod Announcement
mod Examples
use file_hop_z.Base.{
  ℕ, zero, suc, ◌+◌, ◌%◌, List, [], ◌∷◌, ◌++◌, map, take, drop, length, ◌==◌, if◌then◌else◌,
}
use file_hop_z.Base.Bytes.{Bytes, to_le, u16_mod, u32_mod, u64_mod}
use file_hop_z.Errors.{
  BoostError, success, failed, Expected, ok, unexpected, ErrorCode, make_error_code,
}
use file_hop_z.Ftp.{
  PacketHeader, Packet, PacketType, packet_size, set_payload, create_directory, create_file,
  file_data, end_file, end_transfer, confirm,
}
use file_hop_z.Ftp.Symlink.{symlink_packet}

-- An entry of the walk: its path relative to the root, and what the file system holds there. A
-- regular file that does not open is `unreadable`.
pub data Entry : Type 0 where
  directory : Bytes → Entry
  regular : Bytes → Bytes → Entry
  unreadable : Bytes → Bytes → Entry
  symlink : Bytes → Bytes → Entry
  unsupported : Bytes → Entry

abbrev pub empty_packet : PacketType → ℕ → Bytes → Packet
empty_packet type file_id stale = record {
  header = record { type = type; flags = 0; size = 0; file_id = file_id };
  data_bytes = stale;
}

-- The packet with the announced size.
unfoldable pub announce_packet : Bytes → ℕ → Packet
announce_packet stale total = (set_payload (to_le 8 total) (empty_packet confirm 0 stale)).0

-- The loop `do … while(bytes_read == PACKET_SIZE)` on what is left of the file.
unfoldable pub read_chunks : ℕ → Bytes → List Bytes
read_chunks zero rest = []
read_chunks (suc fuel) rest =
    let chunk = take packet_size rest in
    let more = read_chunks fuel (drop packet_size rest) in
    chunk ∷ (if length chunk == packet_size then more else [])

-- A packet of file content.
abbrev pub chunk_packet : ℕ → Bytes → Bytes → Packet
chunk_packet file_id stale chunk = record {
  header = record { type = file_data; flags = 0; size = length chunk % u16_mod; file_id = file_id };
  data_bytes = chunk ++ drop (length chunk) stale;
}

-- The packet that opens a file. The error of `set_payload` is not looked at, and the header's
-- other fields are set after it.
abbrev pub create_file_packet : PacketHeader → ℕ → Bytes → Bytes → Packet
create_file_packet stale_header file_id stale path =
    let p = (set_payload path (record { header = stale_header; data_bytes = stale })).0 in
    record p { header = record p.header { type = create_file; flags = 0; file_id = file_id } }

-- The packets of a regular file; the file's length is fuel enough for the loop.
unfoldable pub file_packets : PacketHeader → Bytes → ℕ → Bytes → Bytes → List Packet
unfolding read_chunks
file_packets stale_header stale file_id path content =
    create_file_packet stale_header file_id stale path
    ∷ (map (chunk_packet file_id stale) (read_chunks (suc (length content)) content)
        ++ (empty_packet end_file file_id stale ∷ []))

-- `path_handler` with a stream that takes every packet: the packets, the next file id, and the
-- error.
unfoldable pub path_handler : PacketHeader → Bytes → Entry → ℕ → List Packet × ℕ × BoostError
unfolding file_packets
path_handler stale_header stale (directory path) id = (
  (set_payload path (empty_packet create_directory id stale)).0 ∷ [],
  (id + 1) % u32_mod,
  success,
)
path_handler stale_header stale (regular path content) id =
    (file_packets stale_header stale id path content, (id + 1) % u32_mod, success)
path_handler stale_header stale (unreadable path content) id =
    ([], id, make_error_code ErrorCode.file_open_failed)
path_handler stale_header stale (symlink path target) id = elim (symlink_packet stale path target) [
  | unexpected ec ↦ ([], id, ec)
  | ok p ↦ (p ∷ [], id, success)
]
path_handler stale_header stale (unsupported path) id =
    ([], id, make_error_code ErrorCode.unsupported_file_type)

-- The loop of `start_transfer` over the walk, and the packet that ends the transfer.
unfoldable pub send_entries : PacketHeader → Bytes → List Entry → ℕ → List Packet × BoostError
unfolding path_handler
send_entries stale_header stale [] id = (empty_packet end_transfer 0 stale ∷ [], success)
send_entries stale_header stale (e ∷ es) id =
    let (packets, id', ec) = path_handler stale_header stale e id in
    let (later, ec') = send_entries stale_header stale es id' in
    if failed ec then (packets, ec) else (packets ++ later, ec')

-- The sum that `transfer_confirmation` announces.
unfoldable pub bytes_to_send : List Entry → ℕ → ℕ
bytes_to_send [] total = total
bytes_to_send (regular path content ∷ es) total =
    bytes_to_send es ((total + length content) % u64_mod)
bytes_to_send (unreadable path content ∷ es) total =
    bytes_to_send es ((total + length content) % u64_mod)
bytes_to_send (e ∷ es) total = bytes_to_send es total
