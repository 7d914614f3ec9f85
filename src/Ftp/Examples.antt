-- ===== src/Ftp/Examples.antt =====
-- The packets of the file transfer at concrete data.
use file_hop_z.Base.{◌≤◌, ◌≡◌, refl, [], ◌∷◌, ◌++◌, take, length, replicate, arith}
use file_hop_z.Base.Bytes.{codes}
use file_hop_z.Errors.{ok, unexpected, success, make_error_code, ErrorCode}
use file_hop_z.Packet.{packet_payload_size}
use file_hop_z.Ftp.{
  Packet, as_bytes, read_packet, set_payload, get_payload, create_file, create_symlink,
}
use file_hop_z.Ftp.Codec.{
  IsPacket, length-as_bytes, read_packet-as_bytes, get_payload-set_payload, read_packet_cut,
}
use file_hop_z.Ftp.Symlink.{symlink_packet, extract_symlink, extract_symlink-symlink_packet}

abbrev create_packet : Packet
create_packet = record {
  header = record { type = create_file; flags = 0; size = 5; file_id = 70000 };
  data_bytes = codes "a.txt" ++ replicate 4 204;
}

create_packet-IsPacket : IsPacket create_packet
create_packet-IsPacket = record {
  type_ok = tt;
  flags_ok = omega arith;
  size_ok = omega arith;
  file_id_ok = omega arith;
  whole = omega arith;
}

as_bytes_runs :
    as_bytes create_packet ≡ 3 ∷ 0 ∷ 5 ∷ 0 ∷ 112 ∷ 17 ∷ 1 ∷ 0 ∷ 97 ∷ 46 ∷ 116 ∷ 120 ∷ 116 ∷ []
unfolding as_bytes
as_bytes_runs = refl

create_packet_fits :
    (length (as_bytes create_packet) ≡ 13) × (length (as_bytes create_packet) ≤ packet_payload_size)
create_packet_fits = length-as_bytes create_packet create_packet-IsPacket

read_packet_whole :
    read_packet (replicate 9 1) (as_bytes create_packet)
    ≡ ok (record { header = create_packet.header; data_bytes = codes "a.txt" ++ replicate 4 1 })
read_packet_whole = read_packet-as_bytes (replicate 9 1) create_packet create_packet-IsPacket

set_payload_read_back :
    ((set_payload (codes "dir") create_packet).1 ≡ success)
    × (get_payload (set_payload (codes "dir") create_packet).0 ≡ codes "dir")
    × ((set_payload (codes "dir") create_packet).0.header.size ≡ 3)
    × ((set_payload (codes "dir") create_packet).0.header.type ≡ create_file)
    × ((set_payload (codes "dir") create_packet).0.header.file_id ≡ 70000)
set_payload_read_back = get_payload-set_payload (codes "dir") create_packet (omega arith)

create_packet_cut :
    read_packet [] (take 12 (as_bytes create_packet))
    ≡ unexpected (make_error_code ErrorCode.malformed_packet)
create_packet_cut = read_packet_cut [] create_packet 12 create_packet-IsPacket (omega arith)

extract_symlink-symlink_packet_example :
    (p q : Packet) × (symlink_packet [] (codes "a/l") (codes "../b") ≡ ok p)
    × (read_packet [] (as_bytes p) ≡ ok q)
    × (q.header.type ≡ create_symlink)
    × (extract_symlink q ≡ ok (codes "a/l", codes "../b"))
extract_symlink-symlink_packet_example =
    extract_symlink-symlink_packet [] [] (codes "a/l") (codes "../b") (omega arith)
