-- ===== src/Sender/Packets.antt =====
-- What the sender's packets carry: their types, file ids and payloads.
use file_hop_z.Base.{
  ℕ, ◌%◌, ◌≤◌, ◌<◌, ◌≡◌, refl, [], false, drop, length, length-append, take-append, ltb, arith,
}
use file_hop_z.Base.Bytes.{Bytes, u16_mod, u32_mod}
use file_hop_z.Ftp.{
  PacketType, PacketHeader, Packet, packet_size, get_payload, set_payload, create_file, file_data,
}
use file_hop_z.Ftp.Codec.{IsPacket, IsType}
use file_hop_z.Sender.{empty_packet, chunk_packet, create_file_packet}

-- A packet that the wire can carry, with its type, file id and payload.
pub record Carries (type : PacketType) (file_id : ℕ) (payload : Bytes) (p : Packet) : Type 0 where
  pub valid : IsPacket p
  pub type_is : p.header.type ≡ type
  pub file_id_is : p.header.file_id ≡ file_id
  pub payload_is : get_payload p ≡ payload

pub empty_packet-Carries :
    (type : PacketType) (file_id : ℕ) (stale : Bytes)
    → IsType type
    → file_id < u32_mod
    → Carries type file_id [] (empty_packet type file_id stale)
empty_packet-Carries type file_id stale t i = record {
  valid = record {
    type_ok = t;
    flags_ok = omega arith;
    size_ok = omega arith;
    file_id_ok = i;
    whole = omega arith;
  };
  type_is = refl;
  file_id_is = refl;
  payload_is = refl;
}

-- A path that fits into the packet that announces a directory.
pub set_payload-Carries :
    (type : PacketType) (file_id : ℕ) (stale path : Bytes)
    → IsType type
    → file_id < u32_mod
    → length path ≤ packet_size
    → Carries type file_id path (set_payload path (empty_packet type file_id stale)).0
unfolding set_payload
set_payload-Carries type file_id stale path t i fits =
    let small : ltb packet_size (length path) ≡ false = ground (arith, fits) in
    let same : (length path % u16_mod) ≡ length path = omega (arith, fits) in
    rw (small, same)
      (record {
        valid = record {
          type_ok = t;
          flags_ok = omega arith;
          size_ok = fits;
          file_id_ok = i;
          whole = omega (arith, length-append path (drop (length path) stale));
        };
        type_is = refl;
        file_id_is = refl;
        payload_is = take-append path (drop (length path) stale) (length path) refl;
      })

pub create_file_packet-Carries :
    (stale_header : PacketHeader) (file_id : ℕ) (stale path : Bytes)
    → file_id < u32_mod
    → length path ≤ packet_size
    → Carries create_file file_id path (create_file_packet stale_header file_id stale path)
unfolding set_payload
create_file_packet-Carries stale_header file_id stale path i fits =
    let small : ltb packet_size (length path) ≡ false = ground (arith, fits) in
    let same : (length path % u16_mod) ≡ length path = omega (arith, fits) in
    rw (small, same)
      (record {
        valid = record {
          type_ok = tt;
          flags_ok = omega arith;
          size_ok = fits;
          file_id_ok = i;
          whole = omega (arith, length-append path (drop (length path) stale));
        };
        type_is = refl;
        file_id_is = refl;
        payload_is = take-append path (drop (length path) stale) (length path) refl;
      })

pub chunk_packet-Carries :
    (file_id : ℕ) (stale chunk : Bytes)
    → file_id < u32_mod
    → length chunk ≤ packet_size
    → Carries file_data file_id chunk (chunk_packet file_id stale chunk)
chunk_packet-Carries file_id stale chunk i fits =
    let same : (length chunk % u16_mod) ≡ length chunk = omega (arith, fits) in
    rw same (record {
      valid = record {
        type_ok = tt;
        flags_ok = omega arith;
        size_ok = fits;
        file_id_ok = i;
        whole = omega (arith, length-append chunk (drop (length chunk) stale));
      };
      type_is = refl;
      file_id_is = refl;
      payload_is = take-append chunk (drop (length chunk) stale) (length chunk) refl;
    })
