-- ===== src/Ftp/Symlink.antt =====
-- A symbolic link in a packet: how src/sender/sender.cpp writes it (path_handler) and how
-- src/receiver/receiver.cpp reads it (extract_symlink).
use mathlib.Core.List.{append_assoc}
use file_hop_z.Base.{
  ◌+◌, ◌-◌, ◌%◌, ◌≤◌, ◌≡◌, refl, ap, ◌++◌, false, take, drop, length, length-append, take-append,
  drop-append, arith, ltb, if◌then◌else◌,
}
use file_hop_z.Base.Bytes.{Bytes, to_le, of_le, of_le-to_le_u16, u16_mod}
use file_hop_z.Errors.{Expected, ok, unexpected, ErrorCode, make_error_code}
use file_hop_z.Ftp.{Packet, packet_size, get_payload, as_bytes, read_packet, create_symlink}
use file_hop_z.Ftp.Codec.{IsPacket, read_packet-as_bytes}

-- The sender's packet for a link; `stale` is what the packet's `data` held before.
unfoldable pub symlink_packet : Bytes → Bytes → Bytes → Expected Packet
symlink_packet stale relative_path target =
    let payload_size = 2 + length relative_path + length target in
    if ltb packet_size payload_size
    then unexpected (make_error_code ErrorCode.symlink_payload_too_large)
    else ok (record {
      header = record {
        type = create_symlink;
        flags = 0;
        size = payload_size % u16_mod;
        file_id = 0;
      };
      data_bytes =
          to_le 2 (length relative_path % u16_mod)
          ++ (relative_path ++ (target ++ drop payload_size stale));
    })

-- The link's path and its target.
unfoldable pub extract_symlink : Packet → Expected (Bytes × Bytes)
extract_symlink p =
    let payload_size = p.header.size in
    let link_path_size = of_le (take 2 p.data_bytes) in
    if ltb payload_size 2
    then unexpected (make_error_code ErrorCode.malformed_symlink_payload)
    else if ltb (payload_size - 2) link_path_size
    then unexpected (make_error_code ErrorCode.malformed_symlink_payload)
    else ok (
      take link_path_size (drop 2 p.data_bytes),
      take (payload_size - 2 - link_path_size) (drop link_path_size (drop 2 p.data_bytes)),
    )

extract_symlink_parts :
    (relative_path target rest : Bytes) (p : Packet)
    → 2 + length relative_path + length target ≤ packet_size
    → p.header.size ≡ 2 + length relative_path + length target
    → p.data_bytes ≡ to_le 2 (length relative_path) ++ (relative_path ++ (target ++ rest))
    → extract_symlink p ≡ ok (relative_path, target)
unfolding extract_symlink
extract_symlink_parts relative_path target rest p fits size laid =
    let link : of_le (take 2 p.data_bytes) ≡ length relative_path =
      rw laid (of_le-to_le_u16 (length relative_path) (omega arith)) in
    let body : drop 2 p.data_bytes ≡ relative_path ++ (target ++ rest) = rw laid refl in
    let first : ltb p.header.size 2 ≡ false = ground (arith, size) in
    let second : ltb (p.header.size - 2) (length relative_path) ≡ false = ground (arith, size) in
    let left : p.header.size - 2 - length relative_path ≡ length target = omega (arith, size) in
    rw
      (
        first,
        link,
        second,
        body,
        left,
        take-append relative_path (target ++ rest) (length relative_path) refl,
        drop-append relative_path (target ++ rest) (length relative_path) refl,
        take-append target rest (length target) refl,
      )
      refl

-- The packet that the sender makes, if the link fits.
abbrev pub written : Bytes → Bytes → Bytes → Packet
written stale relative_path target = record {
  header = record {
    type = create_symlink;
    flags = 0;
    size = 2 + length relative_path + length target;
    file_id = 0;
  };
  data_bytes =
      to_le 2 (length relative_path)
      ++ (relative_path ++ (target ++ drop (2 + length relative_path + length target) stale));
}

pub symlink_packet_fits :
    (stale relative_path target : Bytes)
    → 2 + length relative_path + length target ≤ packet_size
    → symlink_packet stale relative_path target ≡ ok (written stale relative_path target)
unfolding symlink_packet
symlink_packet_fits stale relative_path target fits =
    let small : ltb packet_size (2 + length relative_path + length target) ≡ false =
      ground (arith, fits) in
    let size : ((2 + length relative_path + length target) % u16_mod)
        ≡ 2 + length relative_path + length target =
      omega (arith, fits) in
    let link : (length relative_path % u16_mod) ≡ length relative_path = omega (arith, fits) in
    rw (small, size, link) refl

get_payload-written :
    (stale relative_path target : Bytes)
    → get_payload (written stale relative_path target)
      ≡ to_le 2 (length relative_path) ++ (relative_path ++ target)
get_payload-written stale relative_path target =
    let rest : Bytes = drop (2 + length relative_path + length target) stale in
    let whole : Bytes = to_le 2 (length relative_path) ++ (relative_path ++ target) in
    rw (← append_assoc relative_path target rest) (
      take-append whole rest (2 + length relative_path + length target)
        (omega (arith, length-append relative_path target)))

pub written-IsPacket :
    (stale relative_path target : Bytes)
    → 2 + length relative_path + length target ≤ packet_size
    → IsPacket (written stale relative_path target)
written-IsPacket stale relative_path target fits = record {
  type_ok = tt;
  flags_ok = omega arith;
  size_ok = fits;
  file_id_ok = omega arith;
  whole = omega (
    arith,
    length-append relative_path (target ++ drop (2 + length relative_path + length target) stale),
    length-append target (drop (2 + length relative_path + length target) stale),
  );
}

-- The receiver's packet, with `rest` behind the payload.
pub extract_symlink-written :
    (stale rest relative_path target : Bytes)
    → 2 + length relative_path + length target ≤ packet_size
    → extract_symlink (record {
      header = (written stale relative_path target).header;
      data_bytes = get_payload (written stale relative_path target) ++ rest;
    })
      ≡ ok (relative_path, target)
extract_symlink-written stale rest relative_path target fits =
    let p : Packet = written stale relative_path target in
    extract_symlink_parts relative_path target rest
      (record { header = p.header; data_bytes = get_payload p ++ rest }) fits refl
      (rw (get_payload-written stale relative_path target)
        (ap (λ x. to_le 2 (length relative_path) ++ x) (append_assoc relative_path target rest)))

-- A link whose path and target fit into a packet is sent, and the receiver reads the same path and
-- the same target from the chunk, whatever both packets' memory held before.
pub extract_symlink-symlink_packet :
    (stale_sender stale_receiver relative_path target : Bytes)
    → 2 + length relative_path + length target ≤ packet_size
    → (p q : Packet) × (symlink_packet stale_sender relative_path target ≡ ok p)
      × (read_packet stale_receiver (as_bytes p) ≡ ok q)
      × (q.header.type ≡ create_symlink)
      × (extract_symlink q ≡ ok (relative_path, target))
extract_symlink-symlink_packet stale_sender stale_receiver relative_path target fits =
    let p : Packet = written stale_sender relative_path target in
    let rest : Bytes = drop p.header.size stale_receiver in
    (
      p,
      record { header = p.header; data_bytes = get_payload p ++ rest },
      symlink_packet_fits stale_sender relative_path target fits,
      read_packet-as_bytes stale_receiver p
          (written-IsPacket stale_sender relative_path target fits),
      refl,
      extract_symlink-written stale_sender rest relative_path target fits,
    )
