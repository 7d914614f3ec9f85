-- ===== src/Ftp/Codec.antt =====
-- What the sender writes into the stream is what the receiver reads, and nothing shorter is read.
use file_hop_z.Base.{
  ℕ, ◌+◌, ◌-◌, ◌*◌, ◌%◌, ◌≤◌, ◌<◌, ◌≡◌, refl, ap, ◌∙◌, ◌++◌, true, false, take, drop, length,
  length-take, length-append, take-append, take-append_over, take_all, arith, ltb, Bool-cases, inl,
  inr,
}
use file_hop_z.Base.Bytes.{Bytes, u16_mod, u32_mod}
use file_hop_z.Errors.{ok, unexpected, ErrorCode, make_error_code, success}
use file_hop_z.Packet.{packet_payload_size}
use file_hop_z.Ftp.{
  PacketType, PacketHeader, Packet, type_byte, byte_type, header_len, packet_size, serialized_size,
  get_payload, header_bytes, read_header, as_bytes, set_payload, read_packet, confirm,
  confirm_failed, create_directory, create_file, file_data, end_file, end_transfer, create_symlink,
  unnamed,
}

-- A type that the wire can carry.
abbrev pub IsType : PacketType → Type 0
IsType (unnamed b) = (8 ≤ b) × (b < 256)
IsType _ = Unit {0}

-- A packet with fields of their widths, and a payload within `data`.
pub record IsPacket (p : Packet) : Type 0 where
  pub type_ok : IsType p.header.type
  pub flags_ok : p.header.flags < 256
  pub size_ok : p.header.size ≤ packet_size
  pub file_id_ok : p.header.file_id < u32_mod
  pub whole : p.header.size ≤ length p.data_bytes

byte_type-type_byte : (t : PacketType) → IsType t → byte_type (type_byte t % 256 + 256 * 0) ≡ t
unfolding byte_type
byte_type-type_byte confirm h = refl
byte_type-type_byte confirm_failed h = refl
byte_type-type_byte create_directory h = refl
byte_type-type_byte create_file h = refl
byte_type-type_byte file_data h = refl
byte_type-type_byte end_file h = refl
byte_type-type_byte end_transfer h = refl
byte_type-type_byte create_symlink h = refl
byte_type-type_byte (unnamed b) h = ground arith

read_header-header_bytes :
    (p : Packet) (rest : Bytes)
    → IsPacket p
    → read_header (header_bytes p.header ++ rest) ≡ p.header
unfolding read_header header_bytes
read_header-header_bytes p rest v =
    ground (arith, byte_type-type_byte p.header.type v.type_ok, v.flags_ok, v.size_ok, v.file_id_ok)

length-header_bytes : (h : PacketHeader) → length (header_bytes h) ≡ header_len
unfolding header_bytes
length-header_bytes h = refl

pub length-get_payload :
    (p : Packet) → p.header.size ≤ length p.data_bytes → length (get_payload p) ≡ p.header.size
length-get_payload p whole = omega (arith, length-take p.header.size p.data_bytes)

-- A packet takes as many bytes as its header says, and never more than the stream takes at once.
pub length-as_bytes :
    (p : Packet)
    → IsPacket p
    → (length (as_bytes p) ≡ serialized_size p.header) × (length (as_bytes p) ≤ packet_payload_size)
unfolding as_bytes
length-as_bytes p v =
    let n : length (as_bytes p) ≡ serialized_size p.header = omega (
      arith,
      length-append (header_bytes p.header) (get_payload p),
      length-header_bytes p.header,
      length-get_payload p v.whole,
    ) in
    (n, omega (arith, n, v.size_ok))

read_packet_parts :
    (stale chunk : Bytes) (h : PacketHeader)
    → read_header chunk ≡ h
    → serialized_size h ≤ length chunk
    → read_packet stale chunk
      ≡ ok (record {
        header = h;
        data_bytes = take h.size (drop header_len chunk) ++ drop h.size stale;
      })
unfolding read_packet
read_packet_parts stale chunk h e long =
    let first : ltb (length chunk) header_len ≡ false = ground (arith, long) in
    let second : ltb (length chunk) (serialized_size (read_header chunk)) ≡ false =
      rw e (ground (arith, long)) in
    rw (first, second)
      (ap
        (λ x. ok (record {
          header = x;
          data_bytes = take x.size (drop header_len chunk) ++ drop x.size stale;
        }))
        e)

-- What was written is read with the same header and the same payload, whatever the receiver's
-- packet held before.
pub read_packet-as_bytes :
    (stale : Bytes) (p : Packet)
    → IsPacket p
    → read_packet stale (as_bytes p)
      ≡ ok (record { header = p.header; data_bytes = get_payload p ++ drop p.header.size stale })
unfolding as_bytes
read_packet-as_bytes stale p v =
    read_packet_parts stale (as_bytes p) p.header (read_header-header_bytes p (get_payload p) v)
      (omega (arith, (length-as_bytes p v).0))
    ∙ ap (λ x. ok (record { header = p.header; data_bytes = x ++ drop p.header.size stale }))
        (take_all p.header.size (get_payload p) (omega (arith, length-get_payload p v.whole)))

-- A payload that fits is set without an error and read back; it keeps the other header fields.
pub get_payload-set_payload :
    (src : Bytes) (p : Packet)
    → length src ≤ packet_size
    → ((set_payload src p).1 ≡ success)
      × (get_payload (set_payload src p).0 ≡ src)
      × ((set_payload src p).0.header.size ≡ length src)
      × ((set_payload src p).0.header.type ≡ p.header.type)
      × ((set_payload src p).0.header.file_id ≡ p.header.file_id)
unfolding set_payload
get_payload-set_payload src p fits =
    let small : ltb packet_size (length src) ≡ false = ground (arith, fits) in
    let same : (length src % u16_mod) ≡ length src = omega (arith, fits) in
    rw (small, same) (refl, take-append src _ (length src) refl, refl, refl, refl)

take_header :
    (p : Packet) (n : ℕ)
    → header_len ≤ n
    → take n (as_bytes p) ≡ header_bytes p.header ++ take (n - header_len) (get_payload p)
unfolding as_bytes
take_header p n h =
    take-append_over (header_bytes p.header) (get_payload p) n (n - header_len)
      (omega (arith, h, length-header_bytes p.header))

-- A chunk that is cut short anywhere is refused.
pub read_packet_cut :
    (stale : Bytes) (p : Packet) (n : ℕ)
    → IsPacket p
    → n < serialized_size p.header
    → read_packet stale (take n (as_bytes p))
      ≡ unexpected (make_error_code ErrorCode.malformed_packet)
unfolding read_packet
read_packet_cut stale p n v short =
    let total : length (as_bytes p) ≡ serialized_size p.header = (length-as_bytes p v).0 in
    let n_long : length (take n (as_bytes p)) ≡ n = omega (arith, length-take n (as_bytes p)) in
    elim (Bool-cases (ltb n header_len)) [
      | inl e ↦ rw (n_long, e) refl
      | inr e ↦
          let front : take n (as_bytes p)
              ≡ header_bytes p.header ++ take (n - header_len) (get_payload p) =
            take_header p n (ground arith) in
          let same : read_header (take n (as_bytes p)) ≡ p.header =
            ap read_header front
            ∙ read_header-header_bytes p (take (n - header_len) (get_payload p)) v in
          let cut : ltb n (serialized_size p.header) ≡ true = ground (arith, short) in
          rw (same, n_long, e, cut) refl
    ]
