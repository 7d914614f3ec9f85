-- ===== src/Packet/Codec.antt =====
-- What is written as a datagram is read back.
use file_hop_z.Base.{
  ◌+◌, ◌*◌, ◌%◌, ◌≤◌, ◌<◌, ◌≡◌, refl, ◌++◌, arith, drop, length, length-take, take-append, take_all,
}
use file_hop_z.Base.Bytes.{Bytes, u16_mod, u32_mod}
use file_hop_z.Packet.{
  PacketType, PacketHeader, Packet, keep_alive, payload_data, handshake, ack, end_transfer, unnamed,
  type_byte, byte_type, header_bytes, datagram, read_header, received, content, header_len,
  packet_size,
}

-- A type that the wire can carry: an enumerator, or a byte that names none.
abbrev pub IsType : PacketType → Type 0
IsType (unnamed b) = (5 ≤ b) × (b < 256)
IsType _ = Unit {0}

-- The fields have the widths of the struct.
pub record IsHeader (h : PacketHeader) : Type 0 where
  pub type_ok : IsType h.type
  pub flags_ok : h.flags < 256
  pub size_ok : h.size < u16_mod
  pub sequence_ok : h.sequence < u32_mod

byte_type-type_byte : (t : PacketType) → IsType t → byte_type (type_byte t % 256 + 256 * 0) ≡ t
unfolding byte_type
byte_type-type_byte keep_alive h = refl
byte_type-type_byte payload_data h = refl
byte_type-type_byte handshake h = refl
byte_type-type_byte ack h = refl
byte_type-type_byte end_transfer h = refl
byte_type-type_byte (unnamed b) h = ground arith

pub read_header-header_bytes :
    (h : PacketHeader) (rest : Bytes) → IsHeader h → read_header (header_bytes h ++ rest) ≡ h
unfolding read_header header_bytes
read_header-header_bytes h rest v = ground (arith, byte_type-type_byte h.type v.type_ok)

pub length-header_bytes : (h : PacketHeader) → length (header_bytes h) ≡ header_len
unfolding header_bytes
length-header_bytes h = refl

length-content : (p : Packet) → p.header.size ≤ length p.region → length (content p) ≡ p.header.size
length-content p whole = omega (arith, length-take p.header.size p.region)

-- The received object, part by part.
received-datagram_parts :
    (stale : Bytes) (p : Packet)
    → IsHeader p.header
    → p.header.size ≤ packet_size
    → p.header.size ≤ length p.region
    → received stale (datagram p)
      ≡ record { header = p.header; region = content p ++ drop (length (datagram p)) stale }
unfolding received datagram
received-datagram_parts stale p v fits whole =
    rw (take_all packet_size (content p) (omega (arith, length-content p whole))) λ i. record {
      header =
          read_header-header_bytes p.header (content p ++ drop (length (datagram p)) stale) v i;
      region = content p ++ drop (length (datagram p)) stale;
    }

-- A packet with in-range header fields, whose region holds at least the stated size and whose size
-- is within the region's bound, is received with the same header and the same content, whatever
-- the receiver's buffer held before.
pub received-datagram :
    (stale : Bytes) (p : Packet)
    → IsHeader p.header
    → p.header.size ≤ packet_size
    → p.header.size ≤ length p.region
    → ((received stale (datagram p)).header ≡ p.header)
      × (content (received stale (datagram p)) ≡ content p)
received-datagram stale p v fits whole =
    rw (received-datagram_parts stale p v fits whole)
      (refl, take-append (content p) _ p.header.size (length-content p whole))
