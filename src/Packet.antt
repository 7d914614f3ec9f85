-- ===== src/Packet.antt =====
-- include/protohopz/protohopz_packet.hpp and the constants of include/utils/crypto_context.hpp:
-- the transport's packets and their layout on the wire.
pub mod Codec
mod Examples
use file_hop_z.Base.{
  ℕ, zero, suc, ◌+◌, ◌*◌, ◌%◌, ◌≡◌, Bool, true, false, List, [], ◌∷◌, ◌++◌, ◌==◌, take, drop,
  length, if◌then◌else◌,
}
use file_hop_z.Base.Bytes.{Bytes, to_le, of_le}

abbrev pub key_len : ℕ
key_len = 32

abbrev pub nonce_len : ℕ
nonce_len = 12

abbrev pub tag_len : ℕ
tag_len = 16

abbrev pub x25519_len : ℕ
x25519_len = 32

abbrev pub crypt_overhead : ℕ
crypt_overhead = nonce_len + tag_len

abbrev pub packet_payload_size : ℕ
packet_payload_size = 1400

abbrev pub packet_size : ℕ
packet_size = packet_payload_size + crypt_overhead

-- Times are in milliseconds.
abbrev pub timeout : ℕ
timeout = 128

abbrev pub idle_timeout : ℕ
idle_timeout = 60 * 1000

abbrev pub max_in_flight : ℕ
max_in_flight = 1024

abbrev pub max_packets_buffer : ℕ
max_packets_buffer = 65536

abbrev pub close_drain_timeout : ℕ
close_drain_timeout = 30 * 1000

-- `PHZ::PacketType`. The enumeration is a byte, and a received byte may name no enumerator.
pub data PacketType : Type 0 where
  keep_alive : PacketType
  payload_data : PacketType
  handshake : PacketType
  ack : PacketType
  end_transfer : PacketType
  unnamed : ℕ → PacketType

abbrev pub type_byte : PacketType → ℕ
type_byte keep_alive = 0
type_byte payload_data = 1
type_byte handshake = 2
type_byte ack = 3
type_byte end_transfer = 4
type_byte (unnamed b) = b

unfoldable pub byte_type : ℕ → PacketType
byte_type b =
    if b == 0
    then keep_alive
    else if b == 1
    then payload_data
    else if b == 2
    then handshake
    else if b == 3
    then ack
    else if b == 4
    then end_transfer
    else unnamed b

-- `packet.header.type == PHZ::PacketType::DATA`
abbrev pub is_data : PacketType → Bool
is_data payload_data = true
is_data _ = false

-- `PHZ::PacketHeader`, packed. No flags are defined.
pub record PacketHeader : Type 0 where
  pub type : PacketType
  pub flags : ℕ
  pub size : ℕ
  pub sequence : ℕ

abbrev pub header_len : ℕ
header_len = 8

-- `PHZ::Packet`: the header, and `payload` and `crypt_info` as the one region that
-- `payload_region` makes of them.
pub record Packet : Type 0 where
  pub header : PacketHeader
  pub region : Bytes

-- The first `header.size` bytes of the region.
abbrev pub content : Packet → Bytes
content p = take p.header.size p.region

-- The object representation of the header.
unfoldable pub header_bytes : PacketHeader → Bytes
header_bytes h =
    to_le 1 (type_byte h.type) ++ (to_le 1 h.flags ++ (to_le 2 h.size ++ to_le 4 h.sequence))

-- `boost::asio::buffer(&packet, sizeof(PHZ::PacketHeader) + packet.header.size)`
unfoldable pub datagram : Packet → Bytes
unfolding header_bytes
datagram p = header_bytes p.header ++ content p

unfoldable pub read_header : Bytes → PacketHeader
unfolding byte_type
read_header bytes = record {
  type = byte_type (of_le (take 1 bytes));
  flags = of_le (take 1 (drop 1 bytes));
  size = of_le (take 2 (drop 2 bytes));
  sequence = of_le (take 4 (drop 4 bytes));
}

-- `async_receive_from` into the object of a packet: the datagram over the bytes that the object
-- held before, cut at the size of the object.
unfoldable pub received : Bytes → Bytes → Packet
unfolding read_header
received stale bytes =
    let object = take (header_len + packet_size) bytes ++ drop (length bytes) stale in
    record { header = read_header object; region = drop header_len object }
