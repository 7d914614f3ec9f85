-- ===== src/Ftp.antt =====
-- include/ftp_packet.hpp: the packets of the file transfer, which the stream carries, and how the
-- receiver reads them in src/receiver/receiver.cpp.
pub mod Codec
pub mod Symlink
mod Examples
use file_hop_z.Base.{
  ℕ, ◌+◌, ◌-◌, ◌%◌, List, [], ◌∷◌, ◌++◌, take, drop, length, ltb, ◌==◌, if◌then◌else◌,
}
use file_hop_z.Base.Bytes.{Bytes, to_le, of_le, u16_mod}
use file_hop_z.Errors.{BoostError, success, Expected, ok, unexpected, ErrorCode, make_error_code}
use file_hop_z.Packet.{packet_payload_size}

-- `FTProto::PacketType`; a byte from the wire may also name none of the enumerators.
pub data PacketType : Type 0 where
  confirm : PacketType
  confirm_failed : PacketType
  create_directory : PacketType
  create_file : PacketType
  file_data : PacketType
  end_file : PacketType
  end_transfer : PacketType
  create_symlink : PacketType
  unnamed : ℕ → PacketType

abbrev pub type_byte : PacketType → ℕ
type_byte confirm = 0
type_byte confirm_failed = 1
type_byte create_directory = 2
type_byte create_file = 3
type_byte file_data = 4
type_byte end_file = 5
type_byte end_transfer = 6
type_byte create_symlink = 7
type_byte (unnamed b) = b

unfoldable pub byte_type : ℕ → PacketType
byte_type b =
    if b == 0
    then confirm
    else if b == 1
    then confirm_failed
    else if b == 2
    then create_directory
    else if b == 3
    then create_file
    else if b == 4
    then file_data
    else if b == 5
    then end_file
    else if b == 6
    then end_transfer
    else if b == 7
    then create_symlink
    else unnamed b

-- `FTProto::PacketHeader`, packed. No flags are defined.
pub record PacketHeader : Type 0 where
  pub type : PacketType
  pub flags : ℕ
  pub size : ℕ
  pub file_id : ℕ

abbrev pub header_len : ℕ
header_len = 8

-- `FTProto::PACKET_SIZE`
abbrev pub packet_size : ℕ
packet_size = packet_payload_size - header_len

-- `FTProto::Packet`
pub record Packet : Type 0 where
  pub header : PacketHeader
  pub data_bytes : Bytes

abbrev pub serialized_size : PacketHeader → ℕ
serialized_size h = header_len + h.size

-- The first `header.size` bytes of `data`.
abbrev pub get_payload : Packet → Bytes
get_payload p = take p.header.size p.data_bytes

unfoldable pub header_bytes : PacketHeader → Bytes
header_bytes h =
    to_le 1 (type_byte h.type) ++ (to_le 1 h.flags ++ (to_le 2 h.size ++ to_le 4 h.file_id))

unfoldable pub read_header : Bytes → PacketHeader
unfolding byte_type
read_header bytes = record {
  type = byte_type (of_le (take 1 bytes));
  flags = of_le (take 1 (drop 1 bytes));
  size = of_le (take 2 (drop 2 bytes));
  file_id = of_le (take 4 (drop 4 bytes));
}

unfoldable pub as_bytes : Packet → Bytes
unfolding header_bytes
as_bytes p = header_bytes p.header ++ get_payload p

unfoldable pub set_payload : Bytes → Packet → Packet × BoostError
set_payload src p =
    if ltb packet_size (length src) then (p, make_error_code ErrorCode.packet_too_large) else (
      record {
        header = record p.header { size = length src % u16_mod };
        data_bytes = src ++ drop (length src) p.data_bytes;
      },
      success,
    )

-- A chunk of the stream as a packet, if it is long enough; `stale` is what the packet's `data`
-- held before.
unfoldable pub read_packet : Bytes → Bytes → Expected Packet
read_packet stale chunk =
    if ltb (length chunk) header_len
    then unexpected (make_error_code ErrorCode.malformed_packet)
    else if ltb (length chunk) (serialized_size (read_header chunk))
    then unexpected (make_error_code ErrorCode.malformed_packet)
    else ok (record {
      header = read_header chunk;
      data_bytes =
          take (read_header chunk).size (drop header_len chunk)
          ++ drop (read_header chunk).size stale;
    })
