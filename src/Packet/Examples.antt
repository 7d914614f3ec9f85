-- ===== src/Packet/Examples.antt =====
-- The codec at concrete packets.
use file_hop_z.Base.{◌≡◌, refl, ◌∷◌, [], arith}
use file_hop_z.Base.Bytes.{Bytes}
use file_hop_z.Packet.{Packet, PacketType, datagram, received, content}
use file_hop_z.Packet.Codec.{received-datagram}

abbrev small_packet : Packet
small_packet = record {
  header = record { type = PacketType.payload_data; flags = 0; size = 3; sequence = 70000 };
  region = 7 ∷ 8 ∷ 9 ∷ 1 ∷ 2 ∷ [];
}

abbrev old_bytes : Bytes
old_bytes = 1 ∷ 1 ∷ 1 ∷ 1 ∷ 1 ∷ 1 ∷ 1 ∷ 1 ∷ 5 ∷ 5 ∷ 5 ∷ 5 ∷ 5 ∷ []

datagram_runs : datagram small_packet ≡ 1 ∷ 0 ∷ 3 ∷ 0 ∷ 112 ∷ 17 ∷ 1 ∷ 0 ∷ 7 ∷ 8 ∷ 9 ∷ []
unfolding datagram
datagram_runs = refl

received_runs : (received old_bytes (datagram small_packet)).region ≡ 7 ∷ 8 ∷ 9 ∷ 5 ∷ 5 ∷ []
unfolding datagram received
received_runs = refl

received-datagram_example : content (received old_bytes (datagram small_packet)) ≡ 7 ∷ 8 ∷ 9 ∷ []
received-datagram_example =
    (received-datagram old_bytes small_packet
      (record {
        type_ok = tt;
        flags_ok = omega arith;
        size_ok = omega arith;
        sequence_ok = omega arith;
      })
      (omega arith) (omega arith)).1
