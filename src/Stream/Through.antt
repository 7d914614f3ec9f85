-- ===== src/Stream/Through.antt =====
-- A packet of the file transfer on its way through the stream.
use file_hop_z.Base.{false, ◌≡◌, refl, length, ◌++◌, drop, take, take-append, ltb, arith}
use file_hop_z.Base.Bytes.{Bytes}
use file_hop_z.Errors.{ok}
use file_hop_z.Packet.{Packet, content, packet_payload_size}
use file_hop_z.Ftp
use file_hop_z.Ftp.{as_bytes, get_payload, read_packet}
use file_hop_z.Ftp.Codec.{IsPacket, length-as_bytes, read_packet-as_bytes}
use file_hop_z.Stream.{data_packet, stream_packet}

-- A packet of the file transfer is never too long for the stream, and a transport packet with the
-- content that the stream made of it is read as the packet that was sent, whatever the memory of
-- sender and receiver held before.
pub read_packet-stream_packet :
    (stale_sender stale_receiver : Bytes) (p : Ftp.Packet)
    → IsPacket p
    → (q : Packet) × (stream_packet stale_sender (as_bytes p) ≡ ok q)
      × (content q ≡ as_bytes p)
      × (read_packet stale_receiver (content q)
          ≡ ok (record {
            header = p.header;
            data_bytes = get_payload p ++ drop p.header.size stale_receiver;
          }))
unfolding stream_packet
read_packet-stream_packet stale_sender stale_receiver p v =
    let fits : ltb packet_payload_size (length (as_bytes p)) ≡ false =
      ground (arith, (length-as_bytes p v).1) in
    let same : take (length (as_bytes p)) (as_bytes p ++ drop (length (as_bytes p)) stale_sender)
        ≡ as_bytes p =
      take-append (as_bytes p) _ (length (as_bytes p)) refl in
    (
      data_packet stale_sender (as_bytes p),
      rw fits refl,
      same,
      rw same (read_packet-as_bytes stale_receiver p v),
    )
