-- ===== src/Transport/Receive.antt =====
-- ProtoHopZ::receive_loop and receive_packet. One call of `receive_turn` is one turn of the loop
-- on a datagram that `async_receive_from` completed with.
use file_hop_z.Base.{
  ℕ, ◌%◌, Bool, true, false, not, List, [], ◌∷◌, ◌++◌, map, drop, length, ltb, ◌==◌, ◌||◌,
  if◌then◌else◌,
}
use file_hop_z.Base.Bytes.{Bytes, u16_mod}
use file_hop_z.Errors.{BoostError, failed, Expected, ok, unexpected, ErrorCode, make_error_code}
use file_hop_z.Packet.{Packet, PacketType, content, packet_size}
use file_hop_z.AsyncQueue
use file_hop_z.Crypto.{decrypt_data}
use file_hop_z.Host.{Host}
use file_hop_z.Transport.{Transport, Effect, wake_receiver}
use file_hop_z.Transport.Ack.{ack_handler, send_ack}

-- A turn of a loop ends with another turn or with the loop's result.
pub data LoopOutcome : Type 0 where
  continues : LoopOutcome
  stops : BoostError → LoopOutcome

-- `received_packets_.contains`
unfoldable pub member : ℕ → List ℕ → Bool
member s [] = false
member s (x ∷ xs) = x == s || member s xs

-- The packet with the plaintext in place of the ciphertext.
abbrev pub with_plaintext : Packet → Bytes → Packet
with_plaintext p plain = record {
  header = record p.header { size = length plain % u16_mod };
  region = plain ++ drop (length plain) p.region;
}

module _ (H : Host) where
  -- A packet that was not seen before is noted and passed on.
  unfoldable pub deliver : Packet → Transport H → Transport H × List (Effect H)
  deliver p t =
      let (q, woken) = AsyncQueue.push p t.received_packets_queue in
      (
        record t {
          received_packets = p.header.sequence ∷ t.received_packets;
          received_packets_queue = q;
        },
        map wake_receiver woken,
      )

  -- The plaintext of a data packet, if the connection is encrypted.
  unfoldable pub unprotect : Transport H → Packet → Expected Packet
  unprotect t p =
      if t.connection_encrypted
      then elim (decrypt_data H.ssl t.crypto_context (content p)) [
        | unexpected ec ↦ unexpected (make_error_code ErrorCode.transport_decrypt_failed)
        | ok plain ↦ ok (with_plaintext p plain)
      ]
      else ok p

  -- `case DATA`
  unfoldable pub receive_data : Packet → Transport H → Transport H × List (Effect H) × LoopOutcome
  unfolding deliver unprotect member
  receive_data p t =
      if ltb packet_size p.header.size
      then (t, [], stops (make_error_code ErrorCode.packet_too_large))
      else if member p.header.sequence t.received_packets
      then (t, send_ack H p.header.sequence t ∷ [], continues)
      else elim (unprotect t p) [
        | unexpected ec ↦ (t, send_ack H p.header.sequence t ∷ [], stops ec)
        | ok q ↦
            let (t', woken) = deliver q t in (t', send_ack H p.header.sequence t ∷ woken, continues)
      ]

  -- `case HANDSHAKE`
  unfoldable pub receive_handshake :
      Packet → Transport H → Transport H × List (Effect H) × LoopOutcome
  unfolding deliver member
  receive_handshake p t =
      if ltb packet_size p.header.size
      then (t, [], stops (make_error_code ErrorCode.packet_too_large))
      else if member p.header.sequence t.received_packets
      then (t, send_ack H p.header.sequence t ∷ [], continues)
      else (let (t', woken) = deliver p t in
          (t', send_ack H p.header.sequence t ∷ woken, continues))

  -- The switch over the packet's type; the other types have no case.
  unfoldable pub dispatch :
      PacketType → Packet → Transport H → Transport H × List (Effect H) × LoopOutcome
  unfolding receive_data receive_handshake
  dispatch PacketType.ack p t =
      let (t', effects) = ack_handler H p.header.sequence t in (t', effects, continues)
  dispatch PacketType.payload_data p t = receive_data p t
  dispatch PacketType.handshake p t = receive_handshake p t
  dispatch _ p t = (t, [], continues)

  -- The first sender becomes the peer, and packets from anybody else are ignored.
  unfoldable pub accept_peer : H.Endpoint → Transport H → Transport H
  accept_peer remote t =
      if t.peer_endpoint_known
      then t
      else record t { peer_endpoint = remote; peer_endpoint_known = true }

  unfoldable pub receive_turn :
      ℕ → H.Endpoint → Packet → Transport H → Transport H × List (Effect H) × LoopOutcome
  unfolding accept_peer dispatch
  receive_turn now remote p t =
      if not t.peer_endpoint_known || H.same_endpoint remote t.peer_endpoint
      then dispatch p.header.type p (record (accept_peer remote t) { last_peer_activity = now })
      else (t, [], continues)

  -- `receive_packet` after `pop` completed with an error value or a packet.
  unfoldable pub receive_packet : BoostError → Packet → Transport H → Expected Packet
  receive_packet ec p t =
      if failed ec
      then unexpected ec
      else if failed t.loop_error
      then unexpected t.loop_error
      else ok p
