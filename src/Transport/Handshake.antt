-- ===== src/Transport/Handshake.antt =====
-- ProtoHopZ::handshake_initiator and handshake_responder, cut where they wait: for their packet to
-- be sent and for the peer's packet.
use file_hop_z.Base.{ℕ, true, not, take, ◌==◌, if◌then◌else◌}
use file_hop_z.Base.Bytes.{Bytes}
use file_hop_z.Errors.{BoostError, failed, ErrorCode, make_error_code}
use file_hop_z.Packet.{Packet, PacketType, x25519_len}
use file_hop_z.Crypto.{init, set_peer_public_key}
use file_hop_z.Host.{Host}
use file_hop_z.Transport.{Transport}

-- The next thing that a handshake does.
pub data HandshakeStep : Type 0 where
  finished : BoostError → HandshakeStep
  sends : Packet → HandshakeStep
  awaits : HandshakeStep

-- The packet with the own public key.
abbrev pub handshake_packet : Bytes → Packet
handshake_packet public_key = record {
  header = record { type = PacketType.handshake; flags = 0; size = x25519_len; sequence = 0 };
  region = public_key;
}

module _ (H : Host) where
  abbrev pub own_packet : Transport H → Packet
  own_packet t = handshake_packet t.crypto_context.own_public_key

  -- The start of both: the loops must run, and the key pair is generated.
  unfoldable pub handshake_start : ℕ → Transport H → Transport H × BoostError
  handshake_start draw t =
      if not t.loops_started
      then (t, make_error_code ErrorCode.loops_not_running)
      else (let (c, ec) = init H.ssl draw t.crypto_context in (record t { crypto_context = c }, ec))

  -- The peer's packet carries its public key.
  unfoldable pub take_peer_key : Packet → Transport H → Transport H × BoostError
  take_peer_key p t =
      if not (p.header.size == x25519_len)
      then (t, make_error_code ErrorCode.invalid_handshake_key_size)
      else (let (c, ec) = set_peer_public_key H.ssl (take x25519_len p.region) t.crypto_context in
          (record t { crypto_context = c }, ec))

  unfoldable pub initiator_start : ℕ → Transport H → Transport H × HandshakeStep
  unfolding handshake_start
  initiator_start draw t =
      let (t', ec) = handshake_start draw t in
      (t', if failed ec then finished ec else sends (own_packet t'))

  unfoldable pub initiator_sent : BoostError → HandshakeStep
  initiator_sent ec = if failed ec then finished ec else awaits

  unfoldable pub initiator_received :
      BoostError → Packet → Transport H → Transport H × HandshakeStep
  unfolding take_peer_key
  initiator_received ec p t =
      if failed ec
      then (t, finished ec)
      else (let (t', ec') = take_peer_key p t in
          if failed ec'
          then (t', finished ec')
          else (record t' { connection_encrypted = true }, finished ec'))

  unfoldable pub responder_start : ℕ → Transport H → Transport H × HandshakeStep
  unfolding handshake_start
  responder_start draw t =
      let (t', ec) = handshake_start draw t in (t', if failed ec then finished ec else awaits)

  unfoldable pub responder_received :
      BoostError → Packet → Transport H → Transport H × HandshakeStep
  unfolding take_peer_key
  responder_received ec p t =
      if failed ec
      then (t, finished ec)
      else (let (t', ec') = take_peer_key p t in
          (t', if failed ec' then finished ec' else sends (own_packet t')))

  unfoldable pub responder_sent : BoostError → Transport H → Transport H × HandshakeStep
  responder_sent ec t =
      if failed ec
      then (t, finished ec)
      else (record t { connection_encrypted = true }, finished ec)
