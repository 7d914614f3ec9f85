-- ===== src/Transport/Send.antt =====
-- ProtoHopZ::send_packet and resend_packet. A call of `send_packet` may wait for the window; what
-- runs from its start or from a wake-up to the next wait is one step.
use file_hop_z.Base.{
  ℕ, ◌+◌, ◌%◌, Bool, Option, none, some, List, [], ◌∷◌, ◌++◌, drop, length, ltb, leb, ◌||◌,
  if◌then◌else◌,
}
use file_hop_z.Base.Bytes.{Bytes, u16_mod, u32_mod}
use file_hop_z.Base.Dict.{lookup, erase, insert}
use file_hop_z.Errors.{BoostError, failed, Expected, ok, unexpected, ErrorCode, make_error_code}
use file_hop_z.Packet.{Packet, content, datagram, packet_payload_size, packet_size, max_in_flight}
use file_hop_z.AsyncValue
use file_hop_z.Crypto.{encrypt_data}
use file_hop_z.Host.{Host}
use file_hop_z.Transport.{Transport, Effect, send_datagram}
use file_hop_z.Transport.Ack.{notify_sender, signal_drained}

-- How a step of `send_packet` ends: it returned, it waits for the window, or it waits for the
-- socket with the packet that it numbered.
pub data SendOutcome : Type 0 where
  returned : BoostError → SendOutcome
  blocked : SendOutcome
  sending : Packet → SendOutcome

-- The packet with the ciphertext in place of the plaintext.
abbrev pub with_ciphertext : Packet → Bytes → Packet
with_ciphertext p cipher = record {
  header = record p.header { size = length cipher % u16_mod };
  region = cipher ++ drop (length cipher) p.region;
}

module _ (H : Host) where
  -- The condition of the waiting loop.
  abbrev pub is_blocked : Transport H → Bool
  is_blocked t =
      leb (H.float.truncate t.cwnd.value) (length t.in_flight)
      || leb max_in_flight (length t.in_flight)

  -- The packet as it is sent: encrypted once the connection is. `random` is the nonce drawn.
  unfoldable pub protect : Option Bytes → Transport H → Packet → Expected Packet
  protect random t p =
      if t.connection_encrypted
      then if ltb packet_payload_size p.header.size
        then unexpected (make_error_code ErrorCode.packet_too_large)
        else elim (encrypt_data H.ssl random t.crypto_context (content p)) [
          | unexpected ec ↦ unexpected (make_error_code ErrorCode.transport_encrypt_failed)
          | ok cipher ↦
              if ltb packet_size (length cipher)
              then unexpected (make_error_code ErrorCode.packet_too_large)
              else ok (with_ciphertext p cipher)
        ]
      else ok p

  abbrev pub numbered : Packet → ℕ → Packet
  numbered p sequence = record p { header = record p.header { sequence = sequence } }

  -- After the window: the packet is numbered, protected, registered and handed to the socket.
  unfoldable pub send_admitted :
      Packet → ℕ → Option Bytes → Transport H → Transport H × List (Effect H) × SendOutcome
  unfolding protect
  send_admitted source now random t =
      let t' = record t { sequence_counter = (t.sequence_counter + 1) % u32_mod } in
      elim (protect random t (numbered source t.sequence_counter)) [
        | unexpected ec ↦ (t', [], returned ec)
        | ok p ↦ (
          record t' {
            in_flight =
                insert t.sequence_counter (record { send_time = now; packet = p }) t.in_flight;
          },
          send_datagram t.peer_endpoint (datagram p) ∷ [],
          sending p,
        )
      ]

  -- The waiting loop; `handler` is the coroutine that waits.
  unfoldable pub send_window :
      ℕ → Packet → ℕ → Option Bytes → Transport H → Transport H × List (Effect H) × SendOutcome
  unfolding send_admitted
  send_window handler source now random t =
      if is_blocked t
      then (record t { cwnd = AsyncValue.wait handler t.cwnd }, [], blocked)
      else send_admitted source now random t

  -- From the entry to the strand on.
  unfoldable pub send_packet :
      ℕ → Packet → ℕ → Option Bytes → Transport H → Transport H × List (Effect H) × SendOutcome
  unfolding send_window
  send_packet handler source now random t =
      if failed t.loop_error
      then (t, [], returned t.loop_error)
      else send_window handler source now random t

  -- From a wake-up of `cwnd_.wait` on.
  unfoldable pub send_woken :
      ℕ
      → Packet
      → ℕ
      → Option Bytes
      → BoostError
      → Transport H
      → Transport H × List (Effect H) × SendOutcome
  unfolding send_window
  send_woken handler source now random ec t =
      if failed ec
      then (t, [], returned ec)
      else if failed t.loop_error
      then (t, [], returned t.loop_error)
      else send_window handler source now random t

  -- From the completion of `async_send_to` on.
  unfoldable pub send_completed :
      ℕ → BoostError → Transport H → Transport H × List (Effect H) × SendOutcome
  send_completed sequence ec t =
      if failed ec
      then (let (t', senders) =
            notify_sender H (record t { in_flight = erase sequence t.in_flight }) in
          let (t'', drainers) = signal_drained H t' in (t'', senders ++ drainers, returned ec))
      else (t, [], returned ec)

  -- `resend_packet` up to the socket: what it hands to it, if the packet is still in flight.
  unfoldable pub resend_packet : ℕ → Transport H → List (Effect H)
  resend_packet sequence t = elim (lookup sequence t.in_flight) [
    | none ↦ []
    | some local ↦ send_datagram t.peer_endpoint (datagram local.packet) ∷ []
  ]

  -- From the completion on: the send time starts anew, if the packet is still in flight.
  unfoldable pub resend_completed : ℕ → ℕ → BoostError → Transport H → Transport H × BoostError
  resend_completed sequence now ec t =
      if failed ec then (t, ec) else elim (lookup sequence t.in_flight) [
        | none ↦ (t, ec)
        | some local ↦ (
          record t { in_flight = insert sequence (record local { send_time = now }) t.in_flight },
          ec,
        )
      ]
