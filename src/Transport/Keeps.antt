-- ===== src/Transport/Keeps.antt =====
-- The operations of the transport that leave the error of its loops and its encryption alone.
use file_hop_z.Base.{ℕ, ◌≡◌, refl, ◌∙◌, inl, inr, not, Option, arith, ◌||◌, Bool-cases}
use file_hop_z.Base.Bytes.{Bytes}
use file_hop_z.Base.Dict.{erase}
use file_hop_z.Errors.{BoostError}
use file_hop_z.Packet.{Packet, PacketType}
use file_hop_z.Host.{Host}
use file_hop_z.Transport.{Transport}
use file_hop_z.Transport.Ack.{ack_handler, signal_drained, notify_sender, acknowledged}
use file_hop_z.Transport.Send.{
  send_packet, send_woken, send_window, send_admitted, send_completed, resend_completed,
}
use file_hop_z.Transport.Receive.{
  deliver, receive_data, receive_handshake, dispatch, accept_peer, receive_turn,
}
use file_hop_z.Transport.Timeout.{shrink_window, timeout_turn, wait_in_flight_drained}

module _ (H : Host) where
  -- The error of the loops and the encryption are as they were.
  abbrev pub Keeps : Transport H → Transport H → Type 0
  Keeps t t' = (t'.loop_error ≡ t.loop_error) × (t'.connection_encrypted ≡ t.connection_encrypted)

  signal_drained-Keeps : (t : Transport H) → Keeps t (signal_drained H t).0
  unfolding signal_drained
  signal_drained-Keeps t = ground arith

  ack_handler-Keeps : (n : ℕ) (t : Transport H) → Keeps t (ack_handler H n t).0
  unfolding ack_handler acknowledged
  ack_handler-Keeps n t =
      ground (arith, signal_drained-Keeps (notify_sender H (acknowledged H n t)).0)

  pub send_packet-Keeps :
      (h : ℕ) (p : Packet) (now : ℕ) (random : Option Bytes) (t : Transport H)
      → Keeps t (send_packet H h p now random t).0
  unfolding send_packet send_window send_admitted
  send_packet-Keeps h p now random t = ground arith

  pub send_woken-Keeps :
      (h : ℕ) (p : Packet) (now : ℕ) (random : Option Bytes) (ec : BoostError) (t : Transport H)
      → Keeps t (send_woken H h p now random ec t).0
  unfolding send_woken send_window send_admitted
  send_woken-Keeps h p now random ec t = ground arith

  pub send_completed-Keeps :
      (n : ℕ) (ec : BoostError) (t : Transport H) → Keeps t (send_completed H n ec t).0
  unfolding send_completed
  send_completed-Keeps n ec t = ground (
    arith,
    signal_drained-Keeps (notify_sender H (record t { in_flight = erase n t.in_flight })).0,
  )

  pub resend_completed-Keeps :
      (n now : ℕ) (ec : BoostError) (t : Transport H) → Keeps t (resend_completed H n now ec t).0
  unfolding resend_completed
  resend_completed-Keeps n now ec t = ground arith

  pub timeout_turn-Keeps : (now : ℕ) (t : Transport H) → Keeps t (timeout_turn H now t).0
  unfolding timeout_turn shrink_window
  timeout_turn-Keeps now t = ground arith

  pub wait_in_flight_drained-Keeps :
      (h : ℕ) (t : Transport H) → Keeps t (wait_in_flight_drained H h t).0
  unfolding wait_in_flight_drained
  wait_in_flight_drained-Keeps h t = ground arith

  dispatch-Keeps :
      (type : PacketType) (p : Packet) (t : Transport H) → Keeps t (dispatch H type p t).0
  unfolding dispatch receive_data receive_handshake deliver
  dispatch-Keeps PacketType.ack p t = ack_handler-Keeps p.header.sequence t
  dispatch-Keeps PacketType.payload_data p t = ground arith
  dispatch-Keeps PacketType.handshake p t = ground arith
  dispatch-Keeps _ p t = (refl, refl)

  accept_peer-Keeps : (remote : H.Endpoint) (t : Transport H) → Keeps t (accept_peer H remote t)
  unfolding accept_peer
  accept_peer-Keeps remote t = ground arith

  pub receive_turn-Keeps :
      (now : ℕ) (remote : H.Endpoint) (p : Packet) (t : Transport H)
      → Keeps t (receive_turn H now remote p t).0
  unfolding receive_turn
  receive_turn-Keeps now remote p t =
      elim (Bool-cases (not t.peer_endpoint_known || H.same_endpoint remote t.peer_endpoint)) [
        | inl e ↦
            let (error, encrypted) =
              dispatch-Keeps p.header.type p
                (record (accept_peer H remote t) { last_peer_activity = now }) in
            let (error', encrypted') = accept_peer-Keeps remote t in
            rw e (error ∙ error', encrypted ∙ encrypted')
        | inr e ↦ rw e (refl, refl)
      ]
