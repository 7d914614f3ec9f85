-- ===== src/Transport/DeliverySteps.antt =====
-- Every step of the transport, but a stop of the loops, pays what it hands out.
use file_hop_z.Base.{
  ℕ, ◌≡◌, refl, inl, inr, true, not, List, ◌++◌, arith, ltb, ◌&&◌, ◌||◌, Bool-cases,
}
use file_hop_z.Base.Dict.{contains, erase}
use file_hop_z.Errors.{BoostError, failed, same_error, ok, Expected-cases}
use file_hop_z.Packet.{Packet, PacketType, packet_size}
use file_hop_z.Host.{Host}
use file_hop_z.AsyncValue
use file_hop_z.Transport.{
  Transport, Effect, end_packet, next_sequence, store_loop_error, handle_loop_result,
}
use file_hop_z.Transport.Ack.{
  ack_handler, signal_drained, is_drained, notify_sender, acknowledged, send_ack,
}
use file_hop_z.Transport.Send.{send_completed}
use file_hop_z.Transport.Receive.{
  LoopOutcome, continues, stops, member, unprotect, receive_data, receive_handshake, dispatch,
  accept_peer, receive_turn,
}
use file_hop_z.Transport.Step.{finish_turn}
use file_hop_z.Transport.Delivery.{
  credit, IsPaid, is_copy, handed-append, handed_senders, handed_drainers, copies-push,
  deliver-IsPaid,
}

module _ (H : Host) (s : ℕ) where
  notify_sender-IsPaid : (t : Transport H) → IsPaid H s t (notify_sender H t)
  notify_sender-IsPaid t = omega (arith, handed_senders H s (AsyncValue.notify_one t.cwnd).1)

  signal_drained-IsPaid : (t : Transport H) → IsPaid H s t (signal_drained H t)
  unfolding signal_drained
  signal_drained-IsPaid t = elim (Bool-cases (is_drained H t)) [
    | inl e ↦ rw e (omega (arith, handed_drainers H s (AsyncValue.set true t.drained_signal).1))
    | inr e ↦ rw e (omega arith)
  ]

  -- One step after the other.
  pub then-IsPaid :
      (t : Transport H) (r r' : Transport H × List (Effect H))
      → IsPaid H s t r
      → IsPaid H s r.0 r'
      → IsPaid H s t (r'.0, r.1 ++ r'.1)
  then-IsPaid t r r' a b = omega (arith, a, b, handed-append H s r.1 r'.1)

  ack_handler-IsPaid : (n : ℕ) (t : Transport H) → IsPaid H s t (ack_handler H n t)
  unfolding ack_handler acknowledged
  ack_handler-IsPaid n t = elim (Bool-cases (contains n t.in_flight)) [
    | inl e ↦
        let woken : Transport H × List (Effect H) = notify_sender H (acknowledged H n t) in
        rw e (
          then-IsPaid t woken (signal_drained H woken.0) (notify_sender-IsPaid (acknowledged H n t))
            (signal_drained-IsPaid woken.0))
    | inr e ↦ rw e (omega arith)
  ]

  pub send_completed-IsPaid :
      (n : ℕ) (ec : BoostError) (t : Transport H)
      → IsPaid H s t ((send_completed H n ec t).0, (send_completed H n ec t).1)
  unfolding send_completed
  send_completed-IsPaid n ec t = elim (Bool-cases (failed ec)) [
    | inl e ↦
        let t' : Transport H = record t { in_flight = erase n t.in_flight } in
        let woken : Transport H × List (Effect H) = notify_sender H t' in
        rw e (
          then-IsPaid t woken (signal_drained H woken.0) (notify_sender-IsPaid t')
            (signal_drained-IsPaid woken.0))
    | inr e ↦ rw e (omega arith)
  ]

  -- The local marker is no copy of a packet.
  marker_copy : (n : ℕ) → is_copy s (end_packet H n) ≡ 0
  marker_copy n = ground arith

  store_loop_error-IsPaid :
      (ec : BoostError) (t : Transport H) → IsPaid H s t (store_loop_error H ec t)
  unfolding store_loop_error
  store_loop_error-IsPaid ec t = elim (Bool-cases (not (failed ec) || failed t.loop_error)) [
    | inl e ↦ rw e (omega arith)
    | inr e ↦ rw e (
        omega (
          arith,
          copies-push H s (end_packet H (next_sequence H t)) t.received_packets_queue,
          handed_senders H s (AsyncValue.notify_one t.cwnd).1,
          handed_drainers H s (AsyncValue.set true t.drained_signal).1,
          handed-append H s,
          marker_copy (next_sequence H t),
        ))
  ]

  pub handle_loop_result-IsPaid :
      (ec : BoostError) (t : Transport H) → IsPaid H s t (handle_loop_result H ec t)
  unfolding handle_loop_result
  handle_loop_result-IsPaid ec t = elim (Bool-cases (not (failed ec))) [
    | inl e ↦ rw e (omega arith)
    | inr e ↦ elim (Bool-cases (t.stopping_loops && same_error ec H.operation_aborted)) [
      | inl f ↦ rw (e, f) (omega arith)
      | inr f ↦ rw (e, f) (store_loop_error-IsPaid ec t)
    ]
  ]

  -- Decryption keeps the sequence number.
  unprotect-sequence :
      (t : Transport H) (p q : Packet)
      → unprotect H t p ≡ ok q
      → q.header.sequence ≡ p.header.sequence
  unfolding unprotect
  unprotect-sequence t p q e = ground arith

  receive_data-IsPaid :
      (p : Packet) (t : Transport H) → IsPaid H s t ((receive_data H p t).0, (receive_data H p t).1)
  unfolding receive_data send_ack
  receive_data-IsPaid p t = elim (Bool-cases (ltb packet_size p.header.size)) [
    | inl e ↦ rw e (omega arith)
    | inr e ↦ elim (Bool-cases (member p.header.sequence t.received_packets)) [
      | inl f ↦ rw (e, f) (omega arith)
      | inr f ↦ elim (Expected-cases (unprotect H t p)) [
        | inl (q, g) ↦
            rw (e, f, g, receive_data)
              (omega (arith, deliver-IsPaid H s q t (rw (unprotect-sequence t p q g) f)))
        | inr (ec, g) ↦ rw (e, f, g, receive_data) (omega arith)
      ]
    ]
  ]

  receive_handshake-IsPaid :
      (p : Packet) (t : Transport H)
      → IsPaid H s t ((receive_handshake H p t).0, (receive_handshake H p t).1)
  unfolding receive_handshake send_ack
  receive_handshake-IsPaid p t = elim (Bool-cases (ltb packet_size p.header.size)) [
    | inl e ↦ rw e (omega arith)
    | inr e ↦ elim (Bool-cases (member p.header.sequence t.received_packets)) [
      | inl f ↦ rw (e, f) (omega arith)
      | inr f ↦ rw (e, f) (omega (arith, deliver-IsPaid H s p t f))
    ]
  ]

  dispatch-IsPaid :
      (type : PacketType) (p : Packet) (t : Transport H)
      → IsPaid H s t ((dispatch H type p t).0, (dispatch H type p t).1)
  unfolding dispatch
  dispatch-IsPaid PacketType.ack p t = ack_handler-IsPaid p.header.sequence t
  dispatch-IsPaid PacketType.payload_data p t = receive_data-IsPaid p t
  dispatch-IsPaid PacketType.handshake p t = receive_handshake-IsPaid p t
  dispatch-IsPaid _ p t = omega arith

  credit-accept_peer :
      (remote : H.Endpoint) (t : Transport H) → credit H s (accept_peer H remote t) ≡ credit H s t
  unfolding accept_peer
  credit-accept_peer remote t = elim (Bool-cases t.peer_endpoint_known) [
    | inl e ↦ rw e refl
    | inr e ↦ rw e refl
  ]

  pub receive_turn-IsPaid :
      (now : ℕ) (remote : H.Endpoint) (p : Packet) (t : Transport H)
      → IsPaid H s t ((receive_turn H now remote p t).0, (receive_turn H now remote p t).1)
  unfolding receive_turn
  receive_turn-IsPaid now remote p t =
      elim (Bool-cases (not t.peer_endpoint_known || H.same_endpoint remote t.peer_endpoint)) [
        | inl e ↦ rw e (
            omega (
              arith,
              credit-accept_peer remote t,
              dispatch-IsPaid p.header.type p
                  (record (accept_peer H remote t) { last_peer_activity = now }),
            ))
        | inr e ↦ rw e (omega arith)
      ]

  pub finish_turn-IsPaid :
      (outcome : LoopOutcome) (t : Transport H) → IsPaid H s t (finish_turn H outcome t)
  finish_turn-IsPaid continues t = omega arith
  finish_turn-IsPaid (stops ec) t = handle_loop_result-IsPaid ec t
