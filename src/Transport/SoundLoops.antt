-- ===== src/Transport/SoundLoops.antt =====
-- The two loops and the loop errors keep the window's invariant.
use file_hop_z.Base.{ℕ, ◌+◌, inl, inr, not, List, [], ◌∷◌, leb, ltb, ◌&&◌, ◌||◌, Bool-cases}
use file_hop_z.Errors.{BoostError, failed, same_error, Expected-cases}
use file_hop_z.Packet.{Packet, PacketType, packet_size, idle_timeout}
use file_hop_z.Host.{Host, IsRounding}
use file_hop_z.AsyncValue
use file_hop_z.Transport.{Transport, store_loop_error, handle_loop_result}
use file_hop_z.Transport.Ack.{is_drained}
use file_hop_z.Transport.Receive.{
  LoopOutcome, continues, stops, member, unprotect, receive_data, receive_handshake, dispatch,
  accept_peer, receive_turn,
}
use file_hop_z.Transport.Timeout.{timed_out, shrink_window, timeout_turn, wait_in_flight_drained}
use file_hop_z.Transport.Step.{finish_turn}
use file_hop_z.Transport.Window.{IsSound, one-IsBounded, notify_sender-IsSound, ack_handler-IsSound}

module _ (H : Host) (R : IsRounding H.float) where
  store_loop_error-IsSound :
      (ec : BoostError) (t : Transport H) → IsSound H t → IsSound H (store_loop_error H ec t).0
  unfolding store_loop_error AsyncValue.set
  store_loop_error-IsSound ec t b = elim (Bool-cases (not (failed ec) || failed t.loop_error)) [
    | inl e ↦ rw e b
    | inr e ↦ rw e (notify_sender-IsSound H R t b)
  ]

  pub handle_loop_result-IsSound :
      (ec : BoostError) (t : Transport H) → IsSound H t → IsSound H (handle_loop_result H ec t).0
  unfolding handle_loop_result
  handle_loop_result-IsSound ec t b = elim (Bool-cases (not (failed ec))) [
    | inl e ↦ rw e b
    | inr e ↦ elim (Bool-cases (t.stopping_loops && same_error ec H.operation_aborted)) [
      | inl f ↦ rw (e, f) b
      | inr f ↦ rw (e, f) (store_loop_error-IsSound ec t b)
    ]
  ]

  receive_data-IsSound :
      (p : Packet) (t : Transport H) → IsSound H t → IsSound H (receive_data H p t).0
  unfolding receive_data
  receive_data-IsSound p t b = elim (Bool-cases (ltb packet_size p.header.size)) [
    | inl e ↦ rw e b
    | inr e ↦ elim (Bool-cases (member p.header.sequence t.received_packets)) [
      | inl f ↦ rw (e, f) b
      | inr f ↦ elim (Expected-cases (unprotect H t p)) [
        | inl (q, g) ↦ rw (e, f, g, receive_data) b
        | inr (ec, g) ↦ rw (e, f, g, receive_data) b
      ]
    ]
  ]

  receive_handshake-IsSound :
      (p : Packet) (t : Transport H) → IsSound H t → IsSound H (receive_handshake H p t).0
  unfolding receive_handshake
  receive_handshake-IsSound p t b = elim (Bool-cases (ltb packet_size p.header.size)) [
    | inl e ↦ rw e b
    | inr e ↦ elim (Bool-cases (member p.header.sequence t.received_packets)) [
      | inl f ↦ rw (e, f) b
      | inr f ↦ rw (e, f) b
    ]
  ]

  dispatch-IsSound :
      (type : PacketType) (p : Packet) (t : Transport H)
      → IsSound H t
      → IsSound H (dispatch H type p t).0
  unfolding dispatch
  dispatch-IsSound PacketType.ack p t b = ack_handler-IsSound H R p.header.sequence t b
  dispatch-IsSound PacketType.payload_data p t b = receive_data-IsSound p t b
  dispatch-IsSound PacketType.handshake p t b = receive_handshake-IsSound p t b
  dispatch-IsSound _ p t b = b

  accept_peer-IsSound :
      (remote : H.Endpoint) (t : Transport H) → IsSound H t → IsSound H (accept_peer H remote t)
  unfolding accept_peer
  accept_peer-IsSound remote t b = elim (Bool-cases t.peer_endpoint_known) [
    | inl e ↦ rw e b
    | inr e ↦ rw e b
  ]

  pub receive_turn-IsSound :
      (now : ℕ) (remote : H.Endpoint) (p : Packet) (t : Transport H)
      → IsSound H t
      → IsSound H (receive_turn H now remote p t).0
  unfolding receive_turn
  receive_turn-IsSound now remote p t b =
      elim (Bool-cases (not t.peer_endpoint_known || H.same_endpoint remote t.peer_endpoint)) [
        | inl e ↦ rw e (
            dispatch-IsSound p.header.type p
              (record (accept_peer H remote t) { last_peer_activity = now })
              (accept_peer-IsSound remote t b))
        | inr e ↦ rw e b
      ]

  shrink_window-IsSound :
      (late : List ℕ) (t : Transport H) → IsSound H t → IsSound H (shrink_window H late t)
  unfolding shrink_window AsyncValue.update
  shrink_window-IsSound [] t b = b
  shrink_window-IsSound (s ∷ late) t b = one-IsBounded H R t.cwnd.value t.in_flight b

  pub timeout_turn-IsSound :
      (now : ℕ) (t : Transport H) → IsSound H t → IsSound H (timeout_turn H now t).0
  unfolding timeout_turn
  timeout_turn-IsSound now t b =
      elim (Bool-cases (leb (t.last_peer_activity + idle_timeout) now && t.connection_encrypted)) [
        | inl e ↦ rw e b
        | inr e ↦ rw e (shrink_window-IsSound (timed_out now t.in_flight) t b)
      ]

  pub wait_in_flight_drained-IsSound :
      (handler : ℕ) (t : Transport H)
      → IsSound H t
      → IsSound H (wait_in_flight_drained H handler t).0
  unfolding wait_in_flight_drained
  wait_in_flight_drained-IsSound handler t b = elim (Bool-cases (failed t.loop_error)) [
    | inl e ↦ rw e b
    | inr e ↦ elim (Bool-cases (is_drained H t)) [ inl f ↦ rw (e, f) b | inr f ↦ rw (e, f) b ]
  ]

  pub finish_turn-IsSound :
      (outcome : LoopOutcome) (t : Transport H)
      → IsSound H t
      → IsSound H (finish_turn H outcome t).0
  finish_turn-IsSound continues t b = b
  finish_turn-IsSound (stops ec) t b = handle_loop_result-IsSound ec t b
