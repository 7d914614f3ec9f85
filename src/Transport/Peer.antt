-- ===== src/Transport/Peer.antt =====
-- The peer is the first endpoint that sent a packet, and nobody else is heard after it.
use file_hop_z.Base.{
  ℕ, ◌≡◌, refl, ◌∙◌, inl, inr, Bool, true, false, not, Option, List, [], ◌∷◌, arith, ◌||◌,
  if◌then◌else◌, Bool-cases,
}
use file_hop_z.Base.Bytes.{Bytes}
use file_hop_z.Base.Dict.{erase}
use file_hop_z.Errors.{BoostError}
use file_hop_z.Packet.{Packet, PacketType}
use file_hop_z.Host.{Host}
use file_hop_z.Transport.{Transport, start_loops, stop_loops, store_loop_error, handle_loop_result}
use file_hop_z.Transport.Ack.{ack_handler, signal_drained, notify_sender, acknowledged}
use file_hop_z.Transport.Send.{
  send_packet, send_woken, send_window, send_admitted, send_completed, resend_completed,
}
use file_hop_z.Transport.Receive.{
  LoopOutcome, continues, stops, deliver, receive_data, receive_handshake, dispatch, accept_peer,
  receive_turn,
}
use file_hop_z.Transport.Timeout.{
  drain_cancelled, shrink_window, timeout_turn, timeout_resumed, wait_in_flight_drained,
}
use file_hop_z.Transport.Step.{
  Event, loops_start, loops_stop, packet_offered, sender_woken, send_done, datagram_arrived,
  receive_failed, timer_fired, resend_due, resend_done, timer_failed, packet_wanted, drain_wanted,
  drain_expired, finish_turn, step, run,
}

module _ (H : Host) where
  -- The later state has the same peer.
  abbrev pub HasSamePeer : Transport H → Transport H → Type 0
  HasSamePeer t t' =
      (t'.peer_endpoint ≡ t.peer_endpoint) × (t'.peer_endpoint_known ≡ t.peer_endpoint_known)

  signal_drained-HasSamePeer : (t : Transport H) → HasSamePeer t (signal_drained H t).0
  unfolding signal_drained
  signal_drained-HasSamePeer t = ground arith

  ack_handler-HasSamePeer : (n : ℕ) (t : Transport H) → HasSamePeer t (ack_handler H n t).0
  unfolding ack_handler acknowledged
  ack_handler-HasSamePeer n t =
      ground (arith, signal_drained-HasSamePeer (notify_sender H (acknowledged H n t)).0)

  send_packet-HasSamePeer :
      (h : ℕ) (p : Packet) (now : ℕ) (random : Option Bytes) (t : Transport H)
      → HasSamePeer t (send_packet H h p now random t).0
  unfolding send_packet send_window send_admitted
  send_packet-HasSamePeer h p now random t = ground arith

  send_woken-HasSamePeer :
      (h : ℕ) (p : Packet) (now : ℕ) (random : Option Bytes) (ec : BoostError) (t : Transport H)
      → HasSamePeer t (send_woken H h p now random ec t).0
  unfolding send_woken send_window send_admitted
  send_woken-HasSamePeer h p now random ec t = ground arith

  send_completed-HasSamePeer :
      (n : ℕ) (ec : BoostError) (t : Transport H) → HasSamePeer t (send_completed H n ec t).0
  unfolding send_completed
  send_completed-HasSamePeer n ec t = ground (
    arith,
    signal_drained-HasSamePeer (notify_sender H (record t { in_flight = erase n t.in_flight })).0,
  )

  resend_completed-HasSamePeer :
      (n now : ℕ) (ec : BoostError) (t : Transport H)
      → HasSamePeer t (resend_completed H n now ec t).0
  unfolding resend_completed
  resend_completed-HasSamePeer n now ec t = ground arith

  handle_loop_result-HasSamePeer :
      (ec : BoostError) (t : Transport H) → HasSamePeer t (handle_loop_result H ec t).0
  unfolding handle_loop_result store_loop_error
  handle_loop_result-HasSamePeer ec t = ground arith

  timeout_turn-HasSamePeer : (now : ℕ) (t : Transport H) → HasSamePeer t (timeout_turn H now t).0
  unfolding timeout_turn shrink_window
  timeout_turn-HasSamePeer now t = ground arith

  wait_in_flight_drained-HasSamePeer :
      (h : ℕ) (t : Transport H) → HasSamePeer t (wait_in_flight_drained H h t).0
  unfolding wait_in_flight_drained
  wait_in_flight_drained-HasSamePeer h t = ground arith

  dispatch-HasSamePeer :
      (type : PacketType) (p : Packet) (t : Transport H) → HasSamePeer t (dispatch H type p t).0
  unfolding dispatch receive_data receive_handshake deliver
  dispatch-HasSamePeer PacketType.ack p t = ack_handler-HasSamePeer p.header.sequence t
  dispatch-HasSamePeer PacketType.payload_data p t = ground arith
  dispatch-HasSamePeer PacketType.handshake p t = ground arith
  dispatch-HasSamePeer _ p t = (refl, refl)

  finish_turn-HasSamePeer :
      (outcome : LoopOutcome) (t t' : Transport H)
      → HasSamePeer t t'
      → HasSamePeer t (finish_turn H outcome t').0
  finish_turn-HasSamePeer continues t t' same = same
  finish_turn-HasSamePeer (stops ec) t t' same =
      let later = handle_loop_result-HasSamePeer ec t' in (later.0 ∙ same.0, later.1 ∙ same.1)

  accept_peer_known :
      (remote : H.Endpoint) (t : Transport H)
      → t.peer_endpoint_known ≡ true
      → accept_peer H remote t ≡ t
  unfolding accept_peer
  accept_peer_known remote t known = ground arith

  receive_turn-HasSamePeer :
      (now : ℕ) (remote : H.Endpoint) (p : Packet) (t : Transport H)
      → t.peer_endpoint_known ≡ true
      → HasSamePeer t (receive_turn H now remote p t).0
  unfolding receive_turn
  receive_turn-HasSamePeer now remote p t known =
      elim (Bool-cases (not t.peer_endpoint_known || H.same_endpoint remote t.peer_endpoint)) [
        | inl e ↦
            rw (e, accept_peer_known remote t known)
              (dispatch-HasSamePeer p.header.type p (record t { last_peer_activity = now }))
        | inr e ↦ rw e (refl, refl)
      ]

  -- A known peer stays the peer at every event.
  pub step-HasSamePeer :
      (e : Event H) (t : Transport H) → t.peer_endpoint_known ≡ true → HasSamePeer t (step H e t).0
  unfolding drain_cancelled step start_loops stop_loops
  step-HasSamePeer (loops_start now) t k = (refl, refl)
  step-HasSamePeer loops_stop t k = (refl, refl)
  step-HasSamePeer (packet_offered h p now random) t k = send_packet-HasSamePeer h p now random t
  step-HasSamePeer (sender_woken h p now random ec) t k = send_woken-HasSamePeer h p now random ec t
  step-HasSamePeer (send_done n ec) t k = send_completed-HasSamePeer n ec t
  step-HasSamePeer (datagram_arrived now remote p) t k =
      finish_turn-HasSamePeer (receive_turn H now remote p t).2 t (receive_turn H now remote p t).0
        (receive_turn-HasSamePeer now remote p t k)
  step-HasSamePeer (receive_failed ec) t k = handle_loop_result-HasSamePeer ec t
  step-HasSamePeer (timer_fired now) t k =
      finish_turn-HasSamePeer (timeout_turn H now t).2 t (timeout_turn H now t).0
        (timeout_turn-HasSamePeer now t)
  step-HasSamePeer (resend_due n) t k = (refl, refl)
  step-HasSamePeer (resend_done n now ec) t k =
      finish_turn-HasSamePeer (timeout_resumed (resend_completed H n now ec t).1) t
        (resend_completed H n now ec t).0 (resend_completed-HasSamePeer n now ec t)
  step-HasSamePeer (timer_failed ec) t k =
      finish_turn-HasSamePeer (timeout_resumed ec) t t (refl, refl)
  step-HasSamePeer (packet_wanted h) t k = (refl, refl)
  step-HasSamePeer (drain_wanted h) t k = wait_in_flight_drained-HasSamePeer h t
  step-HasSamePeer (drain_expired h) t k = (refl, refl)

  -- A datagram from an endpoint that is not the peer.
  abbrev pub is_foreign : H.Endpoint → Event H → Bool
  is_foreign peer (datagram_arrived now remote p) = not (H.same_endpoint remote peer)
  is_foreign peer _ = false

  abbrev pub without_foreign : H.Endpoint → List (Event H) → List (Event H)
  without_foreign peer [] = []
  without_foreign peer (e ∷ es) =
      let rest = without_foreign peer es in if is_foreign peer e then rest else e ∷ rest

  step_foreign :
      (e : Event H) (t : Transport H)
      → t.peer_endpoint_known ≡ true
      → is_foreign t.peer_endpoint e ≡ true
      → step H e t ≡ (t, [])
  unfolding step receive_turn
  step_foreign (datagram_arrived now remote p) t k f = ground arith
  step_foreign _ t k f = absurd cc

  run_foreign_from :
      (peer : H.Endpoint) (es : List (Event H)) (t : Transport H)
      → t.peer_endpoint_known ≡ true
      → t.peer_endpoint ≡ peer
      → run H es t ≡ run H (without_foreign peer es) t
  unfolding run
  run_foreign_from peer [] t k same = refl
  run_foreign_from peer (e ∷ es) t k same = elim (Bool-cases (is_foreign peer e)) [
    | inl f ↦
        let still : step H e t ≡ (t, []) = step_foreign e t k (rw same f) in
        rw (f, still) (run_foreign_from peer es t k same)
    | inr f ↦
        let (kept, known) = step-HasSamePeer e t k in
        rw (f, run_foreign_from peer es (step H e t).0 (known ∙ k) (kept ∙ same)) refl
  ]

  -- Once a peer is known, datagrams from other endpoints might as well not have come: every
  -- sequence of events ends in the same state and asks for the same effects as the sequence
  -- without them.
  pub run_foreign :
      (es : List (Event H)) (t : Transport H)
      → t.peer_endpoint_known ≡ true
      → run H es t ≡ run H (without_foreign t.peer_endpoint es) t
  run_foreign es t known = run_foreign_from t.peer_endpoint es t known refl
