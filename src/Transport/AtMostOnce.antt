-- ===== src/Transport/AtMostOnce.antt =====
-- However often a packet arrives, and whatever else happens, it is passed on at most once.
use file_hop_z.Base.{
  ℕ, ◌+◌, ◌≤◌, ◌≡◌, refl, inl, inr, Bool, true, false, Option, List, [], ◌∷◌, arith, leb, ◌&&◌,
  ◌||◌, Bool-cases, Option-cases,
}
use file_hop_z.Base.Bytes.{Bytes}
use file_hop_z.Base.Dict.{lookup}
use file_hop_z.Errors.{BoostError, failed, Expected-cases}
use file_hop_z.Packet.{Packet, idle_timeout}
use file_hop_z.AsyncValue
use file_hop_z.Host.{Host}
use file_hop_z.Crypto.{CryptoContext}
use file_hop_z.Transport.{Transport, new_transport, start_loops}
use file_hop_z.Transport.Ack.{is_drained}
use file_hop_z.Transport.Send.{
  send_packet, send_woken, send_window, send_admitted, resend_packet, resend_completed, is_blocked,
  protect, numbered,
}
use file_hop_z.Transport.Receive.{member, receive_turn}
use file_hop_z.Transport.Timeout.{
  drain_cancelled, timed_out, shrink_window, timeout_turn, timeout_resumed, resend_turn,
  wait_in_flight_drained,
}
use file_hop_z.Transport.Step.{
  Event, loops_start, loops_stop, packet_offered, sender_woken, send_done, datagram_arrived,
  receive_failed, timer_fired, resend_due, resend_done, timer_failed, packet_wanted, drain_wanted,
  drain_expired, finish_turn, step, run,
}
use file_hop_z.Transport.Delivery.{handed, handed_drainers, credit, IsPaid, copies, copies-pop}
use file_hop_z.Transport.DeliverySteps.{
  then-IsPaid, send_completed-IsPaid, handle_loop_result-IsPaid, receive_turn-IsPaid,
  finish_turn-IsPaid,
}

or-false : (a b : Bool) → (a || b) ≡ false → (a ≡ false) × (b ≡ false)
or-false true b h = absurd cc
or-false false b h = (refl, h)

module _ (H : Host) where
  abbrev pub is_stop : Event H → Bool
  is_stop loops_stop = true
  is_stop _ = false

  abbrev pub has_stop : List (Event H) → Bool
  has_stop [] = false
  has_stop (e ∷ es) = is_stop e || has_stop es

module _ (H : Host) (s : ℕ) where
  send_admitted-IsPaid :
      (p : Packet) (now : ℕ) (random : Option Bytes) (t : Transport H)
      → IsPaid H s t ((send_admitted H p now random t).0, (send_admitted H p now random t).1)
  unfolding send_admitted
  send_admitted-IsPaid p now random t =
      elim (Expected-cases (protect H random t (numbered H p t.sequence_counter))) [
        | inl (q, e) ↦ rw (e, send_admitted) (omega arith)
        | inr (ec, e) ↦ rw (e, send_admitted) (omega arith)
      ]

  send_window-IsPaid :
      (handler : ℕ) (p : Packet) (now : ℕ) (random : Option Bytes) (t : Transport H)
      → IsPaid H s t
          ((send_window H handler p now random t).0, (send_window H handler p now random t).1)
  unfolding send_window
  send_window-IsPaid handler p now random t = elim (Bool-cases (is_blocked H t)) [
    | inl e ↦ rw e (omega arith)
    | inr e ↦ rw e (send_admitted-IsPaid p now random t)
  ]

  send_packet-IsPaid :
      (handler : ℕ) (p : Packet) (now : ℕ) (random : Option Bytes) (t : Transport H)
      → IsPaid H s t
          ((send_packet H handler p now random t).0, (send_packet H handler p now random t).1)
  unfolding send_packet
  send_packet-IsPaid handler p now random t = elim (Bool-cases (failed t.loop_error)) [
    | inl e ↦ rw e (omega arith)
    | inr e ↦ rw e (send_window-IsPaid handler p now random t)
  ]

  send_woken-IsPaid :
      (handler : ℕ) (p : Packet) (now : ℕ) (random : Option Bytes) (ec : BoostError)
      (t : Transport H)
      → IsPaid H s t
          ((send_woken H handler p now random ec t).0, (send_woken H handler p now random ec t).1)
  unfolding send_woken
  send_woken-IsPaid handler p now random ec t = elim (Bool-cases (failed ec)) [
    | inl e ↦ rw e (omega arith)
    | inr e ↦ elim (Bool-cases (failed t.loop_error)) [
      | inl f ↦ rw (e, f) (omega arith)
      | inr f ↦ rw (e, f) (send_window-IsPaid handler p now random t)
    ]
  ]

  credit-timeout_turn :
      (now : ℕ) (t : Transport H) → credit H s (timeout_turn H now t).0 ≡ credit H s t
  unfolding timeout_turn shrink_window
  credit-timeout_turn now t =
      elim (Bool-cases (leb (t.last_peer_activity + idle_timeout) now && t.connection_encrypted)) [
        | inl e ↦ rw e refl
        | inr e ↦
            rw e
              (elim (timed_out now t.in_flight)
                as (λ late. credit H s (shrink_window H late t) ≡ credit H s t) [
                  | [] ↦ refl
                  | x ∷ xs ↦ refl
                ])
      ]

  handed-resend_turn : (n : ℕ) (t : Transport H) → handed H s (resend_turn H n t) ≡ 0
  unfolding resend_turn resend_packet
  handed-resend_turn n t = elim (Option-cases (lookup n t.in_flight)) [
    | inl e ↦ rw (e, resend_turn) refl
    | inr (l, e) ↦ rw (e, resend_turn, resend_packet) refl
  ]

  credit-resend_completed :
      (n now : ℕ) (ec : BoostError) (t : Transport H)
      → credit H s (resend_completed H n now ec t).0 ≡ credit H s t
  unfolding resend_completed
  credit-resend_completed n now ec t = elim (Bool-cases (failed ec)) [
    | inl e ↦ rw e refl
    | inr e ↦ elim (Option-cases (lookup n t.in_flight)) [
      | inl f ↦ rw (e, f, resend_completed) refl
      | inr (l, f) ↦ rw (e, f, resend_completed) refl
    ]
  ]

  credit-wait_in_flight_drained :
      (handler : ℕ) (t : Transport H)
      → credit H s (wait_in_flight_drained H handler t).0 ≡ credit H s t
  unfolding wait_in_flight_drained
  credit-wait_in_flight_drained handler t = elim (Bool-cases (failed t.loop_error)) [
    | inl e ↦ rw e refl
    | inr e ↦ elim (Bool-cases (is_drained H t)) [ inl f ↦ rw (e, f) refl | inr f ↦ rw (e, f) refl ]
  ]

  step-IsPaid : (e : Event H) (t : Transport H) → is_stop H e ≡ false → IsPaid H s t (step H e t)
  unfolding drain_cancelled step start_loops
  step-IsPaid (loops_start now) t h = omega arith
  step-IsPaid loops_stop t h = absurd cc
  step-IsPaid (packet_offered handler p now random) t h = send_packet-IsPaid handler p now random t
  step-IsPaid (sender_woken handler p now random ec) t h =
      send_woken-IsPaid handler p now random ec t
  step-IsPaid (send_done n ec) t h = send_completed-IsPaid H s n ec t
  step-IsPaid (datagram_arrived now remote p) t h =
      then-IsPaid H s t ((receive_turn H now remote p t).0, (receive_turn H now remote p t).1)
        (finish_turn H (receive_turn H now remote p t).2 (receive_turn H now remote p t).0)
        (receive_turn-IsPaid H s now remote p t)
        (finish_turn-IsPaid H s (receive_turn H now remote p t).2 (receive_turn H now remote p t).0)
  step-IsPaid (receive_failed ec) t h = handle_loop_result-IsPaid H s ec t
  step-IsPaid (timer_fired now) t h = omega (
    arith,
    credit-timeout_turn now t,
    finish_turn-IsPaid H s (timeout_turn H now t).2 (timeout_turn H now t).0,
  )
  step-IsPaid (resend_due n) t h = omega (arith, handed-resend_turn n t)
  step-IsPaid (resend_done n now ec) t h = omega (
    arith,
    credit-resend_completed n now ec t,
    finish_turn-IsPaid H s (timeout_resumed (resend_completed H n now ec t).1)
        (resend_completed H n now ec t).0,
  )
  step-IsPaid (timer_failed ec) t h = finish_turn-IsPaid H s (timeout_resumed ec) t
  step-IsPaid (packet_wanted handler) t h =
      omega (arith, copies-pop H s handler t.received_packets_queue)
  step-IsPaid (drain_wanted handler) t h = omega (arith, credit-wait_in_flight_drained handler t)
  step-IsPaid (drain_expired handler) t h =
      omega (arith, handed_drainers H s (AsyncValue.cancel handler t.drained_signal).1)

  run-IsPaid :
      (es : List (Event H)) (t : Transport H) → has_stop H es ≡ false → IsPaid H s t (run H es t)
  unfolding run
  run-IsPaid [] t h = omega arith
  run-IsPaid (e ∷ es) t h =
      let (now, later) = or-false (is_stop H e) (has_stop H es) h in
      then-IsPaid H s t (step H e t) (run H es (step H e t).0) (step-IsPaid e t now)
        (run-IsPaid es (step H e t).0 later)

-- A packet is passed on at most once: in every sequence of events without a stop of the loops, the
-- readers are handed at most one data or handshake packet with a given sequence number, those
-- still queued included, however often its datagrams arrive and wherever they come from.
pub run_at_most_once :
    (H : Host) (s : ℕ) (endpoint : H.Endpoint) (crypto : CryptoContext H.ssl) (es : List (Event H))
    → has_stop H es ≡ false
    → handed H s (run H es (new_transport H endpoint crypto)).1
        + copies s (run H es (new_transport H endpoint crypto)).0.received_packets_queue.queue
      ≤ 1
unfolding new_transport member
run_at_most_once H s endpoint crypto es h =
    omega (arith, run-IsPaid H s es (new_transport H endpoint crypto) h)
