-- ===== src/Transport/Admission.antt =====
-- What it means that send_packet handed a packet to the socket.
use file_hop_z.Base.{
  ℕ, ◌+◌, ◌%◌, ◌<◌, ◌≡◌, ◌≢◌, refl, inl, inr, false, Option, some, List, [], ◌∷◌, arith, length,
  ==_refl, Bool-cases,
}
use file_hop_z.Base.Bytes.{Bytes, u32_mod}
use file_hop_z.Base.Dict.{lookup, insert, lookup-insert}
use file_hop_z.Errors.{failed, ok, Expected-cases}
use file_hop_z.Packet.{Packet, datagram, max_in_flight}
use file_hop_z.Host.{Host}
use file_hop_z.Transport.{Transport, PacketLocal, Effect, send_datagram}
use file_hop_z.Transport.Send.{
  SendOutcome, sending, protect, numbered, is_blocked, send_admitted, send_window, send_packet,
  resend_packet,
}

module _ (H : Host) where
  -- The packet `p`, offered at `now`, left as `q`.
  pub record IsAdmitted (p : Packet) (now : ℕ) (random : Option Bytes) (t : Transport H)
      (q : Packet) (r : Transport H × List (Effect H) × SendOutcome) : Type 0 where
    pub below_cwnd : length t.in_flight < H.float.truncate t.cwnd.value
    pub below_cap : length t.in_flight < max_in_flight
    pub protected : protect H random t (numbered H p t.sequence_counter) ≡ ok q
    pub registered :
        lookup t.sequence_counter r.0.in_flight ≡ some (record { send_time = now; packet = q })
    pub others : (k : ℕ) → t.sequence_counter ≢ k → lookup k r.0.in_flight ≡ lookup k t.in_flight
    pub counted : r.0.sequence_counter ≡ (t.sequence_counter + 1) % u32_mod
    pub sent : r.1 ≡ send_datagram t.peer_endpoint (datagram q) ∷ []
    pub resent : resend_packet H t.sequence_counter r.0 ≡ r.1

  send_admitted-IsAdmitted :
      (p : Packet) (now : ℕ) (random : Option Bytes) (t : Transport H) (q : Packet)
      → is_blocked H t ≡ false
      → (send_admitted H p now random t).2 ≡ sending q
      → IsAdmitted p now random t q (send_admitted H p now random t)
  unfolding send_admitted resend_packet
  send_admitted-IsAdmitted p now random t q free h =
      elim (Expected-cases (protect H random t (numbered H p t.sequence_counter))) [
        | inr (ec, e) ↦ absurd (ground arith)
        | inl (q', e) ↦
            let same : q' ≡ q = ground arith in
            let l : PacketLocal = record { send_time = now; packet = q' } in
            let held : lookup t.sequence_counter (insert t.sequence_counter l t.in_flight)
                ≡ some l =
              rw
                (
                  lookup-insert t.sequence_counter t.sequence_counter l t.in_flight,
                  ==_refl t.sequence_counter,
                )
                refl in
            rw (← same) (record {
              below_cwnd = ground arith;
              below_cap = ground arith;
              protected = e;
              registered = rw (e, send_admitted) held;
              others = λ k ne.
                  rw (e, send_admitted)
                    (ground (arith, lookup-insert k t.sequence_counter l t.in_flight));
              counted = rw (e, send_admitted) refl;
              sent = rw (e, send_admitted) refl;
              resent = rw (e, send_admitted, held, resend_packet, e, send_admitted) refl;
            })
      ]

  -- A packet is handed to the socket only when fewer packets are in flight than the congestion
  -- window and the cap allow; it then stands in flight under the number that it was given, with
  -- the time and in the form in which it left, a resend puts the same datagram on the wire, and
  -- every other packet in flight is as before.
  pub send_packet-IsAdmitted :
      (handler : ℕ) (p : Packet) (now : ℕ) (random : Option Bytes) (t : Transport H) (q : Packet)
      → (send_packet H handler p now random t).2 ≡ sending q
      → IsAdmitted p now random t q (send_packet H handler p now random t)
  unfolding send_packet send_window
  send_packet-IsAdmitted handler p now random t q h = elim (Bool-cases (failed t.loop_error)) [
    | inl e ↦ absurd (ground arith)
    | inr e ↦ elim (Bool-cases (is_blocked H t)) [
      | inl f ↦ absurd (ground arith)
      | inr f ↦ rw (e, f) (send_admitted-IsAdmitted p now random t q f (ground arith))
    ]
  ]
