-- ===== src/Transport/Timeouts.antt =====
-- Which packets time out, how the window backs off, and that it never locks the sender out.
use file_hop_z.Base.{
  ℕ, ◌+◌, ◌≤◌, ◌≡◌, refl, inl, inr, Bool, true, false, Option, none, some, List, [], ◌∷◌, arith,
  length, leb, ltb, ◌&&◌, Bool-cases,
}
use file_hop_z.Base.Dict.{Dict, lookup, NodupKeys}
use file_hop_z.Packet.{timeout, idle_timeout}
use file_hop_z.AsyncValue
use file_hop_z.Host.{Host, IsRounding}
use file_hop_z.Transport.{Transport, PacketLocal}
use file_hop_z.Transport.Send.{is_blocked}
use file_hop_z.Transport.Receive.{member}
use file_hop_z.Transport.Timeout.{timed_out, shrink_window, timeout_turn}
use file_hop_z.Transport.Window.{IsSound}

-- A packet in flight that was sent more than the timeout before `now`.
abbrev pub is_late : ℕ → Option PacketLocal → Bool
is_late now none = false
is_late now (some local) = ltb (local.send_time + timeout) now

-- The numbers to resend are those of the packets in flight that are late, and no others, if no
-- number is in flight twice.
pub timed_out_iff :
    (now s : ℕ) (d : Dict PacketLocal)
    → NodupKeys d
    → member s (timed_out now d) ≡ is_late now (lookup s d)
unfolding timed_out member lookup
timed_out_iff now s [] u = refl
timed_out_iff now s ((i, l) ∷ d) u = ground (arith, timed_out_iff now s d u.1, u.0)

module _ (H : Host) (R : IsRounding H.float) where
  one_blocks :
      (t : Transport H)
      → t.cwnd.value ≡ H.float.of_nat 1
      → 1 ≤ length t.in_flight
      → is_blocked H t ≡ true
  one_blocks t one some_out =
      let small : H.float.truncate t.cwnd.value ≤ 1 =
        rw one
          (R.truncate_le (H.float.of_nat 1) 1 (R.of_nat_mono 1 1 (omega arith) (omega arith))) in
      ground (arith, small, some_out)

  late_in_flight :
      (now s : ℕ) (d : Dict PacketLocal) → member s (timed_out now d) ≡ true → 1 ≤ length d
  unfolding timed_out member
  late_in_flight now s [] h = absurd cc
  late_in_flight now s (e ∷ d) h = omega arith

  shrunk :
      (late : List ℕ) (s : ℕ) (t : Transport H)
      → member s late ≡ true
      → ((shrink_window H late t).cwnd.value ≡ H.float.of_nat 1)
        × ((shrink_window H late t).in_flight ≡ t.in_flight)
  unfolding shrink_window member AsyncValue.update
  shrunk [] s t h = absurd cc
  shrunk (x ∷ late) s t h = (refl, refl)

  -- A turn of the timeout loop that finds a packet to resend sets the window to one packet and
  -- leaves everything in flight, and no packet is admitted in that state; doubles are assumed to
  -- have the facts of rounding in `IsRounding`.
  pub timeout_turn_backs_off :
      (now s : ℕ) (t : Transport H)
      → member s (timeout_turn H now t).1 ≡ true
      → ((timeout_turn H now t).0.cwnd.value ≡ H.float.of_nat 1)
        × ((timeout_turn H now t).0.in_flight ≡ t.in_flight)
        × (is_blocked H (timeout_turn H now t).0 ≡ true)
  unfolding timeout_turn member
  timeout_turn_backs_off now s t h =
      elim (Bool-cases (leb (t.last_peer_activity + idle_timeout) now && t.connection_encrypted)) [
        | inl e ↦ absurd (ground arith)
        | inr e ↦
            let late : member s (timed_out now t.in_flight) ≡ true = ground arith in
            let after : Transport H = shrink_window H (timed_out now t.in_flight) t in
            let (one, kept) = shrunk (timed_out now t.in_flight) s t late in
            rw e (one, kept, one_blocks after one (rw kept (late_in_flight now s t.in_flight late)))
      ]

  -- A sender is never locked out for good: with nothing in flight the window admits a packet, in
  -- every state that meets the window's invariant; doubles are assumed to have the facts of
  -- rounding in `IsRounding`.
  pub is_blocked_drained :
      (t : Transport H) → IsSound H t → t.in_flight ≡ [] → is_blocked H t ≡ false
  is_blocked_drained t b empty =
      let room : 1 ≤ H.float.truncate t.cwnd.value = R.truncate_pos t.cwnd.value b.positive in
      rw empty (ground (arith, room))
