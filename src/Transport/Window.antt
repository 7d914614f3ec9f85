-- ===== src/Transport/Window.antt =====
-- The window is never exceeded: at most 1024 packets are in flight, each under its own number, and
-- the congestion window stays between 1 and 1024, whatever happens in whatever order.
use file_hop_z.Base.{
  ℕ, ◌≤◌, ◌<◌, ◌≡◌, refl, inl, inr, true, false, Option, some, [], arith, length, Bool-cases,
}
use file_hop_z.Base.Bytes.{Bytes}
use file_hop_z.Base.Dict.{
  Dict, lookup, contains, erase, insert, NodupKeys, lookup-insert, lookup-erase, insert-NodupKeys,
  erase-NodupKeys, length-insert-le, length-erase-le,
}
use file_hop_z.Errors.{ok, Expected-cases}
use file_hop_z.Packet.{Packet, max_in_flight}
use file_hop_z.AsyncValue
use file_hop_z.AsyncValue.{AsyncValue}
use file_hop_z.AsyncValue.Waiters.{value-notify_one}
use file_hop_z.Host.{Host, IsRounding, min_double}
use file_hop_z.Transport.{Transport, PacketLocal, max_cwnd}
use file_hop_z.Transport.Ack.{
  next_cwnd, signal_drained, acknowledged, ack_handler, is_drained, notify_sender,
}
use file_hop_z.Transport.Send.{is_blocked, protect, numbered, send_admitted, send_window}

module _ (H : Host) where
  -- The invariant, of the two parts of the state that it is about.
  pub record IsBounded (d : Dict PacketLocal) (w : H.float.Double) : Type 0 where
    pub capped : length d ≤ max_in_flight
    pub nodup : NodupKeys d
    pub keyed : (s : ℕ) (l : PacketLocal) → lookup s d ≡ some l → l.packet.header.sequence ≡ s
    pub positive : H.float.at_most (H.float.of_nat 1) w ≡ true
    pub limited : H.float.at_most w (max_cwnd H) ≡ true

  abbrev pub IsSound : Transport H → Type 0
  IsSound t = IsBounded t.in_flight t.cwnd.value

  pub erase-IsBounded :
      (s : ℕ) (d : Dict PacketLocal) (w : H.float.Double) → IsBounded d w → IsBounded (erase s d) w
  erase-IsBounded s d w b = record {
    capped = omega (arith, length-erase-le s d, b.capped);
    nodup = erase-NodupKeys s d b.nodup;
    keyed = λ k l e. ground (arith, b.keyed k l, lookup-erase k s d b.nodup);
    positive = b.positive;
    limited = b.limited;
  }

  pub nil-IsBounded : (d : Dict PacketLocal) (w : H.float.Double) → IsBounded d w → IsBounded [] w
  unfolding lookup
  nil-IsBounded d w b = record {
    capped = omega arith;
    nodup = tt;
    keyed = λ k l e. cc;
    positive = b.positive;
    limited = b.limited;
  }

  pub insert-IsBounded :
      (s : ℕ) (l : PacketLocal) (d : Dict PacketLocal) (w : H.float.Double)
      → l.packet.header.sequence ≡ s
      → length (insert s l d) ≤ max_in_flight
      → IsBounded d w
      → IsBounded (insert s l d) w
  insert-IsBounded s l d w own room b = record {
    capped = room;
    nodup = insert-NodupKeys s l d b.nodup;
    keyed = λ k m e. ground (arith, b.keyed k m, lookup-insert k s l d);
    positive = b.positive;
    limited = b.limited;
  }

  is_blocked-room : (t : Transport H) → is_blocked H t ≡ false → length t.in_flight < max_in_flight
  is_blocked-room t free = ground arith

  -- Protection keeps the sequence number.
  protect-sequence :
      (random : Option Bytes) (t : Transport H) (p q : Packet)
      → protect H random t p ≡ ok q
      → q.header.sequence ≡ p.header.sequence
  unfolding protect
  protect-sequence random t p q e = ground arith

  module _ (R : IsRounding H.float) where
    min_double_bounds :
        (x : H.float.Double)
        → H.float.at_most (H.float.of_nat 1) x ≡ true
        → (H.float.at_most (H.float.of_nat 1) (min_double H.float x (max_cwnd H)) ≡ true)
          × (H.float.at_most (min_double H.float x (max_cwnd H)) (max_cwnd H) ≡ true)
    min_double_bounds x h = elim (Bool-cases (H.float.less (max_cwnd H) x)) [
      | inl over ↦ rw over (
        R.of_nat_mono 1 1024 (omega arith) (omega arith),
        R.of_nat_mono 1024 1024 (omega arith) (omega arith),
      )
      | inr within ↦ rw within (h, R.at_most_of_not_less x 1024 h within)
    ]

    -- The next window stays in its range.
    pub next_cwnd_bounds :
        (sshthresh w : H.float.Double)
        → H.float.at_most (H.float.of_nat 1) w ≡ true
        → (H.float.at_most (H.float.of_nat 1) (next_cwnd H sshthresh w) ≡ true)
          × (H.float.at_most (next_cwnd H sshthresh w) (max_cwnd H) ≡ true)
    unfolding next_cwnd
    next_cwnd_bounds sshthresh w h = elim (Bool-cases (H.float.less w sshthresh)) [
      | inl slow ↦ rw slow (min_double_bounds _ (R.plus_one w h))
      | inr avoid ↦ rw avoid (min_double_bounds _ (R.plus_inverse w h))
    ]

    next_cwnd-IsBounded :
        (sshthresh w : H.float.Double) (d : Dict PacketLocal)
        → IsBounded d w
        → IsBounded d (next_cwnd H sshthresh w)
    next_cwnd-IsBounded sshthresh w d b =
        let (low, high) = next_cwnd_bounds sshthresh w b.positive in
        record {
          capped = b.capped;
          nodup = b.nodup;
          keyed = b.keyed;
          positive = low;
          limited = high;
        }

    pub one-IsBounded :
        (w : H.float.Double) (d : Dict PacketLocal) → IsBounded d w → IsBounded d (H.float.of_nat 1)
    one-IsBounded w d b = record {
      capped = b.capped;
      nodup = b.nodup;
      keyed = b.keyed;
      positive = R.of_nat_mono 1 1 (omega arith) (omega arith);
      limited = R.of_nat_mono 1 1024 (omega arith) (omega arith);
    }

    pub carried-IsSound :
        (t t' : Transport H)
        → t'.in_flight ≡ t.in_flight
        → t'.cwnd.value ≡ t.cwnd.value
        → IsSound t
        → IsSound t'
    carried-IsSound t t' e f b = rw (e, f) b

    pub notify_sender-IsSound : (t : Transport H) → IsSound t → IsSound (notify_sender H t).0
    notify_sender-IsSound t b =
        carried-IsSound t (notify_sender H t).0 refl (value-notify_one t.cwnd) b

    pub signal_drained-IsSound : (t : Transport H) → IsSound t → IsSound (signal_drained H t).0
    unfolding signal_drained AsyncValue.set
    signal_drained-IsSound t b = elim (Bool-cases (is_drained H t)) [
      | inl e ↦ rw e b
      | inr e ↦ rw e b
    ]

    acknowledged-IsSound : (s : ℕ) (t : Transport H) → IsSound t → IsSound (acknowledged H s t)
    unfolding acknowledged AsyncValue.update
    acknowledged-IsSound s t b =
        next_cwnd-IsBounded t.sshthresh t.cwnd.value _
          (erase-IsBounded s t.in_flight t.cwnd.value b)

    pub ack_handler-IsSound : (s : ℕ) (t : Transport H) → IsSound t → IsSound (ack_handler H s t).0
    unfolding ack_handler
    ack_handler-IsSound s t b = elim (Bool-cases (contains s t.in_flight)) [
      | inl e ↦ rw e (
          signal_drained-IsSound (notify_sender H (acknowledged H s t)).0
            (notify_sender-IsSound (acknowledged H s t) (acknowledged-IsSound s t b)))
      | inr e ↦ rw e b
    ]

    send_admitted-IsSound :
        (p : Packet) (now : ℕ) (random : Option Bytes) (t : Transport H)
        → is_blocked H t ≡ false
        → IsSound t
        → IsSound (send_admitted H p now random t).0
    unfolding send_admitted
    send_admitted-IsSound p now random t free b =
        elim (Expected-cases (protect H random t (numbered H p t.sequence_counter))) [
          | inr (ec, e) ↦ rw (e, send_admitted) b
          | inl (q, e) ↦
              rw (e, send_admitted)
                (insert-IsBounded t.sequence_counter (record { send_time = now; packet = q })
                  t.in_flight t.cwnd.value
                  (protect-sequence random t (numbered H p t.sequence_counter) q e)
                  (omega (
                    arith,
                    length-insert-le t.sequence_counter (record { send_time = now; packet = q })
                        t.in_flight,
                    is_blocked-room t free,
                  ))
                  b)
        ]

    pub send_window-IsSound :
        (handler : ℕ) (p : Packet) (now : ℕ) (random : Option Bytes) (t : Transport H)
        → IsSound t
        → IsSound (send_window H handler p now random t).0
    unfolding send_window AsyncValue.wait
    send_window-IsSound handler p now random t b = elim (Bool-cases (is_blocked H t)) [
      | inl e ↦ rw e b
      | inr e ↦ rw e (send_admitted-IsSound p now random t e b)
    ]
