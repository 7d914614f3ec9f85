-- ===== src/Reorder/Complete.antt =====
-- The loop over any sequence of packets: late, early, repeated and foreign ones.
use file_hop_z.Base.{
  ℕ, zero, suc, ◌+◌, ◌≤◌, ◌<◌, ◌≡◌, refl, ◌⊎◌, inl, inr, Bool, true, false, List, [], ◌∷◌, ◌++◌,
  ◌&&◌, ◌||◌, arith, length, All, ltb, leb, ◌==◌, Bool-cases, Option-cases, ap, ap₂, ◌∙◌,
}
use file_hop_z.Base.Dict.{Dict, lookup}
use file_hop_z.Packet.{Packet, is_data}
use file_hop_z.Reorder.{
  Window, Chunk, packet_chunk, sequence_window_size, initial_window, accept, accept_all,
}
use file_hop_z.Reorder.Flush.{chunks}
use file_hop_z.Reorder.Order.{
  EndsAt, InOrder, Arrives, Seen, Accepted, accept-Accepted, length-le-range,
}

-- Every packet may arrive at the window that the packets before it left.
abbrev pub Orderly : (ℕ → Packet) → List Packet → Window → Type 0
Orderly sent [] w = Unit
Orderly sent (p ∷ ps) w = Arrives sent w p × Orderly sent ps (accept p w).0

-- A data packet numbered `s` is among the packets.
abbrev pub arrived : ℕ → List Packet → Bool
arrived s [] = false
arrived s (p ∷ ps) = (is_data p.header.type && p.header.sequence == s) || arrived s ps

pub chunks-append :
    (sent : ℕ → Packet) (from n m : ℕ)
    → chunks sent from n ++ chunks sent (from + n) m ≡ chunks sent from (n + m)
chunks-append sent from zero m = ap₂ (chunks sent) (omega arith) (omega arith)
chunks-append sent from (suc n) m =
    let count : suc n + m ≡ suc (n + m) = omega arith in
    let start : from + suc n ≡ from + 1 + n = omega arith in
    rw (count, start) (ap (◌∷◌ (packet_chunk (sent from))) (chunks-append sent (from + 1) n m))

-- What the loop made of a sequence of packets.
pub record Delivered (sent : ℕ → Packet) (ps : List Packet) (w : Window) (r : Window × List Chunk)
    (n : ℕ) : Type 0 where
  pub pushed : r.1 ≡ chunks sent w.expected n
  pub raised : r.0.expected ≡ w.expected + n
  pub invariant : InOrder sent r.0
  pub seen : (s : ℕ) → Seen w s → Seen r.0 s
  pub only : (s : ℕ) → Seen r.0 s → Seen w s ⊎ (arrived s ps ≡ true)
  pub heard : (s : ℕ) → arrived s ps ≡ true → s < w.expected + sequence_window_size → Seen r.0 s

Delivered-cons :
    (sent : ℕ → Packet) (p : Packet) (ps : List Packet) (w : Window) (r q : Window × List Chunk)
    (n m : ℕ)
    → Accepted sent p w r n
    → Delivered sent ps r.0 q m
    → Delivered sent (p ∷ ps) w (q.0, r.1 ++ q.1) (n + m)
Delivered-cons sent p ps w r q n m a d = record {
  pushed = rw (a.pushed, d.pushed, a.raised) (chunks-append sent w.expected n m);
  raised = omega (arith, a.raised, d.raised);
  invariant = d.invariant;
  seen = λ s h. d.seen s (a.seen s h);
  only = λ s h. ground (arith, d.only s h, a.only s);
  heard = λ s h b. elim (Bool-cases (arrived s ps)) [
    | inl later ↦ d.heard s later (omega (arith, a.raised))
    | inr now ↦ d.seen s (ground (arith, a.seen_self))
  ];
}

-- Packets arrive in any order, with repetitions and with other packets among them, at a window in
-- order. If each data packet is the one that was sent under its number, none has the number that is
-- 65536 past the expected one when it arrives, and the expected number stays so low that the end of
-- the window does not wrap, then: what the loop has pushed is the sent stream from the expected
-- number on without gap, repetition or exchange; the window is in order again; every number that
-- arrived within the initial window is delivered or waits, and what was delivered or waited still
-- is or does; and nothing is delivered or waits that was not at first and had not arrived.
pub accept_all-Delivered :
    (sent : ℕ → Packet) (ps : List Packet) (w : Window)
    → InOrder sent w
    → Orderly sent ps w
    → (n : ℕ) × Delivered sent ps w (accept_all ps w) n
unfolding accept_all
accept_all-Delivered sent [] w v o = (
  0,
  record {
    pushed = refl;
    raised = omega arith;
    invariant = v;
    seen = λ s h. h;
    only = λ s h. inl h;
    heard = λ s h b. cc;
  },
)
accept_all-Delivered sent (p ∷ ps) w v o =
    let (n, a) = accept-Accepted sent w p v o.0 in
    let (m, d) = accept_all-Delivered sent ps (accept p w).0 a.invariant o.1 in
    (n + m, Delivered-cons sent p ps w (accept p w) (accept_all ps (accept p w).0) n m a d)

-- Packets of a stream of `n` data packets numbered from 1; other packets may be among them.
abbrev pub Traffic : (ℕ → Packet) → ℕ → List Packet → Type 0
Traffic sent n = All λ p.
    is_data p.header.type ≡ true
    → (p ≡ sent p.header.sequence) × (1 ≤ p.header.sequence) × (p.header.sequence ≤ n)

abbrev pub SeenAtMost : ℕ → Window → Type 0
SeenAtMost n w = (s : ℕ) → Seen w s → s ≤ n

expected-le : (n : ℕ) (w : Window) → SeenAtMost n w → w.expected ≤ n + 1
expected-le n w b = elim (Bool-cases (ltb (n + 1) w.expected)) [
  | inl over ↦ omega (arith, b (n + 1) (inl (ground arith)))
  | inr under ↦ ground arith
]

Traffic-Arrives :
    (sent : ℕ → Packet) (n : ℕ) (p : Packet) (ps : List Packet) (w : Window)
    → n < sequence_window_size
    → 1 ≤ w.expected
    → SeenAtMost n w
    → Traffic sent n (p ∷ ps)
    → Arrives sent w p
Traffic-Arrives sent n p ps w short positive b t = record {
  genuine = λ d. (t.0 d).0;
  inside = λ d. omega (arith, (t.0 d).2);
  small = omega (arith, expected-le n w b);
}

Traffic-SeenAtMost :
    (sent : ℕ → Packet) (n m : ℕ) (p : Packet) (ps : List Packet) (w : Window)
    → Accepted sent p w (accept p w) m
    → SeenAtMost n w
    → Traffic sent n (p ∷ ps)
    → SeenAtMost n (accept p w).0
Traffic-SeenAtMost sent n m p ps w a b t s h = elim (a.only s h) [
  | inl old ↦ b s old
  | inr (d, same) ↦ omega (arith, (t.0 d).2)
]

pub Traffic-Orderly :
    (sent : ℕ → Packet) (n : ℕ) (ps : List Packet) (w : Window)
    → n < sequence_window_size
    → InOrder sent w
    → 1 ≤ w.expected
    → SeenAtMost n w
    → Traffic sent n ps
    → Orderly sent ps w
Traffic-Orderly sent n [] w short v positive b t = tt
Traffic-Orderly sent n (p ∷ ps) w short v positive b t =
    let arrives : Arrives sent w p = Traffic-Arrives sent n p ps w short positive b t in
    let (m, a) = accept-Accepted sent w p v arrives in
    (
      arrives,
      Traffic-Orderly sent n ps (accept p w).0 short a.invariant (omega (arith, a.raised))
          (Traffic-SeenAtMost sent n m p ps w a b t) t.1,
    )

Traffic-arrived :
    (sent : ℕ → Packet) (n s : ℕ) (ps : List Packet)
    → Traffic sent n ps
    → arrived s ps ≡ true
    → s ≤ n
Traffic-arrived sent n s [] t h = cc
Traffic-arrived sent n s (p ∷ ps) t h = ground (arith, Traffic-arrived sent n s ps t.1, t.0)

pub initial_window-InOrder : (sent : ℕ → Packet) → InOrder sent initial_window
unfolding lookup
initial_window-InOrder sent = record {
  nodup = tt;
  known = λ s p e. cc;
  ahead = λ s h. refl;
  within = λ s h. refl;
}

pub initial_window-SeenAtMost : (n : ℕ) → SeenAtMost n initial_window
unfolding lookup
initial_window-SeenAtMost n s (inl h) = omega arith
initial_window-SeenAtMost n s (inr h) = cc

nil_of_length : (d : Dict Packet) → length d ≤ 0 → d ≡ []
nil_of_length [] h = refl
nil_of_length (e ∷ d) h = absurd (omega arith)

module _ (sent : ℕ → Packet) (n : ℕ) (ps : List Packet) (short : n < sequence_window_size)
    (t : Traffic sent n ps) (all : (s : ℕ) → 1 ≤ s → s ≤ n → arrived s ps ≡ true)
    (r : Window × List Chunk) (m : ℕ) (d : Delivered sent ps initial_window r m) where
  final-SeenAtMost : SeenAtMost n r.0
  final-SeenAtMost s h = elim (d.only s h) [
    | inl old ↦ initial_window-SeenAtMost n s old
    | inr new ↦ Traffic-arrived sent n s ps t new
  ]

  final-expected : r.0.expected ≡ n + 1
  final-expected = elim (Bool-cases (leb r.0.expected n)) [
    | inl early ↦
        absurd
          (elim (d.heard r.0.expected (all r.0.expected (omega (arith, d.raised)) (ground arith))
            (ground arith)) [
              | inl below ↦ omega arith
              | inr held ↦ ground (arith, d.invariant.ahead r.0.expected)
            ])
    | inr late ↦ ground (arith, expected-le n r.0 final-SeenAtMost)
  ]

  final-EndsAt : EndsAt (r.0.expected + 1 + 0) r.0.buffer
  final-EndsAt s h = elim (Option-cases (lookup s r.0.buffer)) [
    | inl gone ↦ gone
    | inr (p, held) ↦
        absurd (omega (arith, final-expected, final-SeenAtMost s (inr (rw held refl))))
  ]

  final-buffer : r.0.buffer ≡ []
  final-buffer = nil_of_length r.0.buffer (
      length-le-range 0 (r.0.expected + 1) r.0.buffer d.invariant.nodup d.invariant.ahead
        final-EndsAt)

  final_lem : r ≡ (record { buffer = []; expected = n + 1 }, chunks sent 1 n)
  final_lem =
      let count : m ≡ n = omega (arith, d.raised, final-expected) in
      λ i. (
        record { buffer = final-buffer i; expected = final-expected i },
        (d.pushed ∙ ap (chunks sent 1) count) i,
      )

-- A stream of fewer than 65536 data packets, each of which arrives at least once, in any order,
-- with repetitions and with other packets in between, ends with an empty buffer and is delivered
-- whole and in order.
pub accept_all_complete :
    (sent : ℕ → Packet) (n : ℕ) (ps : List Packet)
    → n < sequence_window_size
    → Traffic sent n ps
    → ((s : ℕ) → 1 ≤ s → s ≤ n → arrived s ps ≡ true)
    → accept_all ps initial_window ≡ (record { buffer = []; expected = n + 1 }, chunks sent 1 n)
accept_all_complete sent n ps short t all =
    let orderly : Orderly sent ps initial_window =
      Traffic-Orderly sent n ps initial_window short (initial_window-InOrder sent) (omega arith)
        (initial_window-SeenAtMost n) t in
    let (m, d) =
      accept_all-Delivered sent ps initial_window (initial_window-InOrder sent) orderly in
    final_lem sent n ps short t all (accept_all ps initial_window) m d
