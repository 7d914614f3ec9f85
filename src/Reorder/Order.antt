-- ===== src/Reorder/Order.antt =====
-- `accept` delivers the stream in order: the invariant of the loop, and one turn of it.
use file_hop_z.Base.{
  ℕ, zero, suc, ◌+◌, ◌%◌, ◌≤◌, ◌<◌, ◌≡◌, refl, ◌≢◌, ◌⊎◌, inl, inr, true, false, none, List, [], ◌∷◌,
  arith, length, ltb, ◌==◌, if◌then◌else◌, Bool-cases,
}
use native.Mathlib.Nat.{mod-eq_of_lt}
use file_hop_z.Base.Bytes.{u32_mod}
use file_hop_z.Base.Dict.{
  Dict, lookup, contains, erase, insert, NodupKeys, lookup-insert, lookup-erase, insert-NodupKeys,
  erase-NodupKeys, length-insert_new, length-le-erase, lookup_head,
}
use file_hop_z.Packet.{Packet, is_data}
use file_hop_z.Reorder.{Window, Chunk, sequence_window_size, cap_buffer, buffer_packet, accept}
use file_hop_z.Reorder.Flush.{chunks, IsSent, StartsAt, Flushed, flush-Flushed}

-- No number from `hi` on is buffered.
abbrev pub EndsAt : ℕ → Dict Packet → Type 0
EndsAt hi d = (s : ℕ) → hi ≤ s → lookup s d ≡ none

-- The loop's invariant: between two turns the buffer holds packets that were sent, each once, all
-- ahead of the expected number and within the window.
pub record InOrder (sent : ℕ → Packet) (w : Window) : Type 0 where
  pub nodup : NodupKeys w.buffer
  pub known : IsSent sent w.buffer
  pub ahead : StartsAt (w.expected + 1) w.buffer
  pub within : EndsAt (w.expected + sequence_window_size) w.buffer

-- A packet that the loop may meet: a data packet is the one that was sent under its number, it
-- is not the last number of the window, and the numbers are not about to wrap.
pub record Arrives (sent : ℕ → Packet) (w : Window) (p : Packet) : Type 0 where
  pub genuine : is_data p.header.type ≡ true → p ≡ sent p.header.sequence
  pub inside : is_data p.header.type ≡ true → p.header.sequence ≢ w.expected + sequence_window_size
  pub small : w.expected + sequence_window_size < u32_mod

-- A number that was delivered or waits in the buffer.
abbrev pub Seen : Window → ℕ → Type 0
Seen w s = (s < w.expected) ⊎ (contains s w.buffer ≡ true)

-- One turn pushed the next `n` chunks in order, kept the invariant and forgot no number; a data
-- packet within the window is seen after it, and nothing else is new.
pub record Accepted (sent : ℕ → Packet) (p : Packet) (w : Window) (r : Window × List Chunk) (n : ℕ)
    : Type 0 where
  pub pushed : r.1 ≡ chunks sent w.expected n
  pub raised : r.0.expected ≡ w.expected + n
  pub invariant : InOrder sent r.0
  pub seen : (s : ℕ) → Seen w s → Seen r.0 s
  pub only :
      (s : ℕ) → Seen r.0 s → Seen w s ⊎ ((is_data p.header.type ≡ true) × (p.header.sequence ≡ s))
  pub seen_self :
      is_data p.header.type ≡ true
      → p.header.sequence < w.expected + sequence_window_size
      → Seen r.0 p.header.sequence

-- Distinct numbers between `lo` and `lo + n` are at most `n`.
pub length-le-range :
    (n lo : ℕ) (d : Dict Packet) → NodupKeys d → StartsAt lo d → EndsAt (lo + n) d → length d ≤ n
length-le-range zero lo [] u low high = omega arith
length-le-range zero lo ((k, p) ∷ d) u low high = ground (arith, low k, high k, lookup_head k p d)
length-le-range (suc n) lo d u low high = omega (
  arith,
  length-le-erase lo d,
  length-le-range n (lo + 1) (erase lo d) (erase-NodupKeys lo d u)
      (λ s h. ground (arith, low s, lookup-erase s lo d u))
      (λ s h. ground (arith, high s, lookup-erase s lo d u)),
)

module _ (sent : ℕ → Packet) (w : Window) (v : InOrder sent w) where
  pub length-buffer : length w.buffer + 1 ≤ sequence_window_size
  length-buffer = omega (
    arith,
    length-le-range 65535 (w.expected + 1) w.buffer v.nodup v.ahead
        (λ s h. v.within s (omega arith)),
  )

  cap_buffer_idle : (p : Packet) → cap_buffer p w ≡ w
  cap_buffer_idle p = ground (arith, length-buffer)

  -- A turn that drops its packet.
  Accepted-dropped :
      (p : Packet)
      → (is_data p.header.type ≡ true
          → p.header.sequence < w.expected + sequence_window_size
          → Seen w p.header.sequence)
      → Accepted sent p w (w, []) 0
  Accepted-dropped p old = record {
    pushed = refl;
    raised = omega arith;
    invariant = v;
    seen = λ s h. h;
    only = λ s h. inl h;
    seen_self = old;
  }

  module _ (p : Packet) (real : is_data p.header.type ≡ true) (genuine : p ≡ sent p.header.sequence)
      (small : w.expected + sequence_window_size < u32_mod) (ahead : w.expected ≤ p.header.sequence)
      (inside : p.header.sequence < w.expected + sequence_window_size)
      (fresh : contains p.header.sequence w.buffer ≡ false) where
    abbrev filled : Window
    filled = record w { buffer = insert p.header.sequence p w.buffer }

    filled-IsSent : IsSent sent filled.buffer
    filled-IsSent s q e = ground (arith, v.known s q, lookup-insert s p.header.sequence p w.buffer)

    filled-StartsAt : StartsAt w.expected filled.buffer
    filled-StartsAt s h = ground (arith, v.ahead s, lookup-insert s p.header.sequence p w.buffer)

    filled-EndsAt : EndsAt (w.expected + sequence_window_size) filled.buffer
    filled-EndsAt s h = ground (arith, v.within s, lookup-insert s p.header.sequence p w.buffer)

    Seen-filled : (s : ℕ) → Seen w s → Seen filled s
    Seen-filled s h = ground (arith, lookup-insert s p.header.sequence p w.buffer)

    Seen-filled_self : Seen filled p.header.sequence
    Seen-filled_self =
        inr (ground (arith, lookup-insert p.header.sequence p.header.sequence p w.buffer))

    Seen-Flushed :
        (r : Window × List Chunk) (n : ℕ)
        → Flushed sent filled [] r n
        → (s : ℕ) → Seen filled s
        → Seen r.0 s
    Seen-Flushed r n f s h = elim (Bool-cases (ltb s (w.expected + n))) [
      | inl below ↦ inl (ground (arith, f.raised))
      | inr above ↦ inr (ground (arith, f.remains s, f.raised))
    ]

    Flushed-Seen :
        (r : Window × List Chunk) (n : ℕ)
        → Flushed sent filled [] r n
        → (s : ℕ) → Seen r.0 s
        → Seen filled s
    Flushed-Seen r n f s (inl below) = elim (Bool-cases (ltb s w.expected)) [
      | inl old ↦ inl (ground arith)
      | inr new ↦ inr (f.taken s (ground arith) (ground (arith, f.raised)))
    ]
    Flushed-Seen r n f s (inr held) = inr (ground (arith, f.remains s))

    Seen-unfilled :
        (s : ℕ)
        → Seen filled s
        → Seen w s ⊎ ((is_data p.header.type ≡ true) × (p.header.sequence ≡ s))
    Seen-unfilled s (inl below) = inl (inl below)
    Seen-unfilled s (inr held) = elim (Bool-cases (p.header.sequence == s)) [
      | inl same ↦ inr (real, ground arith)
      | inr other ↦ inl (inr (ground (arith, lookup-insert s p.header.sequence p w.buffer)))
    ]

    Accepted-Flushed :
        (r : Window × List Chunk) (n : ℕ) → Flushed sent filled [] r n → Accepted sent p w r n
    Accepted-Flushed r n f = record {
      pushed = f.pushed;
      raised = f.raised;
      invariant = record {
        nodup = f.nodup;
        known = λ s q e. ground (arith, f.remains s, filled-IsSent s q);
        ahead = λ s h. ground (arith, f.remains s, f.raised, f.missing);
        within = λ s h. ground (arith, f.remains s, f.raised, filled-EndsAt s);
      };
      seen = λ s h. Seen-Flushed r n f s (Seen-filled s h);
      only = λ s h. Seen-unfilled s (Flushed-Seen r n f s h);
      seen_self = λ d b. Seen-Flushed r n f p.header.sequence Seen-filled_self;
    }

    pub buffer_packet-Accepted : (n : ℕ) × Accepted sent p w (buffer_packet p w) n
    unfolding buffer_packet
    buffer_packet-Accepted =
        let bound : length filled.buffer ≤ sequence_window_size =
          omega (arith, length-buffer, length-insert_new p.header.sequence p w.buffer fresh) in
        let (n, _, f) =
          flush-Flushed sent (length filled.buffer) filled []
            (insert-NodupKeys p.header.sequence p w.buffer v.nodup) filled-IsSent filled-StartsAt
            (omega arith) (omega arith) in
        (n, Accepted-Flushed _ n f)

module _ (sent : ℕ → Packet) (w : Window) (p : Packet) (v : InOrder sent w) (a : Arrives sent w p)
    (real : is_data p.header.type ≡ true) where
  accept_new-Accepted :
      w.expected ≤ p.header.sequence
      → p.header.sequence < w.expected + sequence_window_size
      → (n : ℕ) × Accepted sent p w
          (if contains p.header.sequence w.buffer
            then (w, [])
            else buffer_packet p (cap_buffer p w))
          n
  accept_new-Accepted ahead inside = elim (Bool-cases (contains p.header.sequence w.buffer)) [
    | inl held ↦ rw held (0, Accepted-dropped sent w v p (λ d b. inr held))
    | inr fresh ↦
        rw (fresh, cap_buffer_idle sent w v p)
          (buffer_packet-Accepted sent w v p real (a.genuine real) a.small ahead inside fresh)
  ]

  accept_data-Accepted :
      (n : ℕ) × Accepted sent p w
        (if ltb p.header.sequence w.expected
          then (w, [])
          else if ltb ((w.expected + sequence_window_size) % u32_mod) p.header.sequence
          then (w, [])
          else if contains p.header.sequence w.buffer
          then (w, [])
          else buffer_packet p (cap_buffer p w))
        n
  accept_data-Accepted = elim (Bool-cases (ltb p.header.sequence w.expected)) [
    | inl old ↦ rw old (0, Accepted-dropped sent w v p (λ d b. inl (ground arith)))
    | inr recent ↦
        rw (recent, mod-eq_of_lt a.small)
          (elim (Bool-cases (ltb (w.expected + sequence_window_size) p.header.sequence)) [
            | inl far ↦ rw far (0, Accepted-dropped sent w v p (λ d b. absurd (ground arith)))
            | inr near ↦
                rw near (accept_new-Accepted (ground arith) (ground (arith, a.inside real)))
          ])
  ]

-- One turn of the loop on a packet that may arrive pushes the next chunks in order, keeps the
-- invariant and forgets no number, whichever branch it takes.
pub accept-Accepted :
    (sent : ℕ → Packet) (w : Window) (p : Packet)
    → InOrder sent w
    → Arrives sent w p
    → (n : ℕ) × Accepted sent p w (accept p w) n
unfolding accept
accept-Accepted sent w p v a = elim (Bool-cases (is_data p.header.type)) [
  | inr other ↦ rw other (0, Accepted-dropped sent w v p (λ d. cc))
  | inl real ↦ rw real (accept_data-Accepted sent w p v a real)
]
