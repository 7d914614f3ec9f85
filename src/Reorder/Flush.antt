-- ===== src/Reorder/Flush.antt =====
-- The inner loop stops because the expected packet is missing, and pushes consecutive packets.
use file_hop_z.Base.{
  ℕ, zero, suc, ◌+◌, ◌≤◌, ◌<◌, ◌≡◌, refl, ◌∙◌, inl, inr, true, none, some, List, [], ◌∷◌, ◌++◌,
  arith, length, Option-cases, if◌then◌else◌, ltb, sym, ap,
}
use mathlib.Core.List.{append_assoc, append-nil}
use native.Mathlib.Nat.{mod-eq_of_lt}
use file_hop_z.Base.Bytes.{u32_mod}
use file_hop_z.Base.Dict.{
  Dict, lookup, contains, erase, NodupKeys, lookup-erase, erase-NodupKeys, length-erase_found,
}
use file_hop_z.Packet.{Packet}
use file_hop_z.Reorder.{Window, Chunk, packet_chunk, flush}

-- The chunks of the packets numbered `from`, `from + 1`, …, `from + n - 1`.
abbrev pub chunks : (ℕ → Packet) → ℕ → ℕ → List Chunk
chunks sent from zero = []
chunks sent from (suc n) = packet_chunk (sent from) ∷ chunks sent (from + 1) n

-- Every buffered packet is the one that was sent under its number.
abbrev pub IsSent : (ℕ → Packet) → Dict Packet → Type 0
IsSent sent d = (s : ℕ) (p : Packet) → lookup s d ≡ some p → p ≡ sent s

-- No number below `lo` is buffered.
abbrev pub StartsAt : ℕ → Dict Packet → Type 0
StartsAt lo d = (s : ℕ) → s < lo → lookup s d ≡ none

-- What the inner loop yields on a window: `n` packets were pushed in order behind `out`, the
-- expected number rose by `n`, that packet is missing, and the buffer lost just the pushed ones.
pub record Flushed (sent : ℕ → Packet) (w : Window) (out : List Chunk) (r : Window × List Chunk)
    (n : ℕ) : Type 0 where
  pub pushed : r.1 ≡ out ++ chunks sent w.expected n
  pub raised : r.0.expected ≡ w.expected + n
  pub missing : lookup r.0.expected r.0.buffer ≡ none
  pub taken : (s : ℕ) → w.expected ≤ s → s < w.expected + n → contains s w.buffer ≡ true
  pub nodup : NodupKeys r.0.buffer
  pub remains :
      (s : ℕ) → lookup s r.0.buffer ≡ (if ltb s (w.expected + n) then none else lookup s w.buffer)

-- The window after one packet was pushed.
abbrev advance : Window → Window
advance w = record { buffer = erase w.expected w.buffer; expected = w.expected + 1 }

flush_step :
    (fuel : ℕ) (w : Window) (out : List Chunk) (p : Packet)
    → lookup w.expected w.buffer ≡ some p
    → w.expected + 1 < u32_mod
    → flush (suc fuel) w out ≡ flush fuel (advance w) (out ++ (packet_chunk p ∷ []))
unfolding flush
flush_step fuel w out p found small = rw (found, flush, mod-eq_of_lt small)

flush_stop :
    (fuel : ℕ) (w : Window) (out : List Chunk)
    → lookup w.expected w.buffer ≡ none
    → flush fuel w out ≡ (w, out)
unfolding flush
flush_stop zero w out e = refl
flush_stop (suc fuel) w out e = rw (e, flush)

lookup_of_empty : (k : ℕ) (d : Dict Packet) → length d ≤ 0 → lookup k d ≡ none
unfolding lookup
lookup_of_empty k [] h = refl
lookup_of_empty k (e ∷ d) h = absurd (omega arith)

module _ (sent : ℕ → Packet) where
  Flushed-stop :
      (w : Window) (out : List Chunk)
      → NodupKeys w.buffer
      → StartsAt w.expected w.buffer
      → lookup w.expected w.buffer ≡ none
      → Flushed sent w out (w, out) 0
  Flushed-stop w out u low e = record {
    pushed = sym (append-nil out);
    raised = omega arith;
    missing = e;
    taken = λ s a b. absurd (omega arith);
    nodup = u;
    remains = λ s. ground (arith, low s);
  }

  Flushed-advance :
      (w : Window) (out : List Chunk) (p : Packet) (r : Window × List Chunk) (n : ℕ)
      → NodupKeys w.buffer
      → lookup w.expected w.buffer ≡ some p
      → p ≡ sent w.expected
      → Flushed sent (advance w) (out ++ (packet_chunk p ∷ [])) r n
      → Flushed sent w out r (suc n)
  Flushed-advance w out p r n u found same f = record {
    pushed =
        f.pushed
        ∙ append_assoc out _ _
        ∙ ap (λ q. out ++ (packet_chunk q ∷ chunks sent (w.expected + 1) n)) same;
    raised = omega (arith, f.raised);
    missing = f.missing;
    taken = λ s a b. ground (arith, found, f.taken s, lookup-erase s w.expected w.buffer u);
    nodup = f.nodup;
    remains = λ s. ground (arith, f.remains s, lookup-erase s w.expected w.buffer u);
  }

  IsSent-advance :
      (w : Window) → NodupKeys w.buffer → IsSent sent w.buffer → IsSent sent (advance w).buffer
  IsSent-advance w u known s q e = ground (arith, known s q, lookup-erase s w.expected w.buffer u)

  StartsAt-advance :
      (w : Window)
      → NodupKeys w.buffer
      → StartsAt w.expected w.buffer
      → StartsAt (advance w).expected (advance w).buffer
  StartsAt-advance w u low s h = ground (arith, low s, lookup-erase s w.expected w.buffer u)

  -- With as much fuel as there are packets in the buffer the inner loop ends by its own test.
  pub flush-Flushed :
      (fuel : ℕ) (w : Window) (out : List Chunk)
      → NodupKeys w.buffer
      → IsSent sent w.buffer
      → StartsAt w.expected w.buffer
      → length w.buffer ≤ fuel
      → w.expected + fuel < u32_mod
      → (n : ℕ) × (n ≤ length w.buffer) × Flushed sent w out (flush fuel w out) n
  flush-Flushed zero w out u known low enough small =
      let gone : lookup w.expected w.buffer ≡ none = lookup_of_empty w.expected w.buffer enough in
      rw (flush_stop zero w out gone) (0, omega arith, Flushed-stop w out u low gone)
  flush-Flushed (suc fuel) w out u known low enough small =
      elim (Option-cases (lookup w.expected w.buffer)) [
        | inl gone ↦
            rw (flush_stop (suc fuel) w out gone) (0, omega arith, Flushed-stop w out u low gone)
        | inr (p, found) ↦
            let shorter : length (erase w.expected w.buffer) + 1 ≡ length w.buffer =
              length-erase_found w.expected w.buffer (rw found refl) in
            let (n, bound, f) =
              flush-Flushed fuel (advance w) (out ++ (packet_chunk p ∷ []))
                (erase-NodupKeys w.expected w.buffer u) (IsSent-advance w u known)
                (StartsAt-advance w u low) (omega arith) (omega arith) in
            rw (flush_step fuel w out p found (omega arith))
              (suc n, omega arith, Flushed-advance w out p _ n u found (known w.expected p found) f)
      ]
