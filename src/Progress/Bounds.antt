-- ===== src/Progress/Bounds.antt =====
-- The progress that is shown is the true percentage, never above 100 and never falling.
use native.Mathlib.Nat.{div-lt_iff_lt-mul}
use file_hop_z.Base.{ℕ, ◌+◌, ◌*◌, ◌/◌, ◌%◌, ◌≤◌, ◌<◌, ◌≡◌, ◌≢◌, refl, false, ◌==◌, arith, max}
use file_hop_z.Base.Bytes.{u64_mod}
use file_hop_z.Progress.{Progress, percentage, print_progress}

percentage_le : (transferred total : ℕ) → percentage transferred total ≤ 100
unfolding percentage
percentage_le transferred total = ground arith

-- A part of the total is at most a hundred percent.
percent_le : (part total : ℕ) → part ≤ total → 0 < total → part * 100 / total ≤ 100
percent_le part total le pos =
    let lt : part * 100 / total < 101 = (div-lt_iff_lt-mul pos).1 (omega (arith, le, pos)) in
    omega (arith, lt)

percentage_true :
    (part total : ℕ)
    → part ≤ total
    → 0 < total
    → total * 100 < u64_mod
    → percentage part total ≡ part * 100 / total
unfolding percentage
percentage_true part total le pos small =
    let whole : (part * 100 % u64_mod) ≡ part * 100 = omega (arith, le, small) in
    let top : part * 100 / total ≤ 100 = percent_le part total le pos in
    rw whole (ground (arith, top))

-- As long as no more than the announced total is transferred, and a hundred times the total fits
-- into 64 bits, the bytes are counted without wrap-around, and the percentage shown is the largest
-- of the one shown before and the true one.
pub print_progress_true :
    (n : ℕ) (p : Progress)
    → p.bytes_transferred + n ≤ p.bytes_to_transfer
    → p.bytes_to_transfer * 100 < u64_mod
    → p.bytes_to_transfer ≢ 0
    → ((print_progress n p).bytes_transferred ≡ p.bytes_transferred + n)
      × ((print_progress n p).last_progress
          ≡ max p.last_progress ((p.bytes_transferred + n) * 100 / p.bytes_to_transfer))
unfolding print_progress
print_progress_true n p fits small some_bytes =
    let pos : 0 < p.bytes_to_transfer = omega arith in
    let zero_total : (p.bytes_to_transfer == 0) ≡ false = ground arith in
    let sum : ((p.bytes_transferred + n) % u64_mod) ≡ p.bytes_transferred + n =
      omega (arith, fits, small) in
    let shown : percentage (p.bytes_transferred + n) p.bytes_to_transfer
        ≡ (p.bytes_transferred + n) * 100 / p.bytes_to_transfer =
      percentage_true (p.bytes_transferred + n) p.bytes_to_transfer fits pos small in
    rw (zero_total, sum, shown) (refl, ground arith)
