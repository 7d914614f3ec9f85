-- ===== src/Base/Bytes.antt =====
-- Bytes, and the little-endian integers that `memcpy` moves on the supported platforms.
use Prim.Native.Nat.{ℕ, zero, suc, ◌+◌, ◌*◌, ◌/◌, ◌%◌, ◌^◌, ◌<◌}
use Prim.Native.Char.{code}
use Prim.Native.String.{String}
use mathlib.Core.Path.{◌≡◌}
use mathlib.Core.List.{List, [], ◌∷◌}
use native.Mathlib.Omega.{arith}

abbrev pub Bytes : Type 0
Bytes = List ℕ

abbrev pub u16_mod : ℕ
u16_mod = 2 ^ 16

abbrev pub u32_mod : ℕ
u32_mod = 2 ^ 32

abbrev pub u64_mod : ℕ
u64_mod = 2 ^ 64

-- The code points of an ASCII text: its bytes.
abbrev pub codes : String → Bytes
codes String.[] = []
codes (String.◌∷◌ c s) = code c ∷ codes s

-- The object representation of an unsigned integer of `n` bytes.
abbrev pub to_le : ℕ → ℕ → Bytes
to_le zero v = []
to_le (suc n) v = v % 256 ∷ to_le n (v / 256)

abbrev pub of_le : Bytes → ℕ
of_le [] = 0
of_le (b ∷ bs) = b + 256 * of_le bs

-- Two, four and eight bytes hold every value of their width.
pub of_le-to_le_u16 : (v : ℕ) → v < u16_mod → of_le (to_le 2 v) ≡ v
of_le-to_le_u16 v h = omega arith

pub of_le-to_le_u32 : (v : ℕ) → v < u32_mod → of_le (to_le 4 v) ≡ v
of_le-to_le_u32 v h = omega arith

pub of_le-to_le_u64 : (v : ℕ) → v < u64_mod → of_le (to_le 8 v) ≡ v
of_le-to_le_u64 v h = omega arith
