-- ===== src/Builder/Decimal.antt =====
-- Decimal numerals, as `std::to_string` of src/utils/file_builder.cpp prints them.
use file_hop_z.Base.{ℕ, zero, suc, ◌+◌, ◌/◌, ◌%◌, [], ◌∷◌, ◌++◌, ltb, if◌then◌else◌}
use file_hop_z.Base.Bytes.{Bytes}

-- The digits, the last one last; one more unit of fuel than the number is enough.
unfoldable pub digits : ℕ → ℕ → Bytes
digits zero v = []
digits (suc fuel) v =
    let front = digits fuel (v / 10) in
    if ltb v 10 then (48 + v) ∷ [] else front ++ ((48 + v % 10) ∷ [])

unfoldable pub to_string : ℕ → Bytes
unfolding digits
to_string v = digits (suc v) v
