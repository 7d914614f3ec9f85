-- ===== src/Main/Port.antt =====
-- A port is read as it is printed.
use file_hop_z.Base.{
  ℕ, zero, suc, ◌+◌, ◌-◌, ◌*◌, ◌/◌, ◌%◌, ◌≤◌, ◌<◌, ◌≡◌, refl, Bool, true, false, some, [], ◌∷◌,
  ◌++◌, All, All-append, not, ltb, le→leb, Bool-cases, inl, inr, arith,
}
use file_hop_z.Base.Bytes.{Bytes}
use file_hop_z.Builder.Decimal.{digits, to_string}
use file_hop_z.FilePath.{is_empty_path}
use file_hop_z.Main.{is_digit, leading_digits, digits_value, port_of, read_port}

digits_value-append :
    (acc : ℕ) (xs ys : Bytes) → digits_value acc (xs ++ ys) ≡ digits_value (digits_value acc xs) ys
unfolding digits_value
digits_value-append acc [] ys = refl
digits_value-append acc (x ∷ xs) ys = digits_value-append (acc * 10 + (x - 48)) xs ys

digits_value-digits : (fuel v : ℕ) → v < fuel → digits_value 0 (digits fuel v) ≡ v
unfolding digits digits_value
digits_value-digits zero v h = absurd (omega arith)
digits_value-digits (suc fuel) v h = elim (Bool-cases (ltb v 10)) [
  | inl e ↦ rw e (omega arith)
  | inr e ↦
      let large : 10 ≤ v = ground arith in
      let front : digits_value 0 (digits fuel (v / 10)) ≡ v / 10 =
        digits_value-digits fuel (v / 10) (omega arith) in
      rw (e, digits_value-append 0 (digits fuel (v / 10)) ((48 + v % 10) ∷ []), front) (omega arith)
]

AreDigits-digits : (fuel v : ℕ) → All (λ c. is_digit c ≡ true) (digits fuel v)
unfolding digits
AreDigits-digits zero v = tt
AreDigits-digits (suc fuel) v = elim (Bool-cases (ltb v 10)) [
  | inl e ↦ rw e (ground arith, tt)
  | inr e ↦ rw e (
      All-append (λ c. is_digit c ≡ true) (digits fuel (v / 10)) ((48 + v % 10) ∷ [])
        (AreDigits-digits fuel (v / 10)) (ground arith, tt))
]

-- A text that does not go on with a digit.
abbrev pub starts_no_digit : Bytes → Bool
starts_no_digit [] = true
starts_no_digit (c ∷ cs) = not (is_digit c)

leading_digits-append :
    (xs rest : Bytes)
    → All (λ c. is_digit c ≡ true) xs
    → starts_no_digit rest ≡ true
    → leading_digits (xs ++ rest) ≡ xs
unfolding leading_digits
leading_digits-append [] [] h n = refl
leading_digits-append [] (c ∷ cs) h n = ground arith
leading_digits-append (x ∷ xs) rest h n = rw (h.0, leading_digits-append xs rest h.1 n) refl

append_some : (xs : Bytes) (y : ℕ) → is_empty_path (xs ++ (y ∷ [])) ≡ false
append_some [] y = refl
append_some (x ∷ xs) y = refl

digits_some : (fuel v : ℕ) → is_empty_path (digits (suc fuel) v) ≡ false
unfolding digits
digits_some fuel v = elim (Bool-cases (ltb v 10)) [
  | inl e ↦ rw e refl
  | inr e ↦ rw e (append_some (digits fuel (v / 10)) (48 + v % 10))
]

port_of_value :
    (text : Bytes) (v : ℕ)
    → is_empty_path text ≡ false
    → digits_value 0 text ≡ v
    → v ≤ 65535
    → port_of text ≡ some v
port_of_value [] v some_digit h small = absurd (ground arith)
port_of_value (c ∷ cs) v some_digit h small = rw (h, le→leb v 65535 small) refl

-- A decimal numeral of at most 65535 is read as that port, whatever text follows it, as long as that
-- does not begin with a digit.
pub read_port-to_string :
    (v : ℕ) (rest : Bytes)
    → v ≤ 65535
    → starts_no_digit rest ≡ true
    → read_port (to_string v ++ rest) ≡ some v
unfolding read_port to_string
read_port-to_string v rest small n =
    rw (leading_digits-append (digits (suc v) v) rest (AreDigits-digits (suc v) v) n) (
      port_of_value (digits (suc v) v) v (digits_some v v)
        (digits_value-digits (suc v) v (omega arith)) small)
