-- ===== src/Host.antt =====
-- What the transport takes from outside the repository: floating point numbers, OpenSSL, the
-- endpoints of Boost.Asio and its error value for a cancelled operation.
pub mod FixedPoint
use file_hop_z.Base.{ℕ, ◌≤◌, ◌≡◌, Bool, true, false, if◌then◌else◌}
use file_hop_z.Errors.{BoostError, failed}
use file_hop_z.Crypto.Api.{OpenSsl}

-- `double` with the operations that the congestion control uses. `less` is `<` and `at_most` is
-- `<=`; `truncate` is the conversion to `std::size_t`.
pub record Float : Type 1 where
  pub Double : Type 0
  pub of_nat : ℕ → Double
  pub plus : Double → Double → Double
  pub over : Double → Double → Double
  pub less : Double → Double → Bool
  pub at_most : Double → Double → Bool
  pub truncate : Double → ℕ

module _ (F : Float) where
  open F use {Double}

  -- `std::min` and `std::max`, as the standard defines them by `<`.
  abbrev pub min_double : Double → Double → Double
  min_double a b = if F.less b a then b else a

  abbrev pub max_double : Double → Double → Double
  max_double a b = if F.less a b then b else a

  -- Facts of IEEE arithmetic with rounding to nearest, on numbers from 1 on and on small integers.
  pub record IsRounding : Type 0 where
    pub of_nat_mono : (j k : ℕ) → j ≤ k → k ≤ 1024 → F.at_most (F.of_nat j) (F.of_nat k) ≡ true
    pub plus_one :
        (x : Double)
        → F.at_most (F.of_nat 1) x ≡ true
        → F.at_most (F.of_nat 1) (F.plus x (F.of_nat 1)) ≡ true
    pub plus_inverse :
        (x : Double)
        → F.at_most (F.of_nat 1) x ≡ true
        → F.at_most (F.of_nat 1) (F.plus x (F.over (F.of_nat 1) x)) ≡ true
    pub at_most_of_not_less :
        (x : Double) (k : ℕ)
        → F.at_most (F.of_nat 1) x ≡ true
        → F.less (F.of_nat k) x ≡ false
        → F.at_most x (F.of_nat k) ≡ true
    pub truncate_le : (x : Double) (k : ℕ) → F.at_most x (F.of_nat k) ≡ true → F.truncate x ≤ k
    pub truncate_pos : (x : Double) → F.at_most (F.of_nat 1) x ≡ true → 1 ≤ F.truncate x

pub record Host : Type 1 where
  pub float : Float
  pub ssl : OpenSsl
  pub Endpoint : Type 0
  pub port : Endpoint → ℕ
  pub same_endpoint : Endpoint → Endpoint → Bool
  pub operation_aborted : BoostError
