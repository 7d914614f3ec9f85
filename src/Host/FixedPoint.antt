-- ===== src/Host/FixedPoint.antt =====
-- Numbers in thousandths as a stand-in for `double`, and a host made of stand-ins.
use file_hop_z.Base.{ℕ, ◌+◌, ◌*◌, ◌/◌, arith, ltb, leb, ◌==◌}
use file_hop_z.Errors.{system_category}
use file_hop_z.Crypto.Toy.{toy_ssl}
use file_hop_z.Host.{Float, IsRounding, Host}

abbrev pub fixed_point : Float
fixed_point = record {
  Double = ℕ;
  of_nat = λ k. 1000 * k;
  plus = λ a b. a + b;
  over = λ a b. 1000 * a / b;
  less = ltb;
  at_most = leb;
  truncate = λ x. x / 1000;
}

pub fixed_point-IsRounding : IsRounding fixed_point
fixed_point-IsRounding = record {
  of_nat_mono = λ j k h b. ground arith;
  plus_one = λ x h. ground arith;
  plus_inverse = λ x h. ground arith;
  at_most_of_not_less = λ x k h l. ground arith;
  truncate_le = λ x k h. ground arith;
  truncate_pos = λ x h. ground arith;
}

-- An endpoint is its port.
abbrev pub toy_host : Host
toy_host = record {
  float = fixed_point;
  ssl = toy_ssl;
  Endpoint = ℕ;
  port = λ e. e;
  same_endpoint = ◌==◌;
  operation_aborted = record { value = 125; category = system_category };
}
