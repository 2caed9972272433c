-- ===== src/Doubles/Fractions.antt =====
-- Fractions of natural numbers in place of doubles, for examples: exact where no difference or root
-- is taken.
use cache_lens.Prelude.{ℕ, ◌+◌, ◌-◌, ◌*◌, ◌/◌, ◌^◌, ltb, leb, ltb_of_le, arith}
use cache_lens.Doubles.{Doubles, IsRounded}

abbrev pub fractions : Doubles
fractions = record {
  Double = ℕ × ℕ;
  of_nat = λ n. (n, 1);
  decimal = λ n k. (n, 10 ^ k);
  to_nat = λ x. x.0 / x.1;
  add = λ x y. (x.0 * y.1 + y.0 * x.1, x.1 * y.1);
  sub = λ x y. (x.0 * y.1 - y.0 * x.1, x.1 * y.1);
  mul = λ x y. (x.0 * y.0, x.1 * y.1);
  div = λ x y. (x.0 * y.1, x.1 * y.0);
  sqrt = λ x. x;
  less = λ x y. ltb (x.0 * y.1) (y.0 * x.1);
  leq = λ x y. leb (x.0 * y.1) (y.0 * x.1);
}

pub fractions-IsRounded : IsRounded fractions
fractions-IsRounded = record {
  quotient_not_less = λ a b n k sa sb pos h. ltb_of_le (a * 1 * 10 ^ k) (n * (1 * b)) (omega arith);
}
