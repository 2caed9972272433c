-- ===== src/Doubles.antt =====
-- The arithmetic on `double` that the program uses, as a parameter: no value is ever looked into.
pub mod Fractions
use cache_lens.Prelude.{ℕ, ◌*◌, ◌^◌, ◌≤◌, ◌<◌, ◌≡◌, Bool, true, false, if◌then◌else◌}

pub record Doubles : Type 1 where
  pub Double : Type 0
  -- `static_cast<double>` of a uint64_t, the literal `n / 10 ^ k`, and `static_cast<uint64_t>`
  pub of_nat : ℕ → Double
  pub decimal : ℕ → ℕ → Double
  pub to_nat : Double → ℕ
  pub add : Double → Double → Double
  pub sub : Double → Double → Double
  pub mul : Double → Double → Double
  pub div : Double → Double → Double
  pub sqrt : Double → Double
  pub less : Double → Double → Bool
  pub leq : Double → Double → Bool

-- What is relied on of IEEE 754: integers below 2 ^ 53 are exact, a quotient and a literal are
-- rounded to the nearest, so that rounding never turns an order round.
pub record IsRounded (d : Doubles) : Type 0 where
  pub quotient_not_less :
      (a b n k : ℕ)
      → a < 2 ^ 53
      → b < 2 ^ 53
      → 0 < b
      → n * b ≤ a * 10 ^ k
      → d.less (d.div (d.of_nat a) (d.of_nat b)) (d.decimal n k) ≡ false
