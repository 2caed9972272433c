-- ===== src/Prime/Divisors.antt =====
-- Primes, and divisors that come in pairs.
use native.Mathlib.Nat.{div-add-mod, mul-mod_right, mul-mod_left, mul_assoc}
use cache_lens.Prelude.{
  ℕ, zero, suc, ◌+◌, ◌*◌, ◌/◌, ◌%◌, ◌≤◌, ◌<◌, ◌≡◌, ◌≢◌, ap, ◌∙◌, subst, inl, inr, arith, ltb,
  ltb-false, ◌==◌, ==_iff, Bool-cases,
}

-- At least 2, and with no divisor between 1 and itself.
abbrev pub IsPrime : ℕ → Type 0
IsPrime v = (2 ≤ v) × ((d : ℕ) → 2 ≤ d → d < v → v % d ≢ 0)

abbrev pub NoneBelow : ℕ → ℕ → Type 0
NoneBelow i v = (d : ℕ) → 2 ≤ d → d < i → v % d ≢ 0

quotient : (v d : ℕ) → v % d ≡ 0 → v ≡ d * (v / d)
quotient v d h = omega (arith, div-add-mod v d)

-- The other factor of a proper divisor is one too.
cofactor : (v d q : ℕ) → v ≡ d * q → 2 ≤ d → d < v → (2 ≤ q) × (q < v) × (v % q ≡ 0)
cofactor v d zero e two below = absurd (grind arith)
cofactor v d (suc zero) e two below = absurd (grind arith)
cofactor v d (suc (suc q)) e two below =
    (omega arith, grind arith, ap (λ (t : ℕ). t % suc (suc q)) e ∙ mul-mod_left d (suc (suc q)))

pub mul_mono : (i d q : ℕ) → i ≤ d → i ≤ q → i * i ≤ d * q
mul_mono i d q h k = grind arith

-- What has no divisor up to its square root is prime.
pub IsPrime-of_NoneBelow : (v i : ℕ) → 2 ≤ v → v < i * i → NoneBelow i v → IsPrime v
IsPrime-of_NoneBelow v i two big none_below = (
  two,
  λ d two_d below divides.
      let e : v ≡ d * (v / d) = quotient v d divides in
      let co = cofactor v d (v / d) e two_d below in
      elim (Bool-cases (ltb d i)) [
        | inl small ↦ none_below d two_d (ground arith) divides
        | inr large ↦ elim (Bool-cases (ltb (v / d) i)) [
          | inl small ↦ none_below (v / d) co.0 (ground arith) co.2
          | inr large_q ↦ absurd (
              omega (
                arith,
                mul_mono i d (v / d) (ltb-false d i large) (ltb-false (v / d) i large_q),
                e,
              ))
        ]
      ],
)

-- An odd number has no even divisor.
even_divisor : (v d : ℕ) → d % 2 ≡ 0 → v % d ≡ 0 → v % 2 ≡ 0
even_divisor v d even divides =
    ap (λ (t : ℕ). t % 2)
      (quotient v d divides
        ∙ ap (λ (t : ℕ). t * (v / d)) (quotient d 2 even)
        ∙ mul_assoc 2 (d / 2) (v / d))
    ∙ mul-mod_right 2 (d / 2 * (v / d))

pub NoneBelow-step :
    (i v : ℕ) → i % 2 ≡ 1 → v % 2 ≢ 0 → v % i ≢ 0 → NoneBelow i v → NoneBelow (i + 2) v
NoneBelow-step i v odd odd_v last h d two below divides = elim (Bool-cases (ltb d i)) [
  | inl small ↦ h d two (ground arith) divides
  | inr large ↦ elim (Bool-cases (d == i)) [
    | inl same ↦ last (subst (λ k. v % k ≡ 0) ((==_iff d i).0 same) divides)
    | inr other ↦ odd_v (even_divisor v d (ground arith) divides)
  ]
]
