-- ===== src/Prime/Trial.antt =====
-- `is_prime` decides primality.
use cache_lens.Prelude.{
  ℕ, zero, suc, ◌+◌, ◌*◌, ◌%◌, ◌^◌, ◌≤◌, ◌<◌, ◌≡◌, ◌≢◌, refl, subst, inl, inr, Bool, true, false,
  Option, none, some, arith, ltb, leb, ◌==◌, ==_iff, ltb-false, ltb→lt, leb→le, leb-false,
  Bool-cases,
}
use cache_lens.Prelude.Words.{u64}
use cache_lens.Prime.{trial, is_prime}
use cache_lens.Prime.Divisors.{IsPrime, NoneBelow, IsPrime-of_NoneBelow, NoneBelow-step}

-- An answer that is right.
abbrev pub Decides : ℕ → Option Bool → Type 0
Decides v none = ⊥
Decides v (some true) = IsPrime v
Decides v (some false) = ¬ IsPrime v

-- A square whose root's predecessor by two has a square below 2 ^ 63 does not wrap.
square_fits : (j v : ℕ) → v < 2 ^ 63 → j * j ≤ v → (j + 2) * (j + 2) < 2 ^ 64
square_fits j v word below = elim (Bool-cases (ltb j (2 ^ 32))) [
  | inl small ↦ omega (arith, ltb→lt j (2 ^ 32) small)
  | inr large ↦ absurd (omega (arith, squares j (ltb-false j (2 ^ 32) large)))
]
  where
    squares : (j : ℕ) → 2 ^ 32 ≤ j → 2 ^ 64 ≤ j * j
    squares j h = grind arith

i-lt-square : (i v : ℕ) → 3 ≤ i → i * i ≤ v → i < v
i-lt-square i v h k = grind arith

trial-Decides :
    (fuel i v j : ℕ)
    → i ≡ j + 2
    → i % 2 ≡ 1
    → 3 ≤ i
    → 2 ≤ v
    → v % 2 ≢ 0
    → v < 2 ^ 63
    → j * j ≤ v
    → NoneBelow i v
    → v < i + fuel
    → 0 < fuel
    → Decides v (trial fuel i v)
unfolding trial
trial-Decides zero i v j e odd three two odd_v word root none_below enough some_fuel =
    absurd (omega arith)
trial-Decides (suc fuel) i v j e odd three two odd_v word root none_below enough some_fuel =
    elim (Bool-cases (leb (u64 (i * i)) v)) [
      | inl more ↦
          let square : i * i ≤ v = omega (arith, no_wrap, leb→le (u64 (i * i)) v more) in
          let below : i < v = i-lt-square i v three square in
          let next : u64 (i + 2) ≡ i + 2 = omega arith in
          elim (Bool-cases (v % i == 0)) [
            | inl divides ↦
                rw (more, divides, trial)
                  (λ p. p.1 i (omega arith) below ((==_iff (v % i) 0).0 divides))
            | inr not_divides ↦
                let last : v % i ≢ 0 = ground arith in
                rw (more, not_divides, next, trial)
                  (trial-Decides fuel (i + 2) v i refl (omega arith) (omega arith) two odd_v word
                    square (NoneBelow-step i v odd odd_v last none_below) (omega arith)
                    (omega arith))
          ]
      | inr done ↦
          rw (done, trial)
            (IsPrime-of_NoneBelow v i two (omega (arith, no_wrap, leb-false (u64 (i * i)) v done))
              none_below)
    ]
  where
    no_wrap : i * i < 2 ^ 64
    no_wrap = rw e (square_fits j v word root)

-- Below 2 ^ 63, where `i * i` does not wrap, `is_prime` answers, and its answer is right.
pub is_prime-Decides : (v : ℕ) → v < 2 ^ 63 → Decides v (is_prime v)
unfolding is_prime
is_prime-Decides v word = elim (Bool-cases (ltb v 2)) [
  | inl tiny ↦ rw tiny (λ p. omega (arith, p.0, ltb→lt v 2 tiny))
  | inr two ↦ rw two (elim (Bool-cases (v % 2 == 0)) [
    | inl even ↦ rw even (two_only (v == 2) refl ((==_iff (v % 2) 0).0 even) (ltb-false v 2 two))
    | inr odd ↦ rw odd (
        trial-Decides (suc v) 3 v 1 refl refl (omega arith) (ltb-false v 2 two) (ground arith) word
          (omega (arith, ltb-false v 2 two)) (none_below (ground arith)) (omega arith)
          (omega arith))
  ])
]
  where
    two_only : (b : Bool) → (v == 2) ≡ b → v % 2 ≡ 0 → 2 ≤ v → Decides v (some b)
    two_only true h even two = (two, λ d l u. absurd (omega (arith, (==_iff v 2).0 h)))
    two_only false h even two = λ p. p.1 2 (omega arith) (ground arith) even

    none_below : v % 2 ≢ 0 → NoneBelow 3 v
    none_below odd d l u divides = odd (subst (λ k. v % k ≡ 0) (omega arith) divides)
