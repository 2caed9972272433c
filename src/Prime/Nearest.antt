-- ===== src/Prime/Nearest.antt =====
-- `nearest_prime` finds a prime, and none is nearer.
use cache_lens.Prelude.{
  ℕ, zero, suc, ◌+◌, ◌-◌, ◌^◌, ◌≤◌, ◌<◌, max, ◌≡◌, ◌≢◌, ◌⊎◌, refl, sym, subst, inl, inr, Bool, true,
  false, Option, none, some, arith, ltb, ◌==◌, ==_iff, ltb-false, ltb→lt, ==-ne, Bool-cases,
}
use cache_lens.Prelude.Words.{u64}
use cache_lens.Prime.{is_prime, trial, search_prime, nearest_prime}
use cache_lens.Prime.Divisors.{IsPrime}
use cache_lens.Prime.Trial.{Decides, is_prime-Decides}

abbrev pub dist : ℕ → ℕ → ℕ
dist a b = (a - b) + (b - a)

abbrev pub IsNearest : ℕ → ℕ → Type 0
IsNearest n q = IsPrime q × ((r : ℕ) → IsPrime r → dist n q ≤ dist n r)

-- An answer, and the right one.
abbrev pub Finds : ℕ → Option ℕ → Type 0
Finds n none = ⊥
Finds n (some q) = IsNearest n q

abbrev NoneWithin : ℕ → ℕ → Type 0
NoneWithin m k = (r : ℕ) → IsPrime r → k ≤ dist m r

Decides-cases :
    (v : ℕ)
    → v < 2 ^ 63
    → ((is_prime v ≡ some true) × IsPrime v) ⊎ ((is_prime v ≡ some false) × ¬ IsPrime v)
Decides-cases v word = go (is_prime v) refl (is_prime-Decides v word)
  where
    go :
        (o : Option Bool)
        → is_prime v ≡ o
        → Decides v o
        → ((is_prime v ≡ some true) × IsPrime v) ⊎ ((is_prime v ≡ some false) × ¬ IsPrime v)
    go none e d = absurd d
    go (some true) e d = inl (e, d)
    go (some false) e d = inr (e, d)

three-IsPrime : IsPrime 3
unfolding is_prime trial
three-IsPrime = is_prime-Decides 3 (omega arith)

-- Two is never the answer from below: three is nearer.
NoneWithin-step :
    (m k : ℕ)
    → 2 ≤ m
    → NoneWithin m k
    → ¬ IsPrime (m + k)
    → (2 < m - k → ¬ IsPrime (m - k))
    → NoneWithin m (k + 1)
NoneWithin-step m k two h above below r prime = elim (Bool-cases (ltb k (dist m r))) [
  | inl far ↦ omega (arith, ltb→lt k (dist m r) far)
  | inr near ↦ elim (Bool-cases (r == m + k)) [
    | inl up ↦ absurd (above (subst IsPrime ((==_iff r (m + k)).0 up) prime))
    | inr not_up ↦
        let here : r + k ≡ m =
          same_distance m k r (ltb-false k (dist m r) near) (h r prime) (==-ne r (m + k) not_up) in
        elim (Bool-cases (ltb 2 r)) [
          | inl large ↦
              absurd (below (omega (arith, ltb→lt 2 r large)) (subst IsPrime (omega arith) prime))
          | inr small ↦ absurd (
              omega
                (arith, h 3 three-IsPrime, prime.0, ltb-false 2 r small, ==-ne r (m + k) not_up))
        ]
  ]
]
  where
    same_distance : (m k r : ℕ) → dist m r ≤ k → k ≤ dist m r → r ≢ m + k → r + k ≡ m
    same_distance m k r a b c = omega arith

search_prime-Finds :
    (fuel m k lo hi p : ℕ)
    → 2 ≤ m
    → lo ≡ max 2 (m - k)
    → hi ≡ m + k
    → hi ≤ p
    → IsPrime p
    → p < 2 ^ 63
    → p < hi + fuel
    → NoneWithin m k
    → Finds m (search_prime fuel lo hi)
unfolding search_prime
search_prime-Finds zero m k lo hi p two el eh reach prime word some_fuel none_within =
    absurd (omega arith)
search_prime-Finds (suc fuel) m k lo hi p two el eh reach prime word some_fuel none_within =
    elim (Decides-cases hi (omega arith)) [
      | inl up ↦ rw (up.0, search_prime) (up.1, λ r q. omega (arith, none_within r q))
      | inr not_up ↦ elim (Bool-cases (ltb 2 lo)) [
        | inl low ↦ elim (Decides-cases lo (omega arith)) [
          | inl down ↦
              rw (not_up.0, low, down.0, search_prime)
                (down.1, λ r q. omega (arith, none_within r q, ltb→lt 2 lo low))
          | inr not_down ↦
              rw (not_up.0, low, not_down.0, search_prime, low)
                (search_prime-Finds fuel m (k + 1) (lo - 1) (u64 (hi + 1)) p two
                  (omega (arith, ltb→lt 2 lo low)) (omega arith) (omega (arith, not_there not_up.1))
                  prime word (omega (arith, not_there not_up.1))
                  (NoneWithin-step m k two none_within (subst (λ t. ¬ IsPrime t) eh not_up.1)
                    (λ _. subst (λ t. ¬ IsPrime t) (omega (arith, ltb→lt 2 lo low)) not_down.1)))
        ]
        | inr at_two ↦
            rw (not_up.0, at_two, search_prime, at_two)
              (search_prime-Finds fuel m (k + 1) lo (u64 (hi + 1)) p two
                (omega (arith, ltb-false 2 lo at_two)) (omega arith)
                (omega (arith, not_there not_up.1)) prime word (omega (arith, not_there not_up.1))
                (NoneWithin-step m k two none_within (subst (λ t. ¬ IsPrime t) eh not_up.1)
                  (λ h. absurd (omega (arith, ltb-false 2 lo at_two)))))
      ]
    ]
  where
    not_there : ¬ IsPrime hi → hi ≢ p
    not_there n e = n (subst IsPrime (sym e) prime)

nearest_small : (fuel n : ℕ) → n < 2 → Finds n (search_prime (suc fuel) 2 2)
unfolding search_prime is_prime
nearest_small fuel n h = (is_prime-Decides 2 (omega arith), λ r q. omega (arith, q.0))

-- If there is a prime `p` from `n` on and below 2 ^ 63, the rounds up to it are enough for the
-- search to end; its answer is a prime, and no prime is nearer to `n`, above or below.
pub nearest_prime-Finds :
    (fuel n p : ℕ) → n ≤ p → p < 2 ^ 63 → IsPrime p → p - n < fuel → Finds n (nearest_prime fuel n)
unfolding nearest_prime
nearest_prime-Finds zero n p below word prime enough = absurd (omega arith)
nearest_prime-Finds (suc fuel) n p below word prime enough = elim (Bool-cases (ltb n 2)) [
  | inl tiny ↦ rw tiny (nearest_small fuel n (ltb→lt n 2 tiny))
  | inr two ↦ rw two (
      search_prime-Finds (suc fuel) n 0 n n p (ltb-false n 2 two) (omega (arith, ltb-false n 2 two))
        (omega arith) (omega arith) prime word (omega arith) (λ r q. omega arith))
]
