-- ===== src/Probe/Ends.antt =====
-- Every interleaving ends, after as many rounds, with the same sum.
use cache_lens.Prelude.{
  ℕ, ◌+◌, ◌*◌, ◌^◌, ◌≤◌, ◌<◌, ◌≡◌, ◌⊎◌, refl, inl, inr, ltb, ltb→lt, ltb-false, ==_iff, Bool-cases,
  arith,
}
use cache_lens.Prelude.Words.{u64}
use cache_lens.Probe.{State, add_a, add_b, Step, worker_a, worker_b, Run, here, next, main_status}

-- Each counter is its loop's variable, and the rounds are those of both loops.
abbrev Counted : ℕ → ℕ → State → Type 0
Counted iters n s =
    (s.counters.a ≡ s.i_a)
    × (s.counters.b ≡ s.i_b)
    × (s.i_a ≤ iters)
    × (s.i_b ≤ iters)
    × (s.i_a + s.i_b ≡ n)

Run-Counted : (iters n : ℕ) (s : State) → iters < 2 ^ 63 → Run iters n s → Counted iters n s
Run-Counted iters _ _ small here = (refl, refl, omega arith, omega arith, refl)
Run-Counted iters _ _ small (next {n} {s} r (worker_a more)) =
    let (a, b, c, e, f) = Run-Counted iters n s small r in
    (omega arith, omega arith, omega arith, omega arith, omega arith)
Run-Counted iters _ _ small (next {n} {s} r (worker_b more)) =
    let (a, b, c, e, f) = Run-Counted iters n s small r in
    (omega arith, omega arith, omega arith, omega arith, omega arith)

-- However the two threads are interleaved, there are at most `2 * iters` rounds; before that number
-- one of the threads can go on, and at it both loops are over, no increment has been lost and `main`
-- returns 0. `iters` is below 2 ^ 63.
pub run_ends :
    (iters n : ℕ) (s : State)
    → iters < 2 ^ 63
    → Run iters n s
    → ((n < 2 * iters) × (t : State) × Step iters s t)
      ⊎ ((n ≡ 2 * iters)
          × (s.counters.a ≡ iters)
          × (s.counters.b ≡ iters)
          × (main_status iters s ≡ 0))
unfolding main_status
run_ends iters n s small r =
    let (a, b, c, e, f) = Run-Counted iters n s small r in
    elim (Bool-cases (ltb s.i_a iters)) [
      | inl more ↦
          inl (omega (arith, ltb→lt s.i_a iters more), add_a s, worker_a (ltb→lt s.i_a iters more))
      | inr over_a ↦ elim (Bool-cases (ltb s.i_b iters)) [
        | inl more ↦
            inl
              (omega (arith, ltb→lt s.i_b iters more), add_b s, worker_b (ltb→lt s.i_b iters more))
        | inr over_b ↦
            let full : (s.counters.a ≡ iters) × (s.counters.b ≡ iters) = (
              omega (arith, ltb-false s.i_a iters over_a),
              omega (arith, ltb-false s.i_b iters over_b),
            ) in
            inr (
              omega arith,
              full.0,
              full.1,
              rw (
                  (==_iff (u64 (s.counters.a + s.counters.b)) (u64 (2 * iters))).1
                    (omega (arith, full.0, full.1))),
            )
      ]
    ]
