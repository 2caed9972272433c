-- ===== src/Victim/Walk.antt =====
-- The walk goes around the whole buffer and comes back to its start.
use native.Mathlib.Nat.{mod_self, mod-eq_of_lt}
use cache_lens.Prelude.{ℕ, zero, suc, ◌+◌, ◌%◌, ◌<◌, ◌≡◌, refl, ◌∙◌, ap, true, some, arith}
use cache_lens.Victim.{passes, fill, at, chase, run_passes, done_at, end_of, walk}

at-fill : (n rounds from i : ℕ) → i < rounds → at (fill n rounds from) i ≡ some ((from + i + 1) % n)
unfolding at fill
at-fill n zero from i h = absurd (omega arith)
at-fill n (suc rounds) from zero h = ap (λ m. some (m % n)) same
  where
    same : from + 1 ≡ from + 0 + 1
    same = omega arith
at-fill n (suc rounds) from (suc i) h =
    at-fill n rounds (from + 1) i (omega arith) ∙ ap (λ m. some (m % n)) same
  where
    same : from + 1 + i + 1 ≡ from + suc i + 1
    same = omega arith

-- From place `idx` on to the end of the buffer, and from there to its start.
chase_to_end :
    (n rounds idx : ℕ) → idx + suc rounds ≡ n → chase (fill n n 0) (suc rounds) idx ≡ some 0
unfolding chase
chase_to_end n zero idx e =
    rw (at-fill n n 0 idx (omega arith), chase) (ap some (wrap (0 + idx + 1) (omega arith)))
  where
    wrap : (m : ℕ) → m ≡ n → m % n ≡ 0
    wrap m e = rw (e) (mod_self n)
chase_to_end n (suc rounds) idx e =
    rw (at-fill n n 0 idx (omega arith), chase)
      (ap (λ j. chase (fill n n 0) (suc rounds) j) next
        ∙ chase_to_end n rounds (idx + 1) (omega arith))
  where
    next : (0 + idx + 1) % n ≡ idx + 1
    next = mod-eq_of_lt (omega arith) ∙ omega arith

one_pass : (n : ℕ) → chase (fill n n 0) n 0 ≡ some 0
unfolding chase
one_pass zero = refl
one_pass (suc n) = chase_to_end (suc n) n 0 (omega arith)

run_passes_at_start : (n rounds : ℕ) → run_passes (fill n n 0) n rounds 0 ≡ some 0
unfolding run_passes
run_passes_at_start n zero = refl
run_passes_at_start n (suc rounds) = rw (one_pass n, run_passes) (run_passes_at_start n rounds)

-- The first reads of a pass go from word to word.
chase_from_start :
    (n k rounds idx : ℕ) → idx + k ≡ rounds → rounds < n → chase (fill n n 0) k idx ≡ some rounds
unfolding chase
chase_from_start n zero rounds idx e h = ap some (omega arith)
chase_from_start n (suc k) rounds idx e h =
    rw (at-fill n n 0 idx (omega arith), chase)
      (ap (λ j. chase (fill n n 0) k j) next
        ∙ chase_from_start n k rounds (idx + 1) (omega arith) h)
  where
    next : (0 + idx + 1) % n ≡ idx + 1
    next = mod-eq_of_lt (omega arith) ∙ omega arith

-- A buffer of any size, once it is there: after k reads of a pass from word 0, for every k below the size,
-- the walk stands at word k, so that a pass comes by every word; any number of passes, each of as
-- many reads as there are words, ends at word 0 again with no read out of bounds; and so ends the
-- program.
pub walk_around :
    (n k rounds : ℕ)
    → k < n
    → (chase (fill n n 0) k 0 ≡ some k)
      × (run_passes (fill n n 0) n rounds 0 ≡ some 0)
      × (walk n true ≡ done_at 0)
unfolding walk end_of
walk_around n k rounds h = (
  chase_from_start n k k 0 (omega arith) h,
  run_passes_at_start n rounds,
  rw (run_passes_at_start n passes) refl,
)
