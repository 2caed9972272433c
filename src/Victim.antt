-- ===== src/Victim.antt =====
-- probes/p2_victim.c: a walk through a buffer in which each word holds the place of the next.
--
-- The buffer is a list, and a read out of its bounds is none. The words stay below 2 ^ 64, as the places
-- do. What malloc gives is an argument.
pub mod Walk
mod Tests
use cache_lens.Prelude.{
  ℕ, zero, suc, ◌+◌, ◌*◌, ◌/◌, ◌%◌, Bool, true, false, Option, none, some, List, [], ◌∷◌,
}

-- `4 * 1024 * 1024 / sizeof(uint64_t)`, and the passes of the loop.
pub words : ℕ
words = 4 * 1024 * 1024 / 8

pub passes : ℕ
passes = 200

-- The loop that fills the buffer, from `i` on; `n` is not 0 where it has a round.
pub fill : ℕ → ℕ → ℕ → List ℕ
fill n zero i = []
fill n (suc rounds) i = (i + 1) % n ∷ fill n rounds (i + 1)

pub at : List ℕ → ℕ → Option ℕ
at [] i = none
at (x ∷ xs) zero = some x
at (x ∷ xs) (suc i) = at xs i

-- `idx = buf[idx]`, so often.
pub chase : List ℕ → ℕ → ℕ → Option ℕ
chase buf zero idx = some idx
chase buf (suc rounds) idx = elim (at buf idx) [ none ↦ none | some idx' ↦ chase buf rounds idx' ]

pub run_passes : List ℕ → ℕ → ℕ → ℕ → Option ℕ
run_passes buf n zero idx = some idx
run_passes buf n (suc rounds) idx = elim (chase buf n idx) [
  | none ↦ none
  | some idx' ↦ run_passes buf n rounds idx'
]

-- How the program ends.
pub data Outcome : Type 0 where
  exits : (status : ℕ) → Outcome
  done_at : (idx : ℕ) → Outcome
  out_of_bounds : Outcome

pub end_of : Option ℕ → Outcome
end_of none = out_of_bounds
end_of (some idx) = done_at idx

-- The program behind malloc, with a buffer of `n` words.
pub walk : ℕ → Bool → Outcome
walk n false = exits 1
walk n true = end_of (run_passes (fill n n 0) n passes 0)

pub main : Bool → Outcome
main allocated = walk words allocated
