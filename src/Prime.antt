-- ===== src/Prime.antt =====
-- src/main.cpp: `is_prime` and `nearest_prime`, which pick a sampling period.
pub mod Divisors
pub mod Trial
pub mod Nearest
mod Tests
use cache_lens.Prelude.{
  ℕ, zero, suc, ◌+◌, ◌-◌, ◌*◌, ◌%◌, Bool, true, false, ◌&&◌, Option, none, some, ltb, leb, ◌==◌,
  if◌then◌else◌,
}
use cache_lens.Prelude.Words.{u64}

-- `for (uint64_t i = 3; i * i <= v; i += 2) if (v % i == 0) return false;`, with `i * i` and
-- `i += 2` on 64 bits. Out of fuel there is no answer.
unfoldable pub trial : ℕ → ℕ → ℕ → Option Bool
trial zero i v = none
trial (suc fuel) i v = elim (leb (u64 (i * i)) v) [
  | true ↦ elim (v % i == 0) [ true ↦ some false | false ↦ trial fuel (u64 (i + 2)) v ]
  | false ↦ some true
]

-- The loop leaves at `i * i > v`, which `v + 1` rounds are enough to reach.
unfoldable pub is_prime : ℕ → Option Bool
is_prime v = if ltb v 2 then some false else if v % 2 == 0 then some (v == 2) else trial (suc v) 3 v

-- The loop of `nearest_prime`. What `&&` need not ask is not asked.
pub search_prime : ℕ → ℕ → ℕ → Option ℕ
search_prime zero lo hi = none
search_prime (suc fuel) lo hi = elim (is_prime hi) [
  | none ↦ none
  | some true ↦ some hi
  | some false ↦ elim (if ltb 2 lo then is_prime lo else some false) [
    | none ↦ none
    | some true ↦ some lo
    | some false ↦ search_prime fuel (if ltb 2 lo then lo - 1 else lo) (u64 (hi + 1))
  ]
]

pub nearest_prime : ℕ → ℕ → Option ℕ
nearest_prime fuel n = let n' = if ltb n 2 then 2 else n in search_prime fuel n' n'
