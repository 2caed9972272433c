-- ===== src/Latency.antt =====
-- benchmarks/queue_latency.cpp: `compute_percentiles`. The casts of the results to double are left out,
-- and the two threads that measure the latencies.
pub mod Ranks
mod Tests
use cache_lens.Prelude.{ℕ, zero, suc, ◌+◌, ◌-◌, min, Option, none, some, List, [], ◌∷◌, length}
use cache_lens.Prelude.Words.{sub64}
use cache_lens.Keys.Order.{ℤ, int_order}
use cache_lens.Keys.Sort.{sort}
use cache_lens.Doubles.{Doubles}

-- `v[i]`, and none behind the end
pub element_at : List ℤ → ℕ → Option ℤ
element_at [] i = none
element_at (x ∷ xs) zero = some x
element_at (x ∷ xs) (suc i) = element_at xs i

pub back : List ℤ → Option ℤ
back [] = none
back (x ∷ []) = some x
back (x ∷ y ∷ xs) = back (y ∷ xs)

pub record Percentiles : Type 0 where
  pub p50 : Option ℤ
  pub p99 : Option ℤ
  pub p999 : Option ℤ
  pub p9999 : Option ℤ
  pub max_latency : Option ℤ

module _ (d : Doubles) where
  open d use {Double, of_nat, to_nat, decimal, mul}

  -- The index of `at`: `std::min(n - 1, static_cast<size_t>(q * n))`
  pub index_of : Double → ℕ → ℕ
  index_of q n = min (sub64 n 1) (to_nat (mul q (of_nat n)))

  pub compute_percentiles : List ℤ → Percentiles
  compute_percentiles latencies =
      let sorted = sort int_order latencies in
      let n = length sorted in
      record {
        p50 = element_at sorted (index_of (decimal 50 2) n);
        p99 = element_at sorted (index_of (decimal 99 2) n);
        p999 = element_at sorted (index_of (decimal 999 3) n);
        p9999 = element_at sorted (index_of (decimal 9999 4) n);
        max_latency = back sorted;
      }
