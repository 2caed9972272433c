-- ===== src/Probe.antt =====
-- probes/p4_false_sharing.cpp: two threads, each adding to its own counter.
--
-- `iters` is `kIters`. The threads are interleaved one round of a loop at a time; a round is one atomic
-- `fetch_add`. The layout of the counters, on which only the time depends, is left out.
pub mod Ends
mod Tests
use cache_lens.Prelude.{ℕ, zero, suc, ◌+◌, ◌*◌, ◌<◌, ◌==◌, if◌then◌else◌}
use cache_lens.Prelude.Words.{u64}

pub record Counters : Type 0 where
  pub a : ℕ
  pub b : ℕ

abbrev pub new_counters : Counters
new_counters = record { a = 0; b = 0 }

-- The counters, and the loop variables of `worker_a` and `worker_b`.
pub record State : Type 0 where
  pub counters : Counters
  pub i_a : ℕ
  pub i_b : ℕ

abbrev pub start : State
start = record { counters = new_counters; i_a = 0; i_b = 0 }

abbrev pub add_a : State → State
add_a s = record s {
  counters = record (s.counters) { a = u64 (s.counters.a + 1) };
  i_a = u64 (s.i_a + 1);
}

abbrev pub add_b : State → State
add_b s = record s {
  counters = record (s.counters) { b = u64 (s.counters.b + 1) };
  i_b = u64 (s.i_b + 1);
}

pub data Step (iters : ℕ) (s : State) : State → Type 0 where
  worker_a : s.i_a < iters → Step iters s (add_a s)
  worker_b : s.i_b < iters → Step iters s (add_b s)

-- So many rounds, of either thread, since the start.
pub data Run (iters : ℕ) : ℕ → State → Type 0 where
  here : Run iters 0 start
  next : {n : ℕ} {s t : State} → Run iters n s → Step iters s t → Run iters (suc n) t

-- What `main` returns behind the joins.
pub main_status : ℕ → State → ℕ
main_status iters s =
    let checksum = u64 (s.counters.a + s.counters.b) in if checksum == u64 (2 * iters) then 0 else 1
