-- ===== src/Probe/Tests.antt =====
-- Two rounds of each thread.
use cache_lens.Prelude.{◌*◌, ◌<◌, ◌≡◌, ◌⊎◌, arith}
use cache_lens.Probe.{
  State, start, add_a, add_b, Step, worker_a, worker_b, Run, here, next, main_status,
}
use cache_lens.Probe.Ends.{run_ends}

abbrev last : State
last = add_b (add_a (add_b (add_a start)))

abbrev all_rounds : Run 2 4 last
all_rounds =
    next
      (next (next (next here (worker_a (omega arith))) (worker_b (omega arith)))
        (worker_a (omega arith)))
      (worker_b (omega arith))

run_ends_example :
    ((4 < 2 * 2) × (t : State) × Step 2 last t)
    ⊎ ((4 ≡ 2 * 2) × (last.counters.a ≡ 2) × (last.counters.b ≡ 2) × (main_status 2 last ≡ 0))
run_ends_example = run_ends 2 4 last (omega arith) all_rounds
