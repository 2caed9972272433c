-- ===== src/Budget/Tests.antt =====
-- Two CPUs, and a kernel that maps two rings of four.
use cache_lens.Prelude.{ℕ, ◌≡◌, ◌+◌, ◌*◌, ok, err, if◌then◌else◌, ltb, arith, weight}
use cache_lens.Keys.Order.{pos}
use cache_lens.System.{PerfNumbers, opens, closes, maps, unmaps}
use cache_lens.Budget.{Answer, open_rings, cpus, want, run_size}
use cache_lens.Budget.Balance.{leaked, NonNull, run_size_leaks}
use cache_lens.Budget.Counted.{LineRight, run_size-LineRight}

abbrev numbers : PerfNumbers
numbers = record {
  type_hardware = 0;
  hw_cache_misses = 3;
  hw_cache_references = 2;
  format_total_time_enabled = 1;
  format_total_time_running = 2;
  sample_ip = 1;
  sample_tid = 2;
  sample_period_bit = 256;
}

abbrev answers : ℕ → Answer
answers i = record {
  descriptor = ok (i + 3);
  base = if ltb i 2 then ok (65536 * (i + 1)) else err 1;
}

answers-NonNull : NonNull answers
answers-NonNull i base e z = ground arith

run_size_leaks_example :
    ((fd : ℕ)
      → weight (opens fd) (run_size numbers 7 4096 (pos 2) 16 answers).0
        ≡ weight (closes fd) (run_size numbers 7 4096 (pos 2) 16 answers).0
          + leaked (open_rings numbers 7 4096 (cpus (pos 2)) 16 answers (want (pos 2)) 0).fail fd)
    × ((base : ℕ)
        → weight (maps base) (run_size numbers 7 4096 (pos 2) 16 answers).0
          ≡ weight (unmaps base) (run_size numbers 7 4096 (pos 2) 16 answers).0)
run_size_leaks_example = run_size_leaks numbers 7 4096 (pos 2) 16 answers answers-NonNull

run_size-LineRight_example :
    LineRight answers (want (pos 2)) (run_size numbers 7 4096 (pos 2) 16 answers).1
run_size-LineRight_example = run_size-LineRight numbers 7 4096 (pos 2) 16 answers
