-- ===== src/PerCpu/Tests.antt =====
-- Two CPUs, of which the second cannot be mapped.
use cache_lens.Prelude.{ℕ, ◌≡◌, ◌↔◌, ◌+◌, ◌*◌, ok, err, some, ◌==◌, if◌then◌else◌}
use cache_lens.Keys.Order.{pos}
use cache_lens.Setup.{positive}
use cache_lens.System.{PerfNumbers}
use cache_lens.PerCpu.{Answer, main, status}
use cache_lens.PerCpu.Verdict.{LeavesNothing, AllOpen, probe_right}

abbrev numbers : PerfNumbers
numbers = record {
  type_hardware = 0;
  hw_cache_misses = 3;
  hw_cache_references = 2;
  format_total_time_enabled = 1;
  format_total_time_running = 2;
  sample_ip = 1;
  sample_tid = 2;
  sample_period_bit = 256;
}

abbrev answers : ℕ → Answer
answers cpu = record {
  descriptor = ok (cpu + 3);
  base = if cpu == 1 then err 12 else ok (65536 * (cpu + 1));
}

probe_right_example :
    ((status numbers 7 4096 (pos 2) answers ≡ 0)
      ↔ ((n : ℕ) × (positive (pos 2) ≡ some n) × AllOpen answers 0 n))
    × LeavesNothing (main numbers 7 4096 (pos 2) answers).calls
probe_right_example = probe_right numbers 7 4096 (pos 2) answers
