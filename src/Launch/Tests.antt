-- ===== src/Launch/Tests.antt =====
-- Two CPUs, and a target that is let go.
use cache_lens.Prelude.{ℕ, ◌+◌, ◌*◌, ◌≡◌, refl, List, [], ◌∷◌, true, some, ok}
use cache_lens.Keys.Order.{pos}
use cache_lens.Perf.{no_records}
use cache_lens.Session.{Both}
use cache_lens.System.{PerfNumbers}
use cache_lens.System.Post.{PostOr}
use cache_lens.Launch.{Errnos, RingAnswer, Ring, launch, fill_pfd}
use cache_lens.Launch.Table.{fill_pfd-whole}
use cache_lens.Launch.Granted.{Succeeds, launch-Succeeds}
use cache_lens.Launch.Ends.{LaunchEnded}
use cache_lens.Launch.Order.{Launched, launch_right}

abbrev numbers : PerfNumbers
numbers = record {
  type_hardware = 0;
  hw_cache_misses = 3;
  hw_cache_references = 2;
  format_total_time_enabled = 1;
  format_total_time_running = 2;
  sample_ip = 1;
  sample_tid = 2;
  sample_period_bit = 256;
}

abbrev errnos : Errnos
errnos = record { eacces = 13; eperm = 1; enoent = 2 }

abbrev answer : ℕ → ℕ → RingAnswer
answer fd base = record {
  descriptor = ok fd;
  page_size = pos 4096;
  base = some base;
  data_offset = 4096;
  data_size = 524288;
}

abbrev answers : Both (List RingAnswer)
answers = record {
  miss = answer 5 65536 ∷ answer 6 131072 ∷ [];
  access = answer 7 196608 ∷ answer 8 262144 ∷ [];
}

abbrev periods : Both ℕ
periods = record { miss = 10007; access = 101 }

launch_right_example :
    PostOr
      (Launched numbers errnos periods answers)
      (LaunchEnded errnos (some 4) (some true) answers true)
      (launch numbers errnos periods (some 4) (some true) answers true)
launch_right_example = launch_right numbers errnos periods answers (some 4) (some true) true

abbrev ring : ℕ → ℕ → Ring
ring cpu fd = record {
  fd = fd;
  mmap_base = 65536 * fd;
  mmap_len = 528384;
  data_start = 65536 * fd + 4096;
  event = record {
    cpu = cpu;
    data_size = 524288;
    drained = record { tail = 0; samples = []; hist = no_records };
    requested_period = 101;
    counts = record { value = 0; time_enabled = 0; time_running = 0 };
  };
}

fill_pfd-whole_example :
    fill_pfd 2 (record { miss = ring 0 5 ∷ ring 1 6 ∷ []; access = ring 0 7 ∷ ring 1 8 ∷ [] })
    ≡ some (5 ∷ 6 ∷ 7 ∷ 8 ∷ [])
fill_pfd-whole_example =
    fill_pfd-whole 2 (record { miss = ring 0 5 ∷ ring 1 6 ∷ []; access = ring 0 7 ∷ ring 1 8 ∷ [] })
      refl refl

launch-Succeeds_example : Succeeds (launch numbers errnos periods (some 4) (some true) answers true)
launch-Succeeds_example =
    launch-Succeeds numbers errnos periods 4 answers
      (((5, refl), (4095, refl), (65536, refl)), (((6, refl), (4095, refl), (131072, refl)), tt))
      (((7, refl), (4095, refl), (196608, refl)), (((8, refl), (4095, refl), (262144, refl)), tt))
