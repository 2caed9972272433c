-- ===== src/Checks/Tests.antt =====
-- Two CPUs, of which each saw a part of the run.
use cache_lens.Prelude.{ℕ, ◌≡◌, refl, List, [], ◌∷◌, arith}
use cache_lens.Doubles.Fractions.{fractions, fractions-IsRounded}
use cache_lens.Perf.{Sample, no_records}
use cache_lens.Session.{Both, SamplingEvent}
use cache_lens.Checks.{measured, check, combine, last_enabled}
use cache_lens.Checks.Right.{IsRight, check-IsRight, check_passes}

abbrev sampled : ℕ → Sample
sampled ip = record { ip = ip; pid = 5; tid = 6; period = 101 }

abbrev ring : ℕ → ℕ → List Sample → SamplingEvent
ring cpu running samples = record {
  cpu = cpu;
  data_size = 4096;
  drained = record { tail = 0; samples = samples; hist = no_records };
  requested_period = 101;
  counts = record { value = 7; time_enabled = 1000; time_running = running };
}

abbrev rings : Both (List SamplingEvent)
rings = record {
  miss = ring 0 400 (sampled 10 ∷ []) ∷ ring 1 595 (sampled 20 ∷ sampled 30 ∷ []) ∷ [];
  access = ring 0 400 [] ∷ ring 1 600 (sampled 10 ∷ []) ∷ [];
}

-- The access event ran for half of the time.
abbrev shared_rings : Both (List SamplingEvent)
shared_rings = record {
  miss = ring 0 400 (sampled 10 ∷ []) ∷ ring 1 595 [] ∷ [];
  access = ring 0 400 [] ∷ ring 1 100 [] ∷ [];
}

check_passes_example :
    check fractions rings 0
    ≡ measured
        (record { miss = sampled 10 ∷ sampled 20 ∷ sampled 30 ∷ []; access = sampled 10 ∷ [] })
unfolding combine last_enabled
check_passes_example =
    check_passes fractions fractions-IsRounded rings 0 (omega arith) (omega arith)
      ((((refl, tt), ((refl, (refl, tt)), tt))), (tt, ((refl, tt), tt))) (omega arith) (omega arith)

check-IsRight_example : IsRight shared_rings 3 (check fractions shared_rings 3)
unfolding last_enabled
check-IsRight_example = check-IsRight fractions fractions-IsRounded shared_rings 3 (omega arith)
