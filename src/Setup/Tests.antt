-- ===== src/Setup/Tests.antt =====
-- A calibration run of a second, with a cap of 1000 samples a second.
use cache_lens.Prelude.{ℕ, ◌≡◌, refl, true, some, [], ◌∷◌, length, ok, arith}
use cache_lens.Keys.Order.{pos}
use cache_lens.Doubles.Fractions.{fractions, fractions-IsRounded}
use cache_lens.Prime.{trial, is_prime}
use cache_lens.Prime.Divisors.{IsPrime}
use cache_lens.Prime.Trial.{is_prime-Decides}
use cache_lens.Session.{CountReadFormat}
use cache_lens.Setup.{
  Strtoll, period_flag, dashes, rate_read, CalibrationRun, rate, raw_period, set_up,
}
use cache_lens.Setup.Right.{SetUp, set_up-IsRight, set_up_option}

abbrev second_of : ℕ → CountReadFormat
second_of value = record { value = value; time_enabled = 1000000000; time_running = 1000000000 }

abbrev calm_run : CalibrationRun
calm_run = record {
  opened = record { miss = true; access = true };
  resumed = true;
  reads = record { miss = some (second_of 6000000); access = some (second_of 60000) };
}

-- a reader of numbers that reads seven in every text
abbrev seven : Strtoll
seven t = (pos 7, length t)

IsPrime-10007 : IsPrime 10007
unfolding is_prime trial
IsPrime-10007 = is_prime-Decides 10007 (omega arith)

IsPrime-101 : IsPrime 101
unfolding is_prime trial
IsPrime-101 = is_prime-Decides 101 (omega arith)

set_up-IsRight_example :
    SetUp fractions seven
      (rate_read (pos 1000))
      calm_run
      (dashes ∷ (97 ∷ []) ∷ [])
      (set_up fractions seven 8 (dashes ∷ (97 ∷ []) ∷ []) (rate_read (pos 1000)) calm_run)
unfolding raw_period rate
set_up-IsRight_example =
    set_up-IsRight fractions seven (rate_read (pos 1000)) calm_run fractions-IsRounded 8
      (
        (10007, omega arith, omega arith, IsPrime-10007, omega arith),
        (101, omega arith, omega arith, IsPrime-101, omega arith),
      )
      (omega arith) (omega arith) (dashes ∷ (97 ∷ []) ∷ [])

set_up_option_example :
    set_up fractions seven 8
      (period_flag ∷ (55 ∷ []) ∷ dashes ∷ (97 ∷ []) ∷ [])
      (rate_read (pos 1000))
      calm_run
    ≡ ok (record { miss = 7; access = 7 }, (97 ∷ []) ∷ [])
set_up_option_example =
    set_up_option fractions seven (rate_read (pos 1000)) calm_run 8 7 (55 ∷ []) (97 ∷ []) []
      (omega arith) (refl, omega arith)
