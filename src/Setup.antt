-- ===== src/Setup.antt =====
-- src/main.cpp: the start of `main`, where the command line is read and the two periods are chosen, with
-- `calibrate_both`.
--
-- `args` is `argv` behind the program's name; a text is the list of its characters without the zero
-- at its end. What the operating system answers is an argument: the file of the kernel's cap on the
-- sample rate, and the calibration run. The readings of the target's ELF file and of its debugging
-- information, which stand between the two parts, are in Elf and Attribution.
pub mod Arguments
pub mod Calibrated
pub mod Chosen
pub mod Right
mod Tests
use cache_lens.Prelude.{
  ℕ, ◌+◌, Bool, true, false, not, ◌&&◌, ◌||◌, Option, none, some, List, [], ◌∷◌, length, ◌==◌,
  if◌then◌else◌, Result, ok, err, ◌>>=◌,
}
use cache_lens.Keys.Order.{ℤ, pos, negsuc}
use cache_lens.Doubles.{Doubles}
use cache_lens.Prime.{nearest_prime}
use cache_lens.Session.{Both, CountReadFormat, event_miss, event_access}

-- How the program ends before the measurement. The last is no end of the program's: the search for a
-- prime has run out of the model's fuel.
pub data Halt : Type 0 where
  period_needs_value bad_period usage : Halt
  cannot_open_rate bad_rate : Halt
  open_failed : (event : ℕ) → Halt
  resume_failed short_read never_reached_exec contended_calibration : Halt
  no_prime : Halt

abbrev pub Text : Type 0
Text = List ℕ

-- strtoll in base 10: the value, and the number of characters up to `end`.
abbrev pub Strtoll : Type 0
Strtoll = Text → ℤ × ℕ

-- "--period" and "--"
abbrev pub period_flag : Text
period_flag = 45 ∷ 45 ∷ 112 ∷ 101 ∷ 114 ∷ 105 ∷ 111 ∷ 100 ∷ []

abbrev pub dashes : Text
dashes = 45 ∷ 45 ∷ []

-- `std::strcmp(a, b) == 0`
pub same_text : Text → Text → Bool
same_text [] [] = true
same_text [] (y ∷ ys) = false
same_text (x ∷ xs) [] = false
same_text (x ∷ xs) (y ∷ ys) = (x == y) && same_text xs ys

-- What `v <= 0` lets through.
unfoldable pub positive : ℤ → Option ℕ
positive (pos n) = if n == 0 then none else some n
positive (negsuc n) = none

pub period_value : Strtoll → Text → Option ℕ
period_value strtoll v =
    let used = (strtoll v).1 in
    if (used == 0) || not (used == length v) then none else positive ((strtoll v).0)

-- The option, with the arguments behind it.
pub take_period : Strtoll → List Text → Result Halt (Option ℕ × List Text)
take_period strtoll [] = ok (none, [])
take_period strtoll (a ∷ []) =
    if same_text a period_flag then err period_needs_value else ok (none, a ∷ [])
take_period strtoll (a ∷ v ∷ rest) =
    if same_text a period_flag
    then (elim (period_value strtoll v) [ none ↦ err bad_period | some n ↦ ok (some n, rest) ])
    else ok (none, a ∷ v ∷ rest)

-- `target_argv`
pub take_command : List Text → Result Halt (List Text)
take_command [] = err usage
take_command (a ∷ []) = err usage
take_command (a ∷ c ∷ cs) = if same_text a dashes then ok (c ∷ cs) else err usage

pub parse_args : Strtoll → List Text → Result Halt (Option ℕ × List Text)
parse_args strtoll args =
    take_period strtoll args >>= λ r. take_command r.1 >>= λ command. ok (r.0, command)

-- /proc/sys/kernel/perf_event_max_sample_rate: not opened, not a number, or a number.
pub data RateFile : Type 0 where
  no_file unread : RateFile
  rate_read : ℤ → RateFile

pub max_rate : RateFile → Result Halt ℕ
max_rate no_file = err cannot_open_rate
max_rate unread = err bad_rate
max_rate (rate_read z) = elim (positive z) [ none ↦ err bad_rate | some m ↦ ok m ]

-- Whether the two counters opened, whether the child was set going, and what read(2) gives for each
-- counter, none where it falls short.
pub record CalibrationRun : Type 0 where
  pub opened : Both Bool
  pub resumed : Bool
  pub reads : Both (Option CountReadFormat)

module _ (d : Doubles) where
  open d use {Double, of_nat, decimal, to_nat, add, mul, div, less}

  pub rate : CountReadFormat → Double
  rate c = div (of_nat c.value) (div (of_nat c.time_running) (decimal 1000000000 0))

  pub fraction : CountReadFormat → Double
  fraction c = div (of_nat c.time_running) (of_nat c.time_enabled)

  -- One round of the loop over the counters that are read.
  unfoldable pub calibrate_one : Option CountReadFormat → Result Halt Double
  calibrate_one none = err short_read
  calibrate_one (some c) =
      if c.time_enabled == 0
      then err never_reached_exec
      else if less (fraction c) (decimal 99 2)
      then err contended_calibration
      else ok (rate c)

  -- `calibrate_both` from a child that has stopped, and is waited for: what fork and the two waits answer, and
  -- the diagnosis of a counter that does not open, are in Calibration.
  unfoldable pub calibrate_both : CalibrationRun → Result Halt (Both Double)
  calibrate_both run =
      if not run.opened.miss
      then err (open_failed event_miss)
      else if not run.opened.access
      then err (open_failed event_access)
      else if not run.resumed
      then err resume_failed
      else (calibrate_one run.reads.miss >>= λ miss.
          calibrate_one run.reads.access >>= λ access. ok (record { miss = miss; access = access }))

  -- `raw`, for a cap of `m` samples a second
  pub raw_period : ℕ → Double → ℕ
  raw_period m r = to_nat (add (div r (mul (decimal 60 2) (of_nat m))) (decimal 5 1))

  pub period_of : ℕ → ℕ → Double → Result Halt ℕ
  period_of fuel m r = elim (nearest_prime fuel (raw_period m r)) [
    | none ↦ err no_prime
    | some q ↦ ok q
  ]

  -- `period`, by the option or by the calibration run
  unfoldable pub choose_periods : ℕ → Option ℕ → RateFile → CalibrationRun → Result Halt (Both ℕ)
  choose_periods fuel (some n) file run = ok (record { miss = n; access = n })
  choose_periods fuel none file run = max_rate file >>= λ m. calibrate_both run >>= λ r.
      period_of fuel m r.miss >>= λ miss.
      period_of fuel m r.access >>= λ access. ok (record { miss = miss; access = access })

  -- The periods, and the target's command line.
  pub set_up :
      Strtoll → ℕ → List Text → RateFile → CalibrationRun → Result Halt (Both ℕ × List Text)
  set_up strtoll fuel args file run = parse_args strtoll args >>= λ r.
      choose_periods fuel r.0 file run >>= λ period. ok (period, r.1)
