-- ===== src/Main.antt =====
-- src/main.cpp: `main` as a whole, put together of the parts that the other modules model.
--
-- What is outside is a `World`: the arguments, the target's files, what the kernel answers, and the
-- clock readings. The result is what is printed, in numbers, or why the process ends before.
pub mod Rings
pub mod Written
pub mod Ends
pub mod Periods
pub mod Samples
pub mod Exact
mod Tests
use cache_lens.Prelude.{
  ℕ, zero, suc, ◌+◌, Bool, true, false, ◌||◌, Option, none, some, List, [], ◌∷◌, map, ◌==◌, ltb,
  if◌then◌else◌, Result, ok, err, length,
}
use cache_lens.Prelude.Words.{u64}
use cache_lens.Keys.Order.{ℤ}
use cache_lens.Doubles.{Doubles}
use cache_lens.Perf.{Sample, PerfAbi}
use cache_lens.Elf.{TextRange, ElfAbi, ElfFile, get_target_text_range}
use cache_lens.Setup.{
  Halt, Text, Strtoll, RateFile, positive, parse_args, max_rate, period_of, period_needs_value,
  bad_period, usage,
}
use cache_lens.Session.{
  WaitOutcome, running, Both, CountReadFormat, Shown, SamplingEvent, ExitStatus, Iteration, Stop,
  exit_code, is_ready, measure,
}
use cache_lens.System.{PerfNumbers, Traced, call, done, halt, ◌>>=◌}
use cache_lens.Launch.{Errnos, LaunchHalt, RingAnswer, Ring, launch, finish_both}
use cache_lens.Checks.{
  Conclusion, read_failed, never_armed, contended, wrong_period, measured, check,
}
use cache_lens.Attribution.{Site, Attribution, classify_and_attribute}
use cache_lens.Report.{Report, event_report}
use cache_lens.Ranking.{Sorting, Ranking, rank}
use cache_lens.Calibration
use cache_lens.Calibration.{CalibrationHalt}
use cache_lens.Latency.{index_of}

-- Why the process ends before the report.
pub data Why : Type 0 where
  in_setup : Halt → Why
  no_cpus no_text_range no_debug_info : Why
  in_launch : LaunchHalt → Why
  in_calibration : CalibrationHalt → Why
  in_run : Stop → Why
  refused : Conclusion → Why

-- What `main` returns, or the process exits with.
pub setup_status : Halt → ℕ
setup_status period_needs_value = 2
setup_status bad_period = 2
setup_status usage = 2
setup_status _ = 1

pub why_status : Why → ℕ
why_status (in_setup h) = setup_status h
why_status (refused (never_armed label status)) = status
why_status _ = 1

-- `DwarfResolver::init`: none where `dwfl_begin` gives a null pointer, and some none where
-- `dwfl_report_offline` does.
pub dwarf_init : {R : Type 0} → Option (Option R) → Option R
dwarf_init none = none
dwarf_init (some none) = none
dwarf_init (some (some r)) = some r

abbrev pub events_of : Both (List Ring) → Both (List SamplingEvent)
events_of ev = record { miss = map (λ r. r.event) ev.miss; access = map (λ r. r.event) ev.access }

-- The rings with their events as the session has left them.
pub put_events : List Ring → List SamplingEvent → List Ring
put_events [] es = []
put_events (r ∷ rs) [] = []
put_events (r ∷ rs) (e ∷ es) = record r { event = e } ∷ put_events rs es

abbrev pub put_both : Both (List Ring) → Both (List SamplingEvent) → Both (List Ring)
put_both ev es = record {
  miss = put_events ev.miss es.miss;
  access = put_events ev.access es.access;
}

-- The answers for the rings of `nr_cpus` CPUs.
pub for_cpus : {A : Type 0} → (ℕ → A) → ℕ → ℕ → List A
for_cpus f cpu zero = []
for_cpus f cpu (suc rounds) = f cpu ∷ for_cpus f (cpu + 1) rounds

abbrev pub for_both : {A : Type 0} → Both (ℕ → A) → ℕ → Both (List A)
for_both f nr_cpus = record {
  miss = for_cpus f.miss 0 nr_cpus;
  access = for_cpus f.access 0 nr_cpus;
}

-- `total_lost_records` and `total_lost_events`.
pub add_lost : ℕ × ℕ → List SamplingEvent → ℕ × ℕ
add_lost t [] = t
add_lost t (e ∷ es) =
    add_lost (u64 (t.0 + e.drained.hist.lost_records), u64 (t.1 + e.drained.hist.lost_events)) es

pub total_lost : Both (List SamplingEvent) → ℕ × ℕ
total_lost ev = add_lost (add_lost (0, 0) ev.miss) ev.access

-- `drained_any`
pub any_ready : ℕ → List Shown → Bool
any_ready ready_mask [] = false
any_ready ready_mask (sh ∷ shs) = is_ready ready_mask sh || any_ready ready_mask shs

-- `while (!child_exited)`
pub goes_on : WaitOutcome → Bool
goes_on running = true
goes_on _ = false

-- A part that calls nothing that is traced.
abbrev pub lift : {E A : Type 0} → (E → Why) → Result E A → Traced Why A
lift why (ok a) = done a
lift why (err e) = halt (why e)

abbrev pub found : {A : Type 0} → Why → Option A → Traced Why A
found why (some a) = done a
found why none = halt why

abbrev pub ending : {A : Type 0} → Traced LaunchHalt A → Traced Why A
ending m = record { calls = m.calls; result = (lift in_launch m.result).result }

abbrev pub calibrated : {A : Type 0} → Traced CalibrationHalt A → Traced Why A
calibrated m = record { calls = m.calls; result = (lift in_calibration m.result).result }

module _ (d : Doubles) where
  open d use {Double, of_nat, decimal, add, div, less}

  pub record World : Type 0 where
    pub strtoll : Strtoll
    pub args : List Text
    pub nproc : ℤ
    pub elf_file : Option ElfFile
    pub dwfl : Option (Option (ℕ → Option Site))
    pub rate_file : RateFile
    pub calibration : Calibration.Answers
    pub prime_fuel : ℕ
    pub pid : Option ℕ
    pub stop : Option Bool
    pub rings : Both (ℕ → RingAnswer)
    pub resumes : Bool
    pub rounds : List Iteration
    pub final : Both (List Shown)
    pub reads : Both (List (Option CountReadFormat))
    pub round_times : List Double

  -- `drain_iter_ns`: the times of the rounds that drained a ring, up to the round in which the child
  -- has ended.
  pub drain_times : ℕ → List Iteration → List Double → List Double
  drain_times ready_mask [] ts = []
  drain_times ready_mask (it ∷ its) [] = []
  drain_times ready_mask (it ∷ its) (t ∷ ts) =
      let rest = drain_times ready_mask its ts in
      let later = if goes_on it.wait then rest else [] in
      if any_ready ready_mask it.shown.miss || any_ready ready_mask it.shown.access
      then t ∷ later
      else later

  pub element : List Double → ℕ → Option Double
  element [] i = none
  element (x ∷ xs) zero = some x
  element (x ∷ xs) (suc i) = element xs i

  pub last_time : List Double → Option Double
  last_time [] = none
  last_time (x ∷ []) = some x
  last_time (x ∷ y ∷ xs) = last_time (y ∷ xs)

  pub sum_times : Double → List Double → Double
  sum_times sum [] = sum
  sum_times sum (v ∷ vs) = sum_times (add sum v) vs

  -- The lines of the drain path, where there are any.
  pub record DrainPath : Type 0 where
    pub iterations : ℕ
    pub mean : Double
    pub p50 : Option Double
    pub p99 : Option Double
    pub longest : Option Double

  pub drain_path : Sorting → List Double → Option DrainPath
  drain_path sorting [] = none
  drain_path sorting (t ∷ ts) =
      let sorted = sorting.sort_by less (t ∷ ts) in
      let n = length sorted in
      some (record {
        iterations = n;
        mean = div (sum_times (decimal 0 0) sorted) (of_nat n);
        p50 = element sorted (index_of d (decimal 50 2) n);
        p99 = element sorted (index_of d (decimal 99 2) n);
        longest = last_time sorted;
      })

  pub record Output : Type 0 where
    pub reports : Both (Report d)
    pub path : Option DrainPath
    pub lost : ℕ × ℕ
    pub ranking : Ranking d
    pub status : ℕ

  module _ (abi : PerfAbi) (numbers : PerfNumbers) (errnos : Errnos) (elf_abi : ElfAbi)
      (sorting : Sorting) (ready_mask : ℕ) (w : World) where
    -- The two periods, by the option or by the calibration run.
    pub choose : Option ℕ → Traced Why (Both ℕ)
    choose (some n) = done (record { miss = n; access = n })
    choose none = lift in_setup (max_rate w.rate_file) >>= λ m.
        calibrated (Calibration.calibrate_both numbers errnos d w.calibration) >>= λ r.
        lift in_setup (period_of d w.prime_fuel m r.miss) >>= λ miss.
        lift in_setup (period_of d w.prime_fuel m r.access) >>= λ access.
        done (record { miss = miss; access = access })

    -- From fork to the counts read at the end.
    pub measurement : Both ℕ → ℕ → Traced Why (Both (List Ring) × ExitStatus)
    measurement period nr_cpus =
        ending (launch numbers errnos period w.pid w.stop (for_both w.rings nr_cpus) w.resumes)
        >>= λ l. lift in_run (measure abi ready_mask w.rounds w.final (events_of l.1)) >>= λ r.
            ending (finish_both w.reads (put_both l.1 r.0)) >>= λ ev. done (ev, r.1)

    -- What is printed behind the checks.
    pub conclude_with :
        Both ℕ
        → TextRange
        → (ℕ → Option Site)
        → Both (List SamplingEvent)
        → ℕ
        → Conclusion
        → Traced Why Output
    conclude_with period range resolve_ip ev code (measured samples) =
        let miss = classify_and_attribute resolve_ip samples.miss range in
        let access = classify_and_attribute resolve_ip samples.access range in
        done (record {
          reports = record {
            miss = event_report d ev.miss miss;
            access = event_report d ev.access access;
          };
          path = drain_path sorting (drain_times ready_mask w.rounds w.round_times);
          lost = total_lost ev;
          ranking =
              rank d sorting period
                (record { miss = miss.line_counts; access = access.line_counts });
          status = code;
        })
    conclude_with period range resolve_ip ev code c = halt (refused c)

    pub main : Traced Why Output
    main = lift in_setup (parse_args w.strtoll w.args) >>= λ a.
        found no_cpus (positive w.nproc) >>= λ nr_cpus.
        found no_text_range (get_target_text_range elf_abi w.elf_file) >>= λ range.
        found no_debug_info (dwarf_init w.dwfl) >>= λ resolve_ip. choose a.0 >>= λ period.
        measurement period nr_cpus >>= λ m.
        conclude_with period range resolve_ip (events_of m.0) (exit_code m.1)
          (check d (events_of m.0) (exit_code m.1))

    -- The status that the process ends with.
    pub status_of : Result Why Output → ℕ
    status_of (ok out) = out.status
    status_of (err why) = why_status why
