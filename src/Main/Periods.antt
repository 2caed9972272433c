-- ===== src/Main/Periods.antt =====
-- The choice of the periods with its system calls, against `choose_periods` of Setup.
use cache_lens.Prelude.{ℕ, ◌≡◌, refl, Option, none, some, List, Result, ok, err}
use cache_lens.Doubles.{Doubles}
use cache_lens.Session.{Both}
use cache_lens.Setup.{Halt, max_rate, period_of, choose_periods}
use cache_lens.Setup
use cache_lens.System.{PerfNumbers, Call}
use cache_lens.System.Post.{PostOrOf, PostOr, PostOr-bind}
use cache_lens.Elf.{ElfAbi}
use cache_lens.Perf.{PerfAbi}
use cache_lens.Launch.{Errnos}
use cache_lens.Ranking.{Sorting}
use cache_lens.Calibration
use cache_lens.Calibration.{CalibrationHalt, run_of}
use cache_lens.Calibration.Refine.{AsSetup, EndedAs, calibrate_both-AsSetup}
use cache_lens.Main.{Why, in_setup, in_calibration, World, lift, calibrated, choose}
use cache_lens.Main.Ends.{lift-ends}

calibrated-ends :
    {A : Type 0} (P : A → List Call → Type 0) (F : Why → Type 0) (G : CalibrationHalt → Type 0)
    (calls : List Call) (r : Result CalibrationHalt A)
    → ((h : CalibrationHalt) → G h → F (in_calibration h))
    → PostOrOf P G calls r
    → PostOrOf P F calls (lift in_calibration r).result
calibrated-ends P F G calls (ok a) f h = h
calibrated-ends P F G calls (err e) f h = f e h

module _ (d : Doubles) (abi : PerfAbi) (numbers : PerfNumbers) (errnos : Errnos) (elf_abi : ElfAbi)
    (sorting : Sorting) (ready_mask : ℕ) (w : World d) where
  abbrev pub chosen_for : Option ℕ → Result Halt (Both ℕ)
  chosen_for option = choose_periods d w.prime_fuel option w.rate_file (run_of w.calibration)

  module _ (m : ℕ) (r : Both (d.Double)) (em : max_rate w.rate_file ≡ ok m)
      (er : Setup.calibrate_both d (run_of w.calibration) ≡ ok r) where
    miss_refused : (h : Halt) → period_of d w.prime_fuel m r.miss ≡ err h → chosen_for none ≡ err h
    unfolding choose_periods
    miss_refused h q = rw (em, er, q) refl

    access_refused :
        (miss : ℕ) (h : Halt)
        → period_of d w.prime_fuel m r.miss ≡ ok miss
        → period_of d w.prime_fuel m r.access ≡ err h
        → chosen_for none ≡ err h
    unfolding choose_periods
    access_refused miss h p q = rw (em, er, p, q) refl

    both_chosen :
        (miss access : ℕ)
        → period_of d w.prime_fuel m r.miss ≡ ok miss
        → period_of d w.prime_fuel m r.access ≡ ok access
        → chosen_for none ≡ ok (record { miss = miss; access = access })
    unfolding choose_periods
    both_chosen miss access p q = rw (em, er, p, q) refl

  rate_refused : (h : Halt) → max_rate w.rate_file ≡ err h → chosen_for none ≡ err h
  unfolding choose_periods
  rate_refused h q = rw (q) refl

  option_chosen : (n : ℕ) → chosen_for (some n) ≡ ok (record { miss = n; access = n })
  unfolding choose_periods
  option_chosen n = refl

  module _ (F : Why → Type 0) where
    -- The periods that the program goes on with are those of `choose_periods`.
    pub choose-ends :
        (option : Option ℕ)
        → ((h : Halt) → chosen_for option ≡ err h → F (in_setup h))
        → ((h : CalibrationHalt)
            → option ≡ none
            → EndedAs numbers errnos d w.calibration h
            → F (in_calibration h))
        → PostOr
            (λ period calls. chosen_for option ≡ ok period)
            F
            (choose d abi numbers errnos elf_abi sorting ready_mask w option)
    unfolding choose
    choose-ends (some n) f g = option_chosen n
    choose-ends none f g =
        let run = Calibration.calibrate_both numbers errnos d w.calibration in
        PostOr-bind (λ m calls. max_rate w.rate_file ≡ ok m)
          (λ period calls. chosen_for none ≡ ok period) F (lift in_setup (max_rate w.rate_file)) _
          (lift-ends F in_setup (max_rate w.rate_file) (λ h q. f h (rate_refused h q)))
          (λ m _ em.
            PostOr-bind (AsSetup numbers errnos d w.calibration)
              (λ period calls. chosen_for none ≡ ok period) F (calibrated run) _
              (calibrated-ends (AsSetup numbers errnos d w.calibration) F
                (EndedAs numbers errnos d w.calibration) run.calls run.result (λ h x. g h refl x)
                (calibrate_both-AsSetup numbers errnos d w.calibration))
              (λ r _ c.
                PostOr-bind (λ miss calls. period_of d w.prime_fuel m r.miss ≡ ok miss)
                  (λ period calls. chosen_for none ≡ ok period) F
                  (lift in_setup (period_of d w.prime_fuel m r.miss)) _
                  (lift-ends F in_setup (period_of d w.prime_fuel m r.miss)
                    (λ h q. f h (miss_refused m r em c.0 h q)))
                  (λ miss _ p.
                    PostOr-bind (λ access calls. period_of d w.prime_fuel m r.access ≡ ok access)
                      (λ period calls. chosen_for none ≡ ok period) F
                      (lift in_setup (period_of d w.prime_fuel m r.access)) _
                      (lift-ends F in_setup (period_of d w.prime_fuel m r.access)
                        (λ h q. f h (access_refused m r em c.0 miss h p q)))
                      (λ access _ q. both_chosen m r em c.0 miss access p q))))
