-- ===== src/Setup/Chosen.antt =====
-- The periods that are chosen, or why none are.
use cache_lens.Prelude.{
  ℕ, ◌<◌, ◌≡◌, ◌≢◌, refl, subst, ap, Option, none, some, Result, ok, err, ◌>>=◌, arith,
}
use cache_lens.Keys.Order.{ℤ, pos}
use cache_lens.Doubles.{Doubles, IsRounded}
use cache_lens.Prime.Nearest.{IsNearest}
use cache_lens.Session.{Both, CountReadFormat}
use cache_lens.Setup.{
  Halt, period_needs_value, bad_period, usage, cannot_open_rate, bad_rate, open_failed,
  resume_failed, short_read, never_reached_exec, contended_calibration, no_prime, positive,
  RateFile, no_file, unread, rate_read, max_rate, CalibrationRun, calibrate_both, raw_period,
  period_of, choose_periods,
}
use cache_lens.Setup.Arguments.{PositiveOf, positive-PositiveOf}
use cache_lens.Setup.Calibrated.{
  TimesFit, PrimeNear, IsRate, RatesOf, calibrate_both-RatesOf, period_of_lem,
}

abbrev pub NearFor : Doubles → ℕ → RateFile → CalibrationRun → Type 0
NearFor d fuel (rate_read (pos m)) run =
    PrimeNear d fuel m run.reads.miss × PrimeNear d fuel m run.reads.access
NearFor d fuel _ run = Unit

abbrev RateOf : RateFile → Result Halt ℕ → Type 0
RateOf file (ok m) = (file ≡ rate_read (pos m)) × (0 < m)
RateOf file (err cannot_open_rate) = file ≡ no_file
RateOf file (err bad_rate) = (n : ℕ) → 0 < n → file ≢ rate_read (pos n)
RateOf file (err _) = ⊥

number : RateFile → ℕ
number (rate_read (pos n)) = n
number _ = 0

number_read : RateFile → ℤ
number_read (rate_read z) = z
number_read _ = pos 0

max_rate-RateOf : (file : RateFile) → RateOf file (max_rate file)
unfolding max_rate number number_read
max_rate-RateOf no_file = refl
max_rate-RateOf unread = λ n above e. omega (arith, ap number e)
max_rate-RateOf (rate_read z) = by_value (positive z) (positive-PositiveOf z)
  where
    by_value :
        (o : Option ℕ)
        → PositiveOf z o
        → RateOf (rate_read z) (elim o [ none ↦ err bad_rate | some m ↦ ok m ])
    by_value none p = λ n above e. p n above (ap number_read e)
    by_value (some m) p = (ap rate_read p.0, p.1)

module _ (d : Doubles) where
  -- A period of the calibration run: the prime nearest to the quotient of the two rates.
  abbrev pub IsCalibrated : ℕ → Option CountReadFormat → ℕ → Type 0
  IsCalibrated m o q = (r : d.Double) × IsRate d o r × IsNearest (raw_period d m r) q

  abbrev pub ChosenOf : Option ℕ → RateFile → CalibrationRun → Result Halt (Both ℕ) → Type 0
  ChosenOf (some n) file run o = o ≡ ok (record { miss = n; access = n })
  ChosenOf none file run (ok period) =
      (m : ℕ) × (file ≡ rate_read (pos m))
      × (0 < m)
      × IsCalibrated m run.reads.miss period.miss
      × IsCalibrated m run.reads.access period.access
  ChosenOf none file run (err cannot_open_rate) = file ≡ no_file
  ChosenOf none file run (err bad_rate) = (n : ℕ) → 0 < n → file ≢ rate_read (pos n)
  ChosenOf none file run (err period_needs_value) = ⊥
  ChosenOf none file run (err bad_period) = ⊥
  ChosenOf none file run (err usage) = ⊥
  ChosenOf none file run (err no_prime) = ⊥
  ChosenOf none file run (err why) = RatesOf d run (err why)

  module _ (rounded : IsRounded d) (fuel : ℕ) (file : RateFile) (run : CalibrationRun)
      (near : NearFor d fuel file run) (fit_miss : TimesFit run.reads.miss)
      (fit_access : TimesFit run.reads.access) where
    by_rates :
        (m : ℕ)
        → file ≡ rate_read (pos m)
        → 0 < m
        → (r : Result Halt (Both d.Double)) → RatesOf d run r
        → ChosenOf none file run (
            r >>= λ r'. period_of d fuel m r'.miss >>= λ miss.
            period_of d fuel m r'.access >>= λ access. ok (record { miss = miss; access = access }))
    by_rates m e above (ok r) p =
        let nears = subst (λ f. NearFor d fuel f run) e near in
        let (q, found, nearest) = period_of_lem d fuel m run.reads.miss r.miss p.0 nears.0 in
        let (q', found', nearest') = period_of_lem d fuel m run.reads.access r.access p.1 nears.1 in
        rw (found, found') (m, e, above, (r.miss, p.0, nearest), (r.access, p.1, nearest'))
    by_rates m e above (err (open_failed event)) p = p
    by_rates m e above (err resume_failed) p = p
    by_rates m e above (err short_read) p = p
    by_rates m e above (err never_reached_exec) p = p
    by_rates m e above (err contended_calibration) p = p
    by_rates m e above (err _) p = absurd p

    pub choose_periods-ChosenOf :
        (option : Option ℕ) → ChosenOf option file run (choose_periods d fuel option file run)
    unfolding choose_periods
    choose_periods-ChosenOf (some n) = refl
    choose_periods-ChosenOf none = by_file (max_rate file) (max_rate-RateOf file)
      where
        by_file :
            (o : Result Halt ℕ)
            → RateOf file o
            → ChosenOf none file run (
                o >>= λ m. calibrate_both d run >>= λ r. period_of d fuel m r.miss >>= λ miss.
                period_of d fuel m r.access >>= λ access.
                ok (record { miss = miss; access = access }))
        by_file (ok m) p =
            by_rates m p.0 p.1 (calibrate_both d run)
              (calibrate_both-RatesOf d rounded run fit_miss fit_access)
        by_file (err cannot_open_rate) p = p
        by_file (err bad_rate) p = p
        by_file (err _) p = absurd p
