-- ===== src/Setup/Calibrated.antt =====
-- The calibration run: what its rates rest on, and why it is refused.
use cache_lens.Prelude.{
  ℕ, ◌-◌, ◌*◌, ◌^◌, ◌≤◌, ◌<◌, ◌≡◌, ◌≢◌, ◌⊎◌, refl, sym, ◌∙◌, subst, inl, inr, Bool, true, false,
  not, Option, none, some, ltb, ltb-false, ◌==◌, ==_iff, ==-ne, if◌then◌else◌, Bool-cases, Result,
  ok, err, ◌>>=◌, arith,
}
use cache_lens.Doubles.{Doubles, IsRounded}
use cache_lens.Prime.{nearest_prime}
use cache_lens.Prime.Divisors.{IsPrime}
use cache_lens.Prime.Nearest.{IsNearest, Finds, nearest_prime-Finds}
use cache_lens.Session.{Both, CountReadFormat}
use cache_lens.Setup.{
  Halt, open_failed, resume_failed, short_read, never_reached_exec, contended_calibration,
  CalibrationRun, rate, fraction, calibrate_one, calibrate_both, raw_period, period_of,
}

-- The times of a counter are exact as doubles.
abbrev pub TimesFit : Option CountReadFormat → Type 0
TimesFit none = Unit
TimesFit (some c) = (c.time_running < 2 ^ 53) × (c.time_enabled < 2 ^ 53)

abbrev pub NeverRan : Option CountReadFormat → Type 0
NeverRan none = ⊥
NeverRan (some c) = c.time_enabled ≡ 0

-- The counter ran for less than 99 % of its time.
abbrev pub RanShort : Option CountReadFormat → Type 0
RanShort none = ⊥
RanShort (some c) = 100 * c.time_running < 99 * c.time_enabled

-- A prime that the rounds of the search reach.
abbrev pub PrimeWithin : ℕ → ℕ → Type 0
PrimeWithin fuel n = (p : ℕ) × (n ≤ p) × (p < 2 ^ 63) × IsPrime p × (p - n < fuel)

module _ (d : Doubles) where
  open d use {Double, decimal, less}

  abbrev pub PrimeNear : ℕ → ℕ → Option CountReadFormat → Type 0
  PrimeNear fuel m none = Unit
  PrimeNear fuel m (some c) = PrimeWithin fuel (raw_period d m (rate d c))

  -- A rate that stands for the counter, which ran.
  abbrev pub IsRate : Option CountReadFormat → Double → Type 0
  IsRate o r =
      (c : CountReadFormat) × (o ≡ some c)
      × (c.time_enabled ≢ 0)
      × (less (fraction d c) (decimal 99 2) ≡ false)
      × (r ≡ rate d c)

  abbrev pub OneOf : Option CountReadFormat → Result Halt Double → Type 0
  OneOf o (ok r) = IsRate o r
  OneOf o (err short_read) = o ≡ none
  OneOf o (err never_reached_exec) = NeverRan o
  OneOf o (err contended_calibration) = RanShort o
  OneOf o (err _) = ⊥

  module _ (rounded : IsRounded d) where
    short_of_less :
        (c : CountReadFormat)
        → c.time_enabled ≢ 0
        → TimesFit (some c)
        → less (fraction d c) (decimal 99 2) ≡ true
        → RanShort (some c)
    unfolding fraction
    short_of_less c ran fit h =
        elim (Bool-cases (ltb (100 * c.time_running) (99 * c.time_enabled))) [
          | inl short ↦ ground arith
          | inr long ↦ absurd (
              true_not_false (
                sym h
                ∙ IsRounded.quotient_not_less rounded (c.time_running) (c.time_enabled) 99 2 fit.0
                    fit.1 (omega arith)
                    (omega (arith, ltb-false (100 * c.time_running) (99 * c.time_enabled) long))))
        ]
      where
        true_not_false : ¬ (true ≡ false)
        true_not_false e = ground arith

    calibrate_one-OneOf : (o : Option CountReadFormat) → TimesFit o → OneOf o (calibrate_one d o)
    unfolding calibrate_one
    calibrate_one-OneOf none fit = refl
    calibrate_one-OneOf (some c) fit = elim (Bool-cases (c.time_enabled == 0)) [
      | inl never ↦ rw never ((==_iff c.time_enabled 0).0 never)
      | inr ran ↦ elim (Bool-cases (less (fraction d c) (decimal 99 2))) [
        | inl short ↦ rw (ran, short) (short_of_less c (==-ne c.time_enabled 0 ran) fit short)
        | inr long ↦ rw (ran, long) (c, refl, ==-ne c.time_enabled 0 ran, long, refl)
      ]
    ]

  abbrev pub RatesOf : CalibrationRun → Result Halt (Both Double) → Type 0
  RatesOf run (ok r) = IsRate run.reads.miss r.miss × IsRate run.reads.access r.access
  RatesOf run (err (open_failed event)) =
      ((event ≡ 0) × (run.opened.miss ≡ false)) ⊎ ((event ≡ 1) × (run.opened.access ≡ false))
  RatesOf run (err resume_failed) = run.resumed ≡ false
  RatesOf run (err short_read) = (run.reads.miss ≡ none) ⊎ (run.reads.access ≡ none)
  RatesOf run (err never_reached_exec) = NeverRan run.reads.miss ⊎ NeverRan run.reads.access
  RatesOf run (err contended_calibration) = RanShort run.reads.miss ⊎ RanShort run.reads.access
  RatesOf run (err _) = ⊥

  both_rates :
      (run : CalibrationRun) (m a : Result Halt Double)
      → OneOf run.reads.miss m
      → OneOf run.reads.access a
      → RatesOf run (m >>= λ miss. a >>= λ access. ok (record { miss = miss; access = access }))
  both_rates run (ok x) (ok y) p q = (p, q)
  both_rates run (ok x) (err short_read) p q = inr q
  both_rates run (ok x) (err never_reached_exec) p q = inr q
  both_rates run (ok x) (err contended_calibration) p q = inr q
  both_rates run (ok x) (err _) p q = absurd q
  both_rates run (err short_read) a p q = inl p
  both_rates run (err never_reached_exec) a p q = inl p
  both_rates run (err contended_calibration) a p q = inl p
  both_rates run (err _) a p q = absurd p

  pub calibrate_both-RatesOf :
      (rounded : IsRounded d) (run : CalibrationRun)
      → TimesFit run.reads.miss
      → TimesFit run.reads.access
      → RatesOf run (calibrate_both d run)
  unfolding calibrate_both
  calibrate_both-RatesOf rounded run fit_miss fit_access =
      by_flags run.opened.miss run.opened.access run.resumed refl refl refl
    where
      by_flags :
          (x y z : Bool)
          → run.opened.miss ≡ x
          → run.opened.access ≡ y
          → run.resumed ≡ z
          → RatesOf run (
              if not x
              then err (open_failed 0)
              else if not y
              then err (open_failed 1)
              else if not z
              then err resume_failed
              else (calibrate_one d run.reads.miss >>= λ miss.
                  calibrate_one d run.reads.access >>= λ access.
                  ok (record { miss = miss; access = access })))
      by_flags false y z ex ey ez = inl (refl, ex)
      by_flags true false z ex ey ez = inr (refl, ey)
      by_flags true true false ex ey ez = ez
      by_flags true true true ex ey ez =
          both_rates run (calibrate_one d run.reads.miss) (calibrate_one d run.reads.access)
            (calibrate_one-OneOf rounded run.reads.miss fit_miss)
            (calibrate_one-OneOf rounded run.reads.access fit_access)

  -- The prime nearest to the period that gives the rate.
  pub period_of_lem :
      (fuel m : ℕ) (o : Option CountReadFormat) (r : Double)
      → IsRate o r
      → PrimeNear fuel m o
      → (q : ℕ) × (period_of d fuel m r ≡ ok q) × IsNearest (raw_period d m r) q
  unfolding period_of
  period_of_lem fuel m o r (c, e, ran, long, er) near =
      let (p, above, word, prime, close) =
        subst (λ x. PrimeWithin fuel (raw_period d m x)) (sym er)
          (subst (PrimeNear fuel m) e near) in
      by_search (nearest_prime fuel (raw_period d m r)) refl
        (nearest_prime-Finds fuel (raw_period d m r) p above word prime close)
    where
      by_search :
          (a : Option ℕ)
          → nearest_prime fuel (raw_period d m r) ≡ a
          → Finds (raw_period d m r) a
          → (q : ℕ) × (period_of d fuel m r ≡ ok q) × IsNearest (raw_period d m r) q
      by_search none e f = absurd f
      by_search (some q) e f = (q, rw (e, period_of), f)
