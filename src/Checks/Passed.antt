-- ===== src/Checks/Passed.antt =====
-- What passing the checks says, of any arithmetic on doubles.
use cache_lens.Prelude.{ℕ, ◌≡◌, ◌≢◌, refl, Option, none, some, ◌==◌, if◌then◌else◌, arith, List}
use cache_lens.Doubles.{Doubles}
use cache_lens.Perf.{RingLabel}
use cache_lens.Session.{Both, SamplingEvent}
use cache_lens.Checks.{
  Conclusion, never_armed, contended, wrong_period, measured, first_unarmed, first_wrong_period,
  combine, or_first, first_contended, check,
}
use cache_lens.Checks.Rings.{
  UnarmedOf, first_unarmed-UnarmedOf, WrongOf, first_wrong_period-WrongOf,
}
use cache_lens.Checks.Right.{AllArmed, EveryPeriod}

abbrev pub Passed : Both (List SamplingEvent) → Conclusion → Type 0
Passed ev (measured samples) =
    AllArmed ev
    × EveryPeriod ev
    × (samples ≡ record { miss = combine ev.miss; access = combine ev.access })
Passed ev (never_armed l status) = status ≢ 0
Passed ev _ = Unit

module _ (d : Doubles) (ev : Both (List SamplingEvent)) (code : ℕ) where
  by_period :
      (m a : Option Conclusion)
      → AllArmed ev
      → WrongOf 0 ev.miss m
      → WrongOf 1 ev.access a
      → Passed ev (elim (or_first m a) [
        | some wrong ↦ wrong
        | none ↦ measured (record { miss = combine ev.miss; access = combine ev.access })
      ])
  unfolding or_first
  by_period none none armed p q = (armed, (p, q), refl)
  by_period none (some (wrong_period l r q)) armed p x = tt
  by_period (some (wrong_period l r q)) a armed x p = tt
  by_period none (some _) armed p x = absurd x
  by_period (some _) a armed x p = absurd x

  by_time :
      (o : Option ℕ)
      → AllArmed ev
      → Passed ev (elim o [
        | some event ↦ contended event
        | none ↦ elim (or_first (first_wrong_period 0 ev.miss) (first_wrong_period 1 ev.access)) [
          | some wrong ↦ wrong
          | none ↦ measured (record { miss = combine ev.miss; access = combine ev.access })
        ]
      ])
  by_time (some event) armed = tt
  by_time none armed =
      by_period (first_wrong_period 0 ev.miss) (first_wrong_period 1 ev.access) armed
        (first_wrong_period-WrongOf 0 ev.miss) (first_wrong_period-WrongOf 1 ev.access)

  status_shows : (if code == 0 then 1 else code) ≢ 0
  status_shows = ground arith

  pub check-Passed : Passed ev (check d ev code)
  unfolding check or_first
  check-Passed =
      by_arms (first_unarmed 0 ev.miss) (first_unarmed 1 ev.access)
        (first_unarmed-UnarmedOf 0 ev.miss) (first_unarmed-UnarmedOf 1 ev.access)
    where
      by_arms :
          (m a : Option RingLabel)
          → UnarmedOf 0 ev.miss m
          → UnarmedOf 1 ev.access a
          → Passed ev (elim (or_first m a) [
            | some label ↦ never_armed label (if code == 0 then 1 else code)
            | none ↦ elim (first_contended d ev) [
              | some event ↦ contended event
              | none ↦
                  elim (or_first (first_wrong_period 0 ev.miss) (first_wrong_period 1 ev.access)) [
                    | some wrong ↦ wrong
                    | none ↦
                        measured (record { miss = combine ev.miss; access = combine ev.access })
                  ]
            ]
          ])
      by_arms none none p q = by_time (first_contended d ev) (p, q)
      by_arms none (some l) p x = status_shows
      by_arms (some l) a x p = status_shows
