-- ===== src/Checks/Right.antt =====
-- When `main` goes on behind the measurement run, and why it does not.
use cache_lens.Prelude.{
  ap, ℕ, ◌*◌, ◌≤◌, ◌<◌, ◌≡◌, ◌≢◌, ◌⊎◌, refl, sym, ◌∙◌, inl, inr, Option, none, some, List, ◌==◌,
  Bool-cases, if◌then◌else◌, All, Any, All-Any, arith,
}
use cache_lens.Doubles.{Doubles, IsRounded}
use cache_lens.Perf.{RingLabel}
use cache_lens.Session.{Both, SamplingEvent}
use cache_lens.Checks.{
  last_enabled, Conclusion, read_failed, never_armed, contended, wrong_period, measured,
  first_unarmed, first_wrong_period, combine, or_first, is_contended, first_contended, check,
}
use cache_lens.Checks.Rings.{
  HasPeriod, IsArmed, AllPeriods, Unarmed, UnarmedOf, first_unarmed-UnarmedOf, running_sum,
  Mismatched, WrongOf, first_wrong_period-WrongOf, CountsFit, RanTooLittle,
  RanTooLittle-of_contended,
}

abbrev pub AllArmed : Both (List SamplingEvent) → Type 0
AllArmed ev = All IsArmed ev.miss × All IsArmed ev.access

abbrev pub EveryPeriod : Both (List SamplingEvent) → Type 0
EveryPeriod ev = AllPeriods ev.miss × AllPeriods ev.access

abbrev pub BothFit : Both (List SamplingEvent) → Type 0
BothFit ev = CountsFit ev.miss × CountsFit ev.access

-- Each conclusion with what it says of the rings.
abbrev pub IsRight : Both (List SamplingEvent) → ℕ → Conclusion → Type 0
IsRight ev code read_failed = ⊥
IsRight ev code (never_armed l status) =
    (Any (Unarmed 0 l) ev.miss ⊎ Any (Unarmed 1 l) ev.access)
    × (status ≢ 0)
    × (code ≢ 0 → status ≡ code)
IsRight ev code (contended event) =
    AllArmed ev × (((event ≡ 0) × RanTooLittle ev.miss) ⊎ ((event ≡ 1) × RanTooLittle ev.access))
IsRight ev code (wrong_period l reported requested) =
    AllArmed ev
    × (Any (Mismatched 0 l reported requested) ev.miss
        ⊎ Any (Mismatched 1 l reported requested) ev.access)
IsRight ev code (measured samples) =
    AllArmed ev
    × EveryPeriod ev
    × (samples ≡ record { miss = combine ev.miss; access = combine ev.access })

status_right :
    (code : ℕ)
    → let status = if code == 0 then 1 else code in (status ≢ 0) × (code ≢ 0 → status ≡ code)
status_right code = ground arith

module _ (d : Doubles) (rounded : IsRounded d) (ev : Both (List SamplingEvent)) (code : ℕ)
    (fit : BothFit ev) where
  by_period :
      (m a : Option Conclusion)
      → AllArmed ev
      → WrongOf 0 ev.miss m
      → WrongOf 1 ev.access a
      → IsRight ev code (elim (or_first m a) [
        | some wrong ↦ wrong
        | none ↦ measured (record { miss = combine ev.miss; access = combine ev.access })
      ])
  unfolding or_first
  by_period none none armed p q = (armed, (p, q), refl)
  by_period none (some (wrong_period l r q)) armed p x = (armed, inr x)
  by_period (some (wrong_period l r q)) a armed x p = (armed, inl x)
  by_period none (some _) armed p x = absurd x
  by_period (some _) a armed x p = absurd x

  by_time :
      AllArmed ev
      → IsRight ev code (elim (first_contended d ev) [
        | some event ↦ contended event
        | none ↦ elim (or_first (first_wrong_period 0 ev.miss) (first_wrong_period 1 ev.access)) [
          | some wrong ↦ wrong
          | none ↦ measured (record { miss = combine ev.miss; access = combine ev.access })
        ]
      ])
  unfolding first_contended
  by_time armed = elim (Bool-cases (is_contended d ev.miss)) [
    | inl m ↦ rw m (armed, inl (refl, RanTooLittle-of_contended d rounded ev.miss fit.0 m))
    | inr m ↦ elim (Bool-cases (is_contended d ev.access)) [
      | inl a ↦ rw (m, a) (armed, inr (refl, RanTooLittle-of_contended d rounded ev.access fit.1 a))
      | inr a ↦
          rw (m, a)
            (by_period (first_wrong_period 0 ev.miss) (first_wrong_period 1 ev.access) armed
              (first_wrong_period-WrongOf 0 ev.miss) (first_wrong_period-WrongOf 1 ev.access))
    ]
  ]

  -- The checks behind a measurement run. They let it pass only if every ring was armed and every sample
  -- has the period that was requested, and hand on the samples of all rings, in the rings' order. A ring
  -- is named as never armed only if its time is 0, and the status is then not 0 and, if the target's
  -- was not, the target's; an event is refused only if its threads ran less than 99 % of the time,
  -- over all its rings; and a period is refused only if a sample of the named ring has another than
  -- was requested. The running times of an event add up to less than 2 ^ 53.
  pub check-IsRight : IsRight ev code (check d ev code)
  unfolding check or_first
  check-IsRight =
      by_arms (first_unarmed 0 ev.miss) (first_unarmed 1 ev.access)
        (first_unarmed-UnarmedOf 0 ev.miss) (first_unarmed-UnarmedOf 1 ev.access)
    where
      by_arms :
          (m a : Option RingLabel)
          → UnarmedOf 0 ev.miss m
          → UnarmedOf 1 ev.access a
          → IsRight ev code (elim (or_first m a) [
            | some label ↦ never_armed label (if code == 0 then 1 else code)
            | none ↦ elim (first_contended d ev) [
              | some event ↦ contended event
              | none ↦
                  elim (or_first (first_wrong_period 0 ev.miss) (first_wrong_period 1 ev.access)) [
                    | some wrong ↦ wrong
                    | none ↦
                        measured (record { miss = combine ev.miss; access = combine ev.access })
                  ]
            ]
          ])
      by_arms none none p q = by_time (p, q)
      by_arms none (some l) p x = (inr x, (status_right code).0, (status_right code).1)
      by_arms (some l) a x p = (inl x, (status_right code).0, (status_right code).1)

  -- The threads ran for at least 99 % of the time, over an event's rings.
  abbrev RanEnough : List SamplingEvent → Type 0
  RanEnough es = (0 < last_enabled 0 es) × (99 * last_enabled 0 es ≤ 100 * running_sum es)

  -- The checks let a run pass whose rings were all armed, whose threads ran at least 99 % of the time
  -- for each event, over all its rings, and whose samples all have the period requested: however
  -- little of it each single ring saw. The running times of an event add up to less than 2 ^ 53.
  pub check_passes :
      AllArmed ev
      → EveryPeriod ev
      → RanEnough ev.miss
      → RanEnough ev.access
      → check d ev code ≡ measured (record { miss = combine ev.miss; access = combine ev.access })
  check_passes armed periods m a = passes (check d ev code) check-IsRight
    where
      not_unarmed :
          (event : ℕ) (l : RingLabel) (es : List SamplingEvent)
          → All IsArmed es
          → Any (Unarmed event l) es
          → ⊥
      not_unarmed event l es p q = All-Any IsArmed (Unarmed event l) ⊥ es p q (λ e x y. x y.1)

      not_mismatched :
          (event : ℕ) (l : RingLabel) (r q : ℕ) (es : List SamplingEvent)
          → AllPeriods es
          → Any (Mismatched event l r q) es
          → ⊥
      not_mismatched event l r q es p x =
          All-Any (λ e. All (HasPeriod e) e.drained.samples) (Mismatched event l r q) ⊥ es p x
            (λ e u v.
              All-Any (HasPeriod e) (λ s. s.period ≡ r) ⊥ e.drained.samples u v.3
                (λ s i j. v.2 (sym j ∙ i ∙ sym v.1)))

      passes :
          (c : Conclusion)
          → IsRight ev code c
          → c ≡ measured (record { miss = combine ev.miss; access = combine ev.access })
      passes read_failed x = absurd x
      passes (never_armed l st) (inl x, _, _) = absurd (not_unarmed 0 l ev.miss armed.0 x)
      passes (never_armed l st) (inr x, _, _) = absurd (not_unarmed 1 l ev.access armed.1 x)
      passes (contended event) (_, inl x) = absurd (omega arith)
      passes (contended event) (_, inr x) = absurd (omega arith)
      passes (wrong_period l r q) (_, inl x) = absurd (not_mismatched 0 l r q ev.miss periods.0 x)
      passes (wrong_period l r q) (_, inr x) = absurd (not_mismatched 1 l r q ev.access periods.1 x)
      passes (measured s) (_, _, e) = ap measured e
