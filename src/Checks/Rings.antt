-- ===== src/Checks/Rings.antt =====
-- What the loops over one event's rings find.
use native.Mathlib.Nat.{zero-add}
use cache_lens.Prelude.{
  ℕ, ◌+◌, ◌*◌, ◌^◌, ◌≤◌, ◌<◌, ◌≡◌, ◌≢◌, ◌⊎◌, refl, ◌∙◌, inl, inr, true, false, Option, none, some,
  List, [], ◌∷◌, ltb, ltb→lt, ltb-false, lt→ltb, ◌==◌, ==_iff, ==-ne, Bool-cases, All, Any, arith,
}
use cache_lens.Prelude.Words.{u64}
use cache_lens.Doubles.{Doubles, IsRounded}
use cache_lens.Perf.{Sample, RingLabel}
use cache_lens.Session.{SamplingEvent}
use cache_lens.Checks.{
  Conclusion, wrong_period, first_unarmed, total_running, last_enabled, first_period,
  first_wrong_period, is_contended,
}

abbrev pub IsArmed : SamplingEvent → Type 0
IsArmed e = e.counts.time_enabled ≢ 0

abbrev pub HasPeriod : SamplingEvent → Sample → Type 0
HasPeriod e s = s.period ≡ e.requested_period

abbrev pub AllPeriods : List SamplingEvent → Type 0
AllPeriods es = All (λ e. All (HasPeriod e) e.drained.samples) es

abbrev pub ring_name : ℕ → SamplingEvent → RingLabel
ring_name event e = record { event = event; cpu = e.cpu }

-- The ring of that name never armed.
abbrev pub Unarmed : ℕ → RingLabel → SamplingEvent → Type 0
Unarmed event l e = (l ≡ ring_name event e) × (e.counts.time_enabled ≡ 0)

abbrev pub UnarmedOf : ℕ → List SamplingEvent → Option RingLabel → Type 0
UnarmedOf event es none = All IsArmed es
UnarmedOf event es (some l) = Any (Unarmed event l) es

pub first_unarmed-UnarmedOf :
    (event : ℕ) (es : List SamplingEvent) → UnarmedOf event es (first_unarmed event es)
unfolding first_unarmed
first_unarmed-UnarmedOf event [] = tt
first_unarmed-UnarmedOf event (e ∷ es) = elim (Bool-cases (e.counts.time_enabled == 0)) [
  | inl zero_time ↦ rw zero_time (inl (refl, (==_iff e.counts.time_enabled 0).0 zero_time))
  | inr armed ↦ rw armed (
      more (==-ne e.counts.time_enabled 0 armed) (first_unarmed event es)
        (first_unarmed-UnarmedOf event es))
]
  where
    more : IsArmed e → (o : Option RingLabel) → UnarmedOf event es o → UnarmedOf event (e ∷ es) o
    more a none h = (a, h)
    more a (some l) h = inr h

abbrev pub running_sum : List SamplingEvent → ℕ
running_sum [] = 0
running_sum (e ∷ es) = e.counts.time_running + running_sum es

pub total_running_lem :
    (total : ℕ) (es : List SamplingEvent)
    → total + running_sum es < 2 ^ 64
    → total_running total es ≡ total + running_sum es
unfolding total_running
total_running_lem total [] h = omega arith
total_running_lem total (e ∷ es) h =
    total_running_lem (u64 (total + e.counts.time_running)) es (omega arith) ∙ omega arith

-- A sample of the ring of that name reports another period than was requested.
abbrev pub Mismatched : ℕ → RingLabel → ℕ → ℕ → SamplingEvent → Type 0
Mismatched event l reported requested e =
    (l ≡ ring_name event e)
    × (requested ≡ e.requested_period)
    × (reported ≢ requested)
    × Any (λ s. s.period ≡ reported) e.drained.samples

abbrev PeriodOf : ℕ → List Sample → Option ℕ → Type 0
PeriodOf requested ss none = All (λ s. s.period ≡ requested) ss
PeriodOf requested ss (some reported) = (reported ≢ requested) × Any (λ s. s.period ≡ reported) ss

first_period-PeriodOf :
    (requested : ℕ) (ss : List Sample) → PeriodOf requested ss (first_period requested ss)
unfolding first_period
first_period-PeriodOf requested [] = tt
first_period-PeriodOf requested (s ∷ ss) = elim (Bool-cases (s.period == requested)) [
  | inl same ↦ rw same (
      more ((==_iff s.period requested).0 same) (first_period requested ss)
        (first_period-PeriodOf requested ss))
  | inr other ↦ rw other (==-ne s.period requested other, inl refl)
]
  where
    more :
        s.period ≡ requested
        → (o : Option ℕ) → PeriodOf requested ss o
        → PeriodOf requested (s ∷ ss) o
    more e none h = (e, h)
    more e (some reported) h = (h.0, inr h.1)

abbrev pub WrongOf : ℕ → List SamplingEvent → Option Conclusion → Type 0
WrongOf event es none = AllPeriods es
WrongOf event es (some (wrong_period l reported requested)) =
    Any (Mismatched event l reported requested) es
WrongOf event es (some _) = ⊥

WrongOf-more :
    (event : ℕ) (e : SamplingEvent) (es : List SamplingEvent) (o : Option Conclusion)
    → All (HasPeriod e) e.drained.samples
    → WrongOf event es o
    → WrongOf event (e ∷ es) o
WrongOf-more event e es none a h = (a, h)
WrongOf-more event e es (some (wrong_period l reported requested)) a h = inr h
WrongOf-more event e es (some _) a h = absurd h

pub first_wrong_period-WrongOf :
    (event : ℕ) (es : List SamplingEvent) → WrongOf event es (first_wrong_period event es)
unfolding first_wrong_period
first_wrong_period-WrongOf event [] = tt
first_wrong_period-WrongOf event (e ∷ es) =
    by_ring (first_period e.requested_period e.drained.samples)
      (first_period-PeriodOf e.requested_period e.drained.samples)
      (first_wrong_period-WrongOf event es)
  where
    by_ring :
        (o : Option ℕ)
        → PeriodOf e.requested_period e.drained.samples o
        → WrongOf event es (first_wrong_period event es)
        → WrongOf event (e ∷ es) (elim o [
          | some reported ↦ some (wrong_period (ring_name event e) reported e.requested_period)
          | none ↦ first_wrong_period event es
        ])
    by_ring none a rest = WrongOf-more event e es (first_wrong_period event es) a rest
    by_ring (some reported) h rest = inl (refl, refl, h.0, h.1)

-- The rings' counters fit: the running times add up to less than 2 ^ 53, and so does the time that
-- each shows as enabled.
abbrev pub CountsFit : List SamplingEvent → Type 0
CountsFit es = (running_sum es < 2 ^ 53) × (last_enabled 0 es < 2 ^ 53)

-- The threads ran for less than 99 % of the time.
abbrev pub RanTooLittle : List SamplingEvent → Type 0
RanTooLittle es = (last_enabled 0 es ≡ 0) ⊎ (100 * running_sum es < 99 * last_enabled 0 es)

module _ (d : Doubles) (rounded : IsRounded d) where
  pub is_contended_of_running :
      (es : List SamplingEvent)
      → CountsFit es
      → 0 < last_enabled 0 es
      → 99 * last_enabled 0 es ≤ 100 * running_sum es
      → is_contended d es ≡ false
  unfolding is_contended
  is_contended_of_running es fit on enough =
      rw
        (
          is_contended,
          lt→ltb 0 (last_enabled 0 es) on,
          total_running_lem 0 es (omega arith),
          zero-add (running_sum es),
        )
        (rounded.quotient_not_less (running_sum es) (last_enabled 0 es) 99 2 fit.0 fit.1 on
          (omega arith))

  pub RanTooLittle-of_contended :
      (es : List SamplingEvent) → CountsFit es → is_contended d es ≡ true → RanTooLittle es
  RanTooLittle-of_contended es fit h = elim (Bool-cases (ltb 0 (last_enabled 0 es))) [
    | inr off ↦ inl (omega (arith, ltb-false 0 (last_enabled 0 es) off))
    | inl on ↦ elim (Bool-cases (ltb (100 * running_sum es) (99 * last_enabled 0 es))) [
      | inl little ↦ inr (ltb→lt (100 * running_sum es) (99 * last_enabled 0 es) little)
      | inr enough ↦ cc (
        h,
        is_contended_of_running es fit (ltb→lt 0 (last_enabled 0 es) on)
            (ltb-false (100 * running_sum es) (99 * last_enabled 0 es) enough),
      )
    ]
  ]
