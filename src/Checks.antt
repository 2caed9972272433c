-- ===== src/Checks.antt =====
-- src/main.cpp: the end of the measurement run in `main`, from `finish_sampling` to the samples of all
-- rings together, with the conditions under which the program refuses to go on.
--
-- What read(2) returns for a ring's counter is none where it falls short.
pub mod Rings
pub mod Right
pub mod Passed
mod Tests
use cache_lens.Prelude.{
  ℕ, ◌+◌, Bool, true, false, Option, none, some, List, [], ◌∷◌, ◌++◌, ltb, ◌==◌, if◌then◌else◌,
  Result, ok, err, ◌>>=◌,
}
use cache_lens.Prelude.Words.{u64}
use cache_lens.Doubles.{Doubles}
use cache_lens.Perf.{Sample, RingLabel}
use cache_lens.Session.{Both, CountReadFormat, SamplingEvent, event_miss, event_access}

-- How `main` goes on behind the measurement run, with the value it returns where it ends.
pub data Conclusion : Type 0 where
  read_failed : Conclusion
  never_armed : RingLabel → (status : ℕ) → Conclusion
  contended : (event : ℕ) → Conclusion
  wrong_period : RingLabel → (reported requested : ℕ) → Conclusion
  measured : Both (List Sample) → Conclusion

-- `finish_sampling` for each ring of an event.
unfoldable pub finish_rings :
    List (Option CountReadFormat) → List SamplingEvent → Option (List SamplingEvent)
finish_rings cs [] = some []
finish_rings [] (e ∷ es) = none
finish_rings (none ∷ cs) (e ∷ es) = none
finish_rings (some c ∷ cs) (e ∷ es) = elim (finish_rings cs es) [
  | none ↦ none
  | some es' ↦ some (record e { counts = c } ∷ es')
]

label_of : ℕ → SamplingEvent → RingLabel
label_of event e = record { event = event; cpu = e.cpu }

-- The first ring whose `time_enabled` is 0.
pub first_unarmed : ℕ → List SamplingEvent → Option RingLabel
unfolding label_of
first_unarmed event [] = none
first_unarmed event (e ∷ es) =
    if e.counts.time_enabled == 0 then some (label_of event e) else first_unarmed event es

-- `total_running` and `time_enabled` behind the loop over the rings.
pub total_running : ℕ → List SamplingEvent → ℕ
total_running total [] = total
total_running total (e ∷ es) = total_running (u64 (total + e.counts.time_running)) es

pub last_enabled : ℕ → List SamplingEvent → ℕ
last_enabled last [] = last
last_enabled last (e ∷ es) = last_enabled e.counts.time_enabled es

-- The first sample of a list whose period is not the requested one.
pub first_period : ℕ → List Sample → Option ℕ
first_period requested [] = none
first_period requested (s ∷ ss) =
    if s.period == requested then first_period requested ss else some s.period

-- The first ring with such a sample.
pub first_wrong_period : ℕ → List SamplingEvent → Option Conclusion
unfolding label_of
first_wrong_period event [] = none
first_wrong_period event (e ∷ es) = elim (first_period e.requested_period e.drained.samples) [
  | some reported ↦ some (wrong_period (label_of event e) reported e.requested_period)
  | none ↦ first_wrong_period event es
]

-- `combined_samples[i]`
unfoldable pub combine : List SamplingEvent → List Sample
combine [] = []
combine (e ∷ es) = e.drained.samples ++ combine es

pub or_first : {A : Type 0} → Option A → Option A → Option A
or_first none b = b
or_first (some a) b = some a

module _ (d : Doubles) where
  open d use {of_nat, div, decimal, less}

  -- `frac < 0.99` for one event
  pub is_contended : List SamplingEvent → Bool
  is_contended es =
      let running = total_running 0 es in
      let enabled = last_enabled 0 es in
      let frac = if ltb 0 enabled then div (of_nat running) (of_nat enabled) else decimal 0 0 in
      less frac (decimal 99 2)

  pub first_contended : Both (List SamplingEvent) → Option ℕ
  first_contended ev =
      if is_contended ev.miss
      then some event_miss
      else if is_contended ev.access
      then some event_access
      else none

  -- The three checks, one after the other, and the samples put together.
  pub check : Both (List SamplingEvent) → ℕ → Conclusion
  check ev code =
      elim (or_first (first_unarmed event_miss ev.miss) (first_unarmed event_access ev.access)) [
        | some label ↦ never_armed label (if code == 0 then 1 else code)
        | none ↦ elim (first_contended ev) [
          | some event ↦ contended event
          | none ↦
              elim (or_first (first_wrong_period event_miss ev.miss)
                (first_wrong_period event_access ev.access)) [
                  | some wrong ↦ wrong
                  | none ↦ measured (record { miss = combine ev.miss; access = combine ev.access })
                ]
        ]
      ]

  pub conclude : Both (List (Option CountReadFormat)) → Both (List SamplingEvent) → ℕ → Conclusion
  conclude reads ev code = elim (finish_rings reads.miss ev.miss) [
    | none ↦ read_failed
    | some miss ↦ elim (finish_rings reads.access ev.access) [
      | none ↦ read_failed
      | some access ↦ check (record { miss = miss; access = access }) code
    ]
  ]
