-- ===== src/Drain/Notes.antt =====
-- What the samples and the histogram are after an event has been noted.
use cache_lens.Prelude.{◌⊎◌, inl, inr, ◌≡◌, refl, sym, List, ◌∷◌, ◌++◌, arith, append-nil, ok, err}
use cache_lens.Perf.{RingLabel, throttled}
use cache_lens.Drain.{Drained}
use cache_lens.Drain.Records.{
  Event, Rec, sample, lost, exit, throttle, unthrottle, other, IsCalm, sample_part, counted,
  FitsHistogram,
}
use cache_lens.Drain.Step.{noted, outcome}

pub samples-noted : (e : Event) (d : Drained) → (noted e d).samples ≡ d.samples ++ sample_part e
samples-noted (sample s) d = refl
samples-noted (lost id n) d = sym (append-nil d.samples)
samples-noted _ d = sym (append-nil d.samples)

pub FitsHistogram-noted :
    (e : Event) (d : Drained) → FitsHistogram d.hist → FitsHistogram (noted e d).hist
FitsHistogram-noted (sample s) d f = omega arith
FitsHistogram-noted (lost id n) d f = omega arith
FitsHistogram-noted _ d f = omega arith

pub counted-noted :
    (r : Rec) (rs : List Rec) (d : Drained)
    → FitsHistogram d.hist
    → counted rs (noted r.event d).hist ≡ counted (r ∷ rs) d.hist
counted-noted r rs d f = by_event r.event
  where
    by_event :
        (e : Event) → counted rs (noted e d).hist ≡ counted (record r { event = e } ∷ rs) d.hist
    by_event (sample s) = ground arith
    by_event _ = ground arith

pub outcome_of_IsCalm :
    (label : RingLabel) (e : Event) (d : Drained) → IsCalm e → outcome label e d ≡ ok (noted e d)
outcome_of_IsCalm label (sample s) d c = refl
outcome_of_IsCalm label (lost id n) d c = refl
outcome_of_IsCalm label exit d c = refl
outcome_of_IsCalm label (other k) d c = refl
outcome_of_IsCalm label throttle d c = absurd c
outcome_of_IsCalm label unthrottle d c = absurd c

pub outcome-cases :
    (label : RingLabel) (e : Event) (d : Drained)
    → (outcome label e d ≡ ok (noted e d)) ⊎ (outcome label e d ≡ err (throttled label))
outcome-cases label throttle d = inr refl
outcome-cases label unthrottle d = inr refl
outcome-cases label (sample s) d = inl refl
outcome-cases label (lost id n) d = inl refl
outcome-cases label exit d = inl refl
outcome-cases label (other k) d = inl refl

pub outcome_of_not_IsCalm :
    (label : RingLabel) (e : Event) (d : Drained)
    → ¬ IsCalm e
    → outcome label e d ≡ err (throttled label)
outcome_of_not_IsCalm label throttle d h = refl
outcome_of_not_IsCalm label unthrottle d h = refl
outcome_of_not_IsCalm label (sample s) d h = absurd (h tt)
outcome_of_not_IsCalm label (lost id n) d h = absurd (h tt)
outcome_of_not_IsCalm label exit d h = absurd (h tt)
outcome_of_not_IsCalm label (other k) d h = absurd (h tt)
