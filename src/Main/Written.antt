-- ===== src/Main/Written.antt =====
-- The samples that the kernel has written, as the rings hold them at the end.
use cache_lens.Prelude.{ℕ, ◌+◌, ◌≡◌, refl, ◌∙◌, ap, Option, none, some, List, [], ◌∷◌, ◌++◌, map}
use cache_lens.Perf.{Sample, PerfAbi}
use cache_lens.Drain.Records.{samples_of}
use cache_lens.Session.{Both, SamplingEvent, CountReadFormat}
use cache_lens.Session.Ring.{Track, Has, HasAll}
use cache_lens.Session.Rings.{Each}
use cache_lens.Checks.{finish_rings, combine}
use cache_lens.Launch.{RingAnswer, Ring}
use cache_lens.Launch.Rings.{AreFresh}

-- The rings before the kernel has written anything.
abbrev pub fresh_track : RingAnswer → Track
fresh_track a = record { size = a.data_size; recs = [] }

abbrev pub fresh_tracks : Both (List RingAnswer) → Both (List Track)
fresh_tracks answers = record {
  miss = map fresh_track answers.miss;
  access = map fresh_track answers.access;
}

-- The samples among all that the kernel has written for an event.
abbrev pub written : List Track → List Sample
written [] = []
written (t ∷ ts) = samples_of t.recs ++ written ts

module _ (abi : PerfAbi) where
  pub AreFresh-Has :
      (period cpu : ℕ) (answers : List RingAnswer) (rs : List Ring)
      → AreFresh period cpu answers rs
      → Each (Has abi) (map fresh_track answers) (map (λ r. r.event) rs)
  AreFresh-Has period cpu [] [] h = tt
  AreFresh-Has period cpu [] (r ∷ rs) h = absurd h
  AreFresh-Has period cpu (a ∷ answers) [] h = absurd h
  AreFresh-Has period cpu (a ∷ answers) (r ∷ rs) h = (
    record { taken = []; left = []; parts = refl; sized = h.2; drained = h.3; calm = tt },
    AreFresh-Has period (cpu + 1) answers rs h.4,
  )

  -- Reading the counts leaves alone what was drained.
  abbrev pub CountedOf : List Track → Option (List SamplingEvent) → Type 0
  CountedOf ts none = Unit
  CountedOf ts (some es) = Each (HasAll abi) ts es

  pub finish_rings-Has :
      (cs : List (Option CountReadFormat)) (ts : List Track) (es : List SamplingEvent)
      → Each (HasAll abi) ts es
      → CountedOf ts (finish_rings cs es)
  unfolding finish_rings
  finish_rings-Has cs [] [] h = tt
  finish_rings-Has cs [] (e ∷ es) h = absurd h
  finish_rings-Has cs (t ∷ ts) [] h = absurd h
  finish_rings-Has [] (t ∷ ts) (e ∷ es) h = tt
  finish_rings-Has (none ∷ cs) (t ∷ ts) (e ∷ es) h = tt
  finish_rings-Has (some c ∷ cs) (t ∷ ts) (e ∷ es) h =
      more (finish_rings cs es) (finish_rings-Has cs ts es h.1)
    where
      more :
          (o : Option (List SamplingEvent))
          → CountedOf ts o
          → CountedOf
              (t ∷ ts)
              (elim o [ none ↦ none | some es' ↦ some (record e { counts = c } ∷ es') ])
      more none k = tt
      more (some es') k = (record { sized = h.0.sized; drained = h.0.drained; calm = h.0.calm }, k)

  pub combine-written :
      (ts : List Track) (es : List SamplingEvent)
      → Each (HasAll abi) ts es
      → combine es ≡ written ts
  unfolding combine
  combine-written [] [] h = refl
  combine-written [] (e ∷ es) h = absurd h
  combine-written (t ∷ ts) [] h = absurd h
  combine-written (t ∷ ts) (e ∷ es) h =
      ap (λ x. x.samples ++ combine es) (HasAll.drained h.0)
      ∙ ap (λ l. samples_of t.recs ++ l) (combine-written ts es h.1)
