-- ===== src/Report/Sums.antt =====
-- The numbers of a report fit together.
use native.Mathlib.Nat.{zero-add}
use cache_lens.Prelude.{
  ℕ, ◌+◌, ◌^◌, ◌<◌, ◌≡◌, refl, sym, ap, ◌∙◌, Option, List, [], ◌∷◌, arith, length, length-append,
}
use cache_lens.Prelude.Words.{u64}
use cache_lens.Doubles.{Doubles}
use cache_lens.Perf.{PerfAbi}
use cache_lens.Elf.{TextRange}
use cache_lens.Session.{SamplingEvent}
use cache_lens.Session.Ring.{Track, HasAll}
use cache_lens.Session.Rings.{Each}
use cache_lens.Drain.Records.{
  Rec, Event, sample_part, samples_of, tally, is_sample, sample, lost, exit, throttle, unthrottle,
  other,
}
use cache_lens.Attribution.{Site, classify_and_attribute}
use cache_lens.Attribution.Right.{buckets_right}
use cache_lens.Checks.{combine}
use cache_lens.Report.{Totals, no_totals, add_ring, totals, cpu_lines, event_report}

abbrev sum_of : (SamplingEvent → ℕ) → List SamplingEvent → ℕ
sum_of f [] = 0
sum_of f (e ∷ es) = f e + sum_of f es

-- What the sums of a loop are, started at `t`.
record IsTotals (d : Doubles) (t : Totals) (es : List SamplingEvent) (u : Totals) : Type 0 where
  samples : u.samples ≡ u64 (t.samples + sum_of (λ e. e.drained.hist.sample) es)
  hist_samples : u.hist.sample ≡ u64 (t.hist.sample + sum_of (λ e. e.drained.hist.sample) es)
  value : u.value ≡ u64 (t.value + sum_of (λ e. e.counts.value) es)
  lost_events :
      u.hist.lost_events ≡ u64 (t.hist.lost_events + sum_of (λ e. e.drained.hist.lost_events) es)
  active : u.active_cpus ≡ u64 (t.active_cpus + length (cpu_lines d es))

record FitsTotals (t : Totals) : Type 0 where
  samples : t.samples < 2 ^ 64
  hist_samples : t.hist.sample < 2 ^ 64
  value : t.value < 2 ^ 64
  lost_events : t.hist.lost_events < 2 ^ 64
  active : t.active_cpus < 2 ^ 64

add_ring-FitsTotals : (t : Totals) (e : SamplingEvent) → FitsTotals t → FitsTotals (add_ring t e)
unfolding add_ring
add_ring-FitsTotals t e f = ground (arith, f.active)

active-add_ring :
    (d : Doubles) (t : Totals) (e : SamplingEvent) (es : List SamplingEvent)
    → u64 ((add_ring t e).active_cpus + length (cpu_lines d es))
      ≡ u64 (t.active_cpus + length (cpu_lines d (e ∷ es)))
unfolding add_ring cpu_lines
active-add_ring d t e es = ground arith

totals-IsTotals :
    (d : Doubles) (t : Totals) (es : List SamplingEvent)
    → FitsTotals t
    → IsTotals d t es (totals t es)
unfolding totals cpu_lines
totals-IsTotals d t [] f =
    omega (arith, f.samples, f.hist_samples, f.value, f.lost_events, f.active)
totals-IsTotals d t (e ∷ es) f =
    let ih = totals-IsTotals d (add_ring t e) es (add_ring-FitsTotals t e f) in
    record {
      samples = ih.samples ∙ unfold add_ring in omega arith;
      hist_samples = ih.hist_samples ∙ unfold add_ring in omega arith;
      value = ih.value ∙ unfold add_ring in omega arith;
      lost_events = ih.lost_events ∙ unfold add_ring in omega arith;
      active = ih.active ∙ active-add_ring d t e es;
    }

length-samples_of : (rs : List Rec) → length (samples_of rs) ≡ tally is_sample rs
length-samples_of [] = refl
length-samples_of (r ∷ rs) =
    omega (
      arith,
      length-append (sample_part r.event) (samples_of rs),
      length-samples_of rs,
      one r.event,
    )
  where
    one : (e : Event) → length (sample_part e) ≡ is_sample e
    one (sample s) = refl
    one (lost id n) = refl
    one exit = refl
    one throttle = refl
    one unthrottle = refl
    one (other k) = refl

-- The counters of rings that have drained all their records count their samples.
sum_of-eq-length :
    (abi : PerfAbi) (ts : List Track) (es : List SamplingEvent)
    → Each (HasAll abi) ts es
    → length (combine es) < 2 ^ 64
    → sum_of (λ e. e.drained.hist.sample) es ≡ length (combine es)
unfolding combine
sum_of-eq-length abi [] [] h word = refl
sum_of-eq-length abi [] (e ∷ es) h word = absurd h
sum_of-eq-length abi (t ∷ ts) [] h word = absurd h
sum_of-eq-length abi (t ∷ ts) (e ∷ es) h word = omega (
  arith,
  sum_of-eq-length abi ts es h.1,
  length-append e.drained.samples (combine es),
  length-samples_of t.recs,
  ap (λ x. length x.samples) h.0.drained,
  ap (λ x. x.hist.sample) h.0.drained,
)

module _ (d : Doubles) (abi : PerfAbi) (resolve_ip : ℕ → Option Site) (range : TextRange) where
  -- The report of an event whose rings have drained all that was written to them, on the samples of
  -- all of them, fewer than 2 ^ 64: the samples captured are as many as were attributed; the four
  -- buckets add up to them; attributed and unattributed add up to the target's bucket; the histogram
  -- counts them too; and the active CPUs are as many as the lines of the breakdown, modulo 2 ^ 64.
  pub report_adds_up :
      (ts : List Track) (es : List SamplingEvent)
      → Each (HasAll abi) ts es
      → length (combine es) < 2 ^ 64
      → let r = event_report d es (classify_and_attribute resolve_ip (combine es) range) in
        (r.sums.samples ≡ length (combine es))
        × (r.in_target.count + r.in_other_user.count + r.in_kernel.count + r.in_unclassifiable.count
            ≡ r.sums.samples)
        × (r.attributed + r.unattributed ≡ r.in_target.count)
        × (r.sums.hist.sample ≡ r.sums.samples)
        × (r.sums.active_cpus ≡ u64 (length r.cpus))
  unfolding event_report
  report_adds_up ts es h word =
      let t = totals-IsTotals d no_totals es (omega arith) in
      let b = buckets_right resolve_ip range (combine es) word in
      let n = sum_of-eq-length abi ts es h word in
      let s : (totals no_totals es).samples ≡ length (combine es) = omega (arith, t.samples, n) in
      (
        s,
        b.0 ∙ sym s,
        b.1,
        omega (arith, t.samples, t.hist_samples),
        t.active ∙ ap u64 (zero-add (length (cpu_lines d es))),
      )
