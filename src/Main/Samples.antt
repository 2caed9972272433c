-- ===== src/Main/Samples.antt =====
-- The samples of the drained rings, and the line counts made of them.
use cache_lens.Prelude.{ℕ, ◌^◌, ◌<◌, ◌≡◌, sym, subst, ◌∙◌, ap, Option, List, length}
use cache_lens.Doubles.{Doubles}
use cache_lens.Perf.{PerfAbi}
use cache_lens.Elf.{TextRange}
use cache_lens.Session.{SamplingEvent}
use cache_lens.Session.Ring.{Track, HasAll}
use cache_lens.Session.Rings.{Each}
use cache_lens.Checks.{combine}
use cache_lens.Attribution.{Site, site_order, or_else, classify_and_attribute}
use cache_lens.Attribution.Counts.{tally, hits}
use cache_lens.Attribution.Right.{line_counts_right}
use cache_lens.Keys.SortedMap.{find}
use cache_lens.Report.{event_report}
use cache_lens.Report.Sums.{report_adds_up}
use cache_lens.Main.Written.{written, combine-written}

-- The line counts that the ranking is made of, against the samples written for an event.
abbrev pub CountsWritten : (ℕ → Option Site) → TextRange → List Track → List (Site × ℕ) → Type 0
CountsWritten resolve_ip range ts counts =
    (site : Site)
    → or_else 0 (find site_order site counts) ≡ tally (hits resolve_ip range site) (written ts)

module _ (d : Doubles) (abi : PerfAbi) where
  pub samples_of_rings :
      (resolve_ip : ℕ → Option Site) (range : TextRange) (ts : List Track) (es : List SamplingEvent)
      → Each (HasAll abi) ts es
      → length (written ts) < 2 ^ 64
      → ((event_report d es (classify_and_attribute resolve_ip (combine es) range)).sums.samples
          ≡ length (written ts))
        × CountsWritten resolve_ip range ts
            (classify_and_attribute resolve_ip (combine es) range).line_counts
  samples_of_rings resolve_ip range ts es h few =
      let e = combine-written abi ts es h in
      (
        (report_adds_up d abi resolve_ip range ts es h
              (subst (λ l. length l < 2 ^ 64) (sym e) few)).0
            ∙ ap length e,
        subst
            (λ l.
              CountsWritten resolve_ip range ts
                (classify_and_attribute resolve_ip l range).line_counts)
            (sym e) (line_counts_right resolve_ip range (written ts) few).0,
      )
