-- ===== src/Report/Tests.antt =====
-- The report of two rings, of which one has run.
use cache_lens.Prelude.{
  refl, ℕ, ◌+◌, ◌≡◌, Option, none, some, List, [], ◌∷◌, arith, length, if◌then◌else◌, ◌==◌,
}
use cache_lens.Prelude.Words.{u64}
use cache_lens.Keys.Order.{pos}
use cache_lens.Doubles.Fractions.{fractions}
use cache_lens.Drain.Linux.{linux, sampled, dropped}
use cache_lens.Drain.Records.{Rec}
use cache_lens.Drain.Stream.{drained_of}
use cache_lens.Elf.{TextRange}
use cache_lens.Session.{SamplingEvent}
use cache_lens.Attribution.{Site, classify_and_attribute}
use cache_lens.Checks.{combine}
use cache_lens.Report.{event_report}
use cache_lens.Report.Sums.{report_adds_up}

abbrev ring : ℕ → ℕ → List Rec → SamplingEvent
ring cpu running recs = record {
  cpu = cpu;
  data_size = 64;
  drained = drained_of linux recs;
  requested_period = 10007;
  counts = record { value = 4; time_enabled = 9; time_running = running };
}

abbrev rings : List SamplingEvent
rings = ring 0 9 (sampled ∷ dropped ∷ sampled ∷ []) ∷ ring 1 0 [] ∷ []

abbrev range : TextRange
range = record { lo = 0x401000; hi = 0x402000 }

abbrev line_of : ℕ → Option Site
line_of ip = if ip == 0x401136 then some (97 ∷ [], pos 44) else none

report_adds_up_example :
    let r = event_report fractions rings (classify_and_attribute line_of (combine rings) range) in
    (r.sums.samples ≡ length (combine rings))
    × (r.in_target.count + r.in_other_user.count + r.in_kernel.count + r.in_unclassifiable.count
        ≡ r.sums.samples)
    × (r.attributed + r.unattributed ≡ r.in_target.count)
    × (r.sums.hist.sample ≡ r.sums.samples)
    × (r.sums.active_cpus ≡ u64 (length r.cpus))
unfolding combine
report_adds_up_example =
    report_adds_up fractions linux line_of range
      (record { size = 64; recs = sampled ∷ dropped ∷ sampled ∷ [] }
        ∷ record { size = 64; recs = [] }
        ∷ [])
      rings
      (
        record { sized = refl; drained = refl; calm = (tt, (tt, (tt, tt))) },
        (record { sized = refl; drained = refl; calm = tt }, tt),
      )
      (omega arith)
