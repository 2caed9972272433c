-- ===== src/Report.antt =====
-- src/main.cpp: what `print_event_report` works out for one event. The text around the numbers is
-- left out.
pub mod Sums
mod Tests
use cache_lens.Prelude.{
  ℕ, ◌+◌, Bool, true, false, Option, none, some, List, [], ◌∷◌, ltb, ◌==◌, if◌then◌else◌, length,
  not, ◌||◌,
}
use cache_lens.Prelude.Words.{u64}
use cache_lens.Doubles.{Doubles}
use cache_lens.Perf.{RecordHistogram, no_records}
use cache_lens.Session.{SamplingEvent}
use cache_lens.Attribution.{Attribution, BucketCount}

-- The sums over the rings.
pub record Totals : Type 0 where
  pub value : ℕ
  pub samples : ℕ
  pub hist : RecordHistogram
  pub active_cpus : ℕ

abbrev pub no_totals : Totals
no_totals = record { value = 0; samples = 0; hist = no_records; active_cpus = 0 }

pub add_ring : Totals → SamplingEvent → Totals
add_ring t e = record {
  value = u64 (t.value + e.counts.value);
  samples = u64 (t.samples + hist.sample);
  hist = record {
    sample = u64 (t.hist.sample + hist.sample);
    lost_records = u64 (t.hist.lost_records + hist.lost_records);
    lost_events = u64 (t.hist.lost_events + hist.lost_events);
    exit_records = u64 (t.hist.exit_records + hist.exit_records);
    other = u64 (t.hist.other + hist.other);
  };
  active_cpus = if ltb 0 e.counts.time_running then u64 (t.active_cpus + 1) else t.active_cpus;
}
  where
    open e.drained use {hist}

pub totals : Totals → List SamplingEvent → Totals
totals t [] = t
totals t (e ∷ es) = totals (add_ring t e) es

pub front_period : List SamplingEvent → Option ℕ
front_period [] = none
front_period (e ∷ es) = some e.requested_period

module _ (d : Doubles) where
  open d use {Double, of_nat, decimal, mul, div, less}

  -- A line of the per-CPU breakdown.
  pub record CpuLine : Type 0 where
    pub cpu : ℕ
    pub value : ℕ
    pub samples : ℕ
    pub lost_records : ℕ
    pub lost_events : ℕ
    pub mux_fraction : Double

  pub cpu_lines : List SamplingEvent → List CpuLine
  cpu_lines [] = []
  cpu_lines (e ∷ es) =
      if e.counts.time_running == 0
      then cpu_lines es
      else record {
        cpu = e.cpu;
        value = e.counts.value;
        samples = e.drained.hist.sample;
        lost_records = e.drained.hist.lost_records;
        lost_events = e.drained.hist.lost_events;
        mux_fraction = div (of_nat e.counts.time_running) (of_nat e.counts.time_enabled);
      }
        ∷ cpu_lines es

  -- `whole > 0 ? 100.0 * part / whole : 0.0`
  pub percent : ℕ → ℕ → Double
  percent part whole =
      if less (decimal 0 0) (of_nat whole)
      then div (mul (decimal 100 0) (of_nat part)) (of_nat whole)
      else decimal 0 0

  pub record BucketLine : Type 0 where
    pub count : ℕ
    pub pct : Double

  pub record Report : Type 0 where
    pub requested_period : Option ℕ
    pub sums : Totals
    pub cpus : List CpuLine
    pub ip_range : Option (ℕ × ℕ)
    pub in_target : BucketLine
    pub in_other_user : BucketLine
    pub in_kernel : BucketLine
    pub in_unclassifiable : BucketLine
    pub kernel_ips : List ℕ
    pub attributed : ℕ
    pub unattributed : ℕ
    pub unattributed_pct : Double
    pub halt_condition : Bool

  bucket_line : ℕ → ℕ → BucketLine
  bucket_line count total = record { count = count; pct = percent count total }

  is_empty : {A : Type 0} → List A → Bool
  is_empty [] = true
  is_empty (x ∷ xs) = false

  pub event_report : List SamplingEvent → Attribution → Report
  unfolding bucket_line is_empty
  event_report rings a =
      let t = totals no_totals rings in
      let b = a.bucket_count in
      let out_of_target = u64 (b.in_kernel + b.in_unclassifiable) in
      record {
        requested_period = front_period rings;
        sums = t;
        cpus = cpu_lines rings;
        ip_range =
            if not (is_empty a.line_counts) || ltb 0 t.samples
            then some (a.ip_lo, a.ip_hi)
            else none;
        in_target = bucket_line b.in_target t.samples;
        in_other_user = bucket_line b.in_other_user t.samples;
        in_kernel = bucket_line b.in_kernel t.samples;
        in_unclassifiable = bucket_line b.in_unclassifiable t.samples;
        kernel_ips = a.kernel_ips;
        attributed = a.attributed;
        unattributed = a.unattributed;
        unattributed_pct =
            if ltb 0 b.in_target
            then div (mul (decimal 100 0) (of_nat a.unattributed)) (of_nat b.in_target)
            else decimal 0 0;
        halt_condition = less (decimal 1 0) (percent out_of_target t.samples);
      }
