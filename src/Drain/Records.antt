-- ===== src/Drain/Records.antt =====
-- The records of a perf ring as the kernel writes them, and what a drain of them is to give.
use cache_lens.Prelude.{
  ℕ, ◌+◌, ◌^◌, ◌<◌, ◌≡◌, ◌≢◌, List, [], ◌∷◌, ◌++◌, arith, length, length-append,
}
use cache_lens.Prelude.Words.{u64, le_bytes, le_word-le_bytes}
use cache_lens.Perf.{Sample, RecordHistogram, Header, sizeof_header, PerfAbi}
use cache_lens.Drain.{sample_of_body, lost_of_body}

pub data Event : Type 0 where
  sample : Sample → Event
  lost : (id n : ℕ) → Event
  exit throttle unthrottle : Event
  other : (kind : ℕ) → Event

-- `rest` is what the kernel's record holds behind the fields that the sampler reads.
pub record Rec : Type 0 where
  pub event : Event
  pub misc : ℕ
  pub rest : List ℕ

abbrev pub payload : Event → List ℕ
payload (sample s) =
    le_bytes 8 s.ip ++ (le_bytes 4 s.pid ++ (le_bytes 4 s.tid ++ le_bytes 8 s.period))
payload (lost id n) = le_bytes 8 id ++ le_bytes 8 n
payload _ = []

abbrev pub kind : PerfAbi → Event → ℕ
kind abi (sample s) = abi.record_sample
kind abi (lost id n) = abi.record_lost
kind abi exit = abi.record_exit
kind abi throttle = abi.record_throttle
kind abi unthrottle = abi.record_unthrottle
kind abi (other k) = k

abbrev pub body : Rec → List ℕ
body r = payload r.event ++ r.rest

abbrev pub header : PerfAbi → Rec → Header
header abi r = record {
  kind = kind abi r.event;
  misc = r.misc;
  size = sizeof_header + length (body r);
}

abbrev pub rec_bytes : PerfAbi → Rec → List ℕ
rec_bytes abi r = abi.header_bytes (header abi r) ++ body r

-- A run of records, one behind the other.
abbrev pub stream : PerfAbi → List Rec → List ℕ
stream abi [] = []
stream abi (r ∷ rs) = rec_bytes abi r ++ stream abi rs

-- The fields of an event fit their widths, and `other` is none of the types that have a case.
abbrev pub FitsEvent : PerfAbi → Event → Type 0
FitsEvent abi (sample s) =
    (s.ip < 2 ^ 64) × (s.pid < 2 ^ 32) × (s.tid < 2 ^ 32) × (s.period < 2 ^ 64)
FitsEvent abi (lost id n) = (id < 2 ^ 64) × (n < 2 ^ 64)
FitsEvent abi (other k) =
    (k ≢ abi.record_sample)
    × (k ≢ abi.record_lost)
    × (k ≢ abi.record_exit)
    × (k ≢ abi.record_throttle)
    × (k ≢ abi.record_unthrottle)
FitsEvent abi _ = Unit

pub record Fits (abi : PerfAbi) (r : Rec) : Type 0 where
  pub kind_fits : kind abi r.event < 2 ^ 32
  pub misc_fits : r.misc < 2 ^ 16
  pub size_fits : sizeof_header + length (body r) < 2 ^ 16
  pub event_fits : FitsEvent abi r.event

-- The kernel did not change the sampling rate.
abbrev pub IsCalm : Event → Type 0
IsCalm throttle = ⊥
IsCalm unthrottle = ⊥
IsCalm _ = Unit

abbrev pub AllFit : PerfAbi → List Rec → Type 0
AllFit abi [] = Unit
AllFit abi (r ∷ rs) = Fits abi r × AllFit abi rs

abbrev pub AllCalm : List Rec → Type 0
AllCalm [] = Unit
AllCalm (r ∷ rs) = IsCalm r.event × AllCalm rs

abbrev pub sample_part : Event → List Sample
sample_part (sample s) = s ∷ []
sample_part _ = []

-- The samples among the records, in order.
abbrev pub samples_of : List Rec → List Sample
samples_of [] = []
samples_of (r ∷ rs) = sample_part r.event ++ samples_of rs

abbrev pub is_sample : Event → ℕ
is_sample (sample s) = 1
is_sample _ = 0

abbrev pub is_lost : Event → ℕ
is_lost (lost id n) = 1
is_lost _ = 0

abbrev pub lost_count : Event → ℕ
lost_count (lost id n) = n
lost_count _ = 0

abbrev pub is_exit : Event → ℕ
is_exit exit = 1
is_exit _ = 0

abbrev pub is_other : Event → ℕ
is_other (other k) = 1
is_other _ = 0

abbrev pub tally : (Event → ℕ) → List Rec → ℕ
tally f [] = 0
tally f (r ∷ rs) = f r.event + tally f rs

-- The histogram after the records, each of its 64-bit counters for itself.
abbrev pub counted : List Rec → RecordHistogram → RecordHistogram
counted rs h = record {
  sample = u64 (h.sample + tally is_sample rs);
  lost_records = u64 (h.lost_records + tally is_lost rs);
  lost_events = u64 (h.lost_events + tally lost_count rs);
  exit_records = u64 (h.exit_records + tally is_exit rs);
  other = u64 (h.other + tally is_other rs);
}

pub record FitsHistogram (h : RecordHistogram) : Type 0 where
  pub sample_fits : h.sample < 2 ^ 64
  pub lost_records_fits : h.lost_records < 2 ^ 64
  pub lost_events_fits : h.lost_events < 2 ^ 64
  pub exit_records_fits : h.exit_records < 2 ^ 64
  pub other_fits : h.other < 2 ^ 64

pub length-rec_bytes :
    (abi : PerfAbi) (r : Rec) → length (rec_bytes abi r) ≡ sizeof_header + length (body r)
length-rec_bytes abi r = omega (
  arith,
  length-append (abi.header_bytes (header abi r)) (body r),
  abi.length-header_bytes (header abi r),
)

-- What the sampler reads of a body is what the kernel wrote.
pub sample_of_body-payload :
    (abi : PerfAbi) (s : Sample)
    → FitsEvent abi (sample s)
    → sample_of_body (payload (sample s)) ≡ s
unfolding sample_of_body
sample_of_body-payload abi s h = λ i. record {
  ip = le_word-le_bytes 8 s.ip h.0 i;
  pid = le_word-le_bytes 4 s.pid h.1 i;
  tid = le_word-le_bytes 4 s.tid h.2 i;
  period = le_word-le_bytes 8 s.period h.3 i;
}

pub lost_of_body-payload : (id n : ℕ) → n < 2 ^ 64 → lost_of_body (payload (lost id n)) ≡ n
unfolding lost_of_body
lost_of_body-payload id n h = le_word-le_bytes 8 n h
