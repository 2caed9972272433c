-- ===== src/Perf.antt =====
-- src/main.cpp: the data that the sampler reads from the kernel, and what of the kernel's record
-- format (perf_event_open(2)) the sampler relies on.
use cache_lens.Prelude.{ℕ, ◌^◌, ◌<◌, ◌≡◌, ◌≢◌, List, length}

-- `struct Sample`
pub record Sample : Type 0 where
  pub ip : ℕ
  pub pid : ℕ
  pub tid : ℕ
  pub period : ℕ

-- `struct RecordHistogram`
pub record RecordHistogram : Type 0 where
  pub sample : ℕ
  pub lost_records : ℕ
  pub lost_events : ℕ
  pub exit_records : ℕ
  pub other : ℕ

abbrev pub no_records : RecordHistogram
no_records = record { sample = 0; lost_records = 0; lost_events = 0; exit_records = 0; other = 0 }

-- `ring_label`: which event's ring, and of which CPU.
pub record RingLabel : Type 0 where
  pub event : ℕ
  pub cpu : ℕ

-- The ends of the process in `drain`. The last two are no messages of the program: a read past the
-- ring's data, and a loop that has run out of the model's fuel.
pub data Fatal : Type 0 where
  overflow : RingLabel → Fatal
  size_too_small : RingLabel → Fatal
  size_past_head : RingLabel → Fatal
  throttled : RingLabel → Fatal
  out_of_bounds : Fatal
  out_of_fuel : Fatal

-- `struct perf_event_header` of the kernel's interface: a 32-bit type and two 16-bit fields.
pub record Header : Type 0 where
  pub kind : ℕ
  pub misc : ℕ
  pub size : ℕ

abbrev pub sizeof_header : ℕ
sizeof_header = 8

-- The kernel's interface: how a header lies in memory, and the numbers of the record types.
pub record PerfAbi : Type 0 where
  pub header_bytes : Header → List ℕ
  pub parse_header : List ℕ → Header
  pub length-header_bytes : (h : Header) → length (header_bytes h) ≡ sizeof_header
  pub parse_header-header_bytes :
      (h : Header)
      → h.kind < 2 ^ 32
      → h.misc < 2 ^ 16
      → h.size < 2 ^ 16
      → parse_header (header_bytes h) ≡ h
  pub record_lost : ℕ
  pub record_exit : ℕ
  pub record_throttle : ℕ
  pub record_unthrottle : ℕ
  pub record_sample : ℕ
  pub lost_ne_sample : record_lost ≢ record_sample
  pub exit_ne_sample : record_exit ≢ record_sample
  pub exit_ne_lost : record_exit ≢ record_lost
  pub throttle_ne_sample : record_throttle ≢ record_sample
  pub throttle_ne_lost : record_throttle ≢ record_lost
  pub throttle_ne_exit : record_throttle ≢ record_exit
  pub unthrottle_ne_sample : record_unthrottle ≢ record_sample
  pub unthrottle_ne_lost : record_unthrottle ≢ record_lost
  pub unthrottle_ne_exit : record_unthrottle ≢ record_exit
