-- ===== src/Drain/Linux.antt =====
-- The kernel's format on a little-endian machine, and some records, for examples.
use cache_lens.Prelude.{ℕ, ◌%◌, ◌^◌, ◌<◌, ◌≡◌, refl, [], ◌∷◌, ◌++◌, arith, take, drop}
use cache_lens.Prelude.Words.{le_bytes, le_word, le_word-le_bytes}
use cache_lens.Perf.{Sample, RingLabel, PerfAbi}
use cache_lens.Drain.Records.{Rec, Event}

pub size_back : (v : ℕ) → v < 2 ^ 16 → le_word (le_bytes 2 v) % 2 ^ 16 ≡ v
size_back v h = omega (arith, le_word-le_bytes 2 v h)

-- The kernel's format on a little-endian machine.
abbrev pub linux : PerfAbi
linux = record {
  header_bytes = λ h. le_bytes 4 h.kind ++ (le_bytes 2 h.misc ++ le_bytes 2 h.size);
  parse_header = λ b. record {
    kind = le_word (take 4 b);
    misc = le_word (take 2 (drop 4 b));
    size = le_word (take 2 (drop 6 b)) % 2 ^ 16;
  };
  length-header_bytes = λ h. refl;
  parse_header-header_bytes = λ h k m s i. record {
    kind = le_word-le_bytes 4 h.kind k i;
    misc = le_word-le_bytes 2 h.misc m i;
    size = size_back h.size s i;
  };
  record_lost = 2;
  record_exit = 4;
  record_throttle = 5;
  record_unthrottle = 6;
  record_sample = 9;
  lost_ne_sample = omega arith;
  exit_ne_sample = omega arith;
  exit_ne_lost = omega arith;
  throttle_ne_sample = omega arith;
  throttle_ne_lost = omega arith;
  throttle_ne_exit = omega arith;
  unthrottle_ne_sample = omega arith;
  unthrottle_ne_lost = omega arith;
  unthrottle_ne_exit = omega arith;
}

abbrev pub label : RingLabel
label = record { event = 0; cpu = 3 }

abbrev pub hit : Sample
hit = record { ip = 0x401136; pid = 77; tid = 78; period = 10007 }

abbrev pub sampled : Rec
sampled = record { event = Event.sample hit; misc = 2; rest = [] }

abbrev pub dropped : Rec
dropped = record { event = Event.lost 5 3; misc = 0; rest = [] }

abbrev pub slowed : Rec
slowed = record {
  event = Event.throttle;
  misc = 0;
  rest = 1 ∷ 2 ∷ 3 ∷ 4 ∷ 5 ∷ 6 ∷ 7 ∷ 8 ∷ 1 ∷ 2 ∷ 3 ∷ 4 ∷ 5 ∷ 6 ∷ 7 ∷ 8 ∷ [];
}
