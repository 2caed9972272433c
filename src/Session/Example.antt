-- ===== src/Session/Example.antt =====
-- A session of two rounds: the miss ring of 64 bytes is written 88, and the access ring nothing.
use native.Mathlib.Nat.{zero-add}
use cache_lens.Prelude.{
  append-nil, ◌∙◌, ℕ, ◌≤◌, ◌≡◌, refl, sym, subst, List, [], ◌∷◌, ◌++◌, arith, length, take, drop,
  append-suffix,
}
use cache_lens.Perf.{PerfAbi, no_records}
use cache_lens.Drain.Window.{Holds, Holds-append}
use cache_lens.Drain.Linux.{linux, sampled, dropped}
use cache_lens.Drain.Records.{Rec, stream}
use cache_lens.Drain.Stream.{Shows}
use cache_lens.Session.{
  Both, Shown, SamplingEvent, polled, interrupted, exited, running, ended, Iteration,
}
use cache_lens.Session.Ring.{Track, Grows, Has}
use cache_lens.Session.Rounds.{Runs, BothTracks}

-- It is enough to look at the last bytes that the ring keeps.
Shows-of_last :
    (abi : PerfAbi) (size : ℕ) (rs : List Rec) (bytes xs ys : List ℕ)
    → length bytes ≡ size
    → stream abi rs ≡ xs ++ ys
    → size ≤ length ys
    → Holds bytes size (length xs) ys
    → Shows abi size rs bytes (length (stream abi rs))
Shows-of_last abi size rs bytes xs ys whole e long h =
    (whole, refl, λ us vs f short. part us vs (sym e ∙ f) (omega arith))
  where
    part :
        (us vs : List ℕ)
        → xs ++ ys ≡ us ++ vs
        → length vs ≤ length ys
        → Holds bytes size (length us) vs
    part us vs f short =
        let (ws, p, q) = append-suffix xs ys us vs f short in
        subst (λ k. Holds bytes size k vs) (sym q)
          ((Holds-append bytes size (length xs) ws vs (rw p at h)).1)

-- The stream's first 24 bytes are written over by its last.
abbrev pub all_records : List Rec
all_records = sampled ∷ dropped ∷ sampled ∷ []

abbrev pub late_bytes : List ℕ
late_bytes = drop 64 (stream linux all_records) ++ take 40 (drop 24 (stream linux all_records))

abbrev pub early_bytes : List ℕ
early_bytes = stream linux (sampled ∷ []) ++ stream linux (sampled ∷ [])

Shows-of_whole :
    (abi : PerfAbi) (size : ℕ) (rs : List Rec) (bytes : List ℕ)
    → length bytes ≡ size
    → Holds bytes size 0 (stream abi rs)
    → Shows abi size rs bytes (length (stream abi rs))
Shows-of_whole abi size rs bytes whole h = (
  whole,
  refl,
  λ us vs f short. rw (← zero-add (length us)) ((Holds-append bytes size 0 us vs (rw f at h)).1),
)

abbrev pub zeros : List ℕ
zeros = 0 ∷ 0 ∷ 0 ∷ 0 ∷ []

-- The rings as they are opened.
abbrev pub opened : ℕ → ℕ → SamplingEvent
opened cpu size = record {
  cpu = cpu;
  data_size = size;
  drained = record { tail = 0; samples = []; hist = no_records };
  requested_period = 10007;
  counts = record { value = 0; time_enabled = 0; time_running = 0 };
}

abbrev pub rings : Both (List SamplingEvent)
rings = record { miss = opened 3 64 ∷ []; access = opened 3 4 ∷ [] }

abbrev pub tracks : List Rec → Both (List Track)
tracks rs = record {
  miss = record { size = 64; recs = rs } ∷ [];
  access = record { size = 4; recs = [] } ∷ [];
}

abbrev pub quiet : List Shown
quiet = record { revents = 0; bytes = zeros; head = 0 } ∷ []

abbrev pub shown_early : Both (List Shown)
shown_early = record {
  miss = record { revents = 1; bytes = early_bytes; head = 32 } ∷ [];
  access = quiet;
}

abbrev pub shown_late : Both (List Shown)
shown_late = record {
  miss = record { revents = 0; bytes = late_bytes; head = 88 } ∷ [];
  access = quiet;
}

abbrev pub rounds : List Iteration
rounds =
    record { poll = polled; shown = shown_early; wait = running }
    ∷ record { poll = interrupted; shown = shown_early; wait = ended (exited 0) }
    ∷ []

pub Has-opened : (cpu size : ℕ) → Has linux (record { size = size; recs = [] }) (opened cpu size)
Has-opened cpu size = record {
  taken = [];
  left = [];
  parts = refl;
  sized = refl;
  drained = refl;
  calm = tt;
}

quiet-Shows : Shows linux 4 [] zeros 0
quiet-Shows = Shows-of_whole linux 4 [] zeros refl refl

early-Shows : Shows linux 64 (sampled ∷ []) early_bytes 32
early-Shows = Shows-of_whole linux 64 (sampled ∷ []) early_bytes refl refl

late-Shows : Shows linux 64 all_records late_bytes 88
late-Shows =
    Shows-of_last linux 64 all_records late_bytes (take 24 (stream linux all_records))
      (drop 24 (stream linux all_records)) refl refl (omega arith) refl

same : (t : Track) → Grows t t
same t = (refl, ([], sym (append-nil t.recs)))

pub rounds-Runs : Runs linux (tracks []) rounds shown_late (tracks all_records)
rounds-Runs = (
  tracks (sampled ∷ []),
  (
    (((refl, (sampled ∷ [], refl)), tt), (same _, tt)),
    (
      ((early-Shows, tt), (quiet-Shows, tt)),
      (
        tracks (sampled ∷ []),
        (
          ((same _, tt), (same _, tt)),
          (
            ((early-Shows, tt), (quiet-Shows, tt)),
            (
              (((refl, (dropped ∷ sampled ∷ [], refl)), tt), (same _, tt)),
              ((late-Shows, tt), (quiet-Shows, tt)),
            ),
          ),
        ),
      ),
    ),
  ),
)

pub all_records-IsTrack : BothTracks linux (tracks all_records)
all_records-IsTrack = (
  (record { fit = omega arith; size_small = omega arith; word = omega arith }, tt),
  (record { fit = tt; size_small = omega arith; word = omega arith }, tt),
)
