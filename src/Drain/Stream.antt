-- ===== src/Drain/Stream.antt =====
-- One ring that is drained several times while the kernel goes on writing to it.
use cache_lens.Prelude.{
  ℕ, ◌+◌, ◌^◌, ◌≤◌, ◌<◌, ◌≡◌, ◌⊎◌, refl, ap, sym, ◌∙◌, inl, inr, List, [], ◌∷◌, ◌++◌, arith, lt→ltb,
  ltb, ltb→lt, ltb-false, Bool-cases, append_assoc, length, length-append, Result, ok, err,
}
use cache_lens.Prelude.Words.{u64, sub64}
use cache_lens.Perf.{RingLabel, Fatal, overflow, throttled, PerfAbi, RecordHistogram, no_records}
use cache_lens.Drain.{Drained, drain}
use cache_lens.Drain.Window.{Holds}
use cache_lens.Drain.Records.{
  Event, sample, lost, exit, throttle, unthrottle, other, Rec, rec_bytes, stream, AllFit, IsCalm,
  AllCalm, samples_of, sample_part, tally, counted, is_sample, is_lost, lost_count, is_exit,
  is_other,
}
use cache_lens.Drain.Refine.{drain_calm, drain_throttled}

-- A ring into which the records have been written from position 0 on, and which keeps the last
-- `size` bytes of them.
abbrev pub Shows : PerfAbi → ℕ → List Rec → List ℕ → ℕ → Type 0
Shows abi size rs bytes head =
    (length bytes ≡ size)
    × (head ≡ length (stream abi rs))
    × ((xs ys : List ℕ)
        → stream abi rs ≡ xs ++ ys
        → length ys ≤ size
        → Holds bytes size (length xs) ys)

-- The records, each drained once.
abbrev pub drained_of : PerfAbi → List Rec → Drained
drained_of abi rs = record {
  tail = length (stream abi rs);
  samples = samples_of rs;
  hist = counted rs no_records;
}

-- The ends that records can bring about: more than the ring holds, or a changed sampling rate.
abbrev pub Excuse : PerfAbi → ℕ → List Rec → Fatal → Type 0
Excuse abi size rs (overflow l) = size < length (stream abi rs)
Excuse abi size rs (throttled l) = ¬ AllCalm rs
Excuse abi size rs _ = ⊥

module _ (abi : PerfAbi) where
  pub stream-append : (xs ys : List Rec) → stream abi (xs ++ ys) ≡ stream abi xs ++ stream abi ys
  stream-append [] ys = refl
  stream-append (r ∷ xs) ys =
      ap (λ l. rec_bytes abi r ++ l) (stream-append xs ys)
      ∙ sym (append_assoc (rec_bytes abi r) (stream abi xs) (stream abi ys))

  pub length-stream_append :
      (xs ys : List Rec)
      → length (stream abi (xs ++ ys)) ≡ length (stream abi xs) + length (stream abi ys)
  length-stream_append xs ys =
      ap length (stream-append xs ys) ∙ length-append (stream abi xs) (stream abi ys)

  pub AllFit-behind : (xs ys : List Rec) → AllFit abi (xs ++ ys) → AllFit abi ys
  AllFit-behind [] ys f = f
  AllFit-behind (r ∷ xs) ys f = AllFit-behind xs ys f.1

  pub AllFit-front : (xs ys : List Rec) → AllFit abi (xs ++ ys) → AllFit abi xs
  AllFit-front [] ys f = tt
  AllFit-front (r ∷ xs) ys f = (f.0, AllFit-front xs ys f.1)

pub AllCalm-append : (xs ys : List Rec) → AllCalm xs → AllCalm ys → AllCalm (xs ++ ys)
AllCalm-append [] ys c d = d
AllCalm-append (r ∷ xs) ys c d = (c.0, AllCalm-append xs ys c.1 d)

pub AllCalm-behind : (xs ys : List Rec) → AllCalm (xs ++ ys) → AllCalm ys
AllCalm-behind [] ys c = c
AllCalm-behind (r ∷ xs) ys c = AllCalm-behind xs ys c.1

pub AllCalm-front : (xs ys : List Rec) → AllCalm (xs ++ ys) → AllCalm xs
AllCalm-front [] ys c = tt
AllCalm-front (r ∷ xs) ys c = (c.0, AllCalm-front xs ys c.1)

samples_of-append : (xs ys : List Rec) → samples_of (xs ++ ys) ≡ samples_of xs ++ samples_of ys
samples_of-append [] ys = refl
samples_of-append (r ∷ xs) ys =
    ap (λ l. sample_part r.event ++ l) (samples_of-append xs ys)
    ∙ sym (append_assoc (sample_part r.event) (samples_of xs) (samples_of ys))

tally-append : (f : Event → ℕ) (xs ys : List Rec) → tally f (xs ++ ys) ≡ tally f xs + tally f ys
tally-append f [] ys = omega arith
tally-append f (r ∷ xs) ys = omega (arith, tally-append f xs ys)

tally_grown :
    (f : Event → ℕ) (xs ys : List Rec) (n : ℕ)
    → u64 (u64 (n + tally f xs) + tally f ys) ≡ u64 (n + tally f (xs ++ ys))
tally_grown f xs ys n = omega (arith, tally-append f xs ys)

counted-append :
    (xs ys : List Rec) (h : RecordHistogram) → counted ys (counted xs h) ≡ counted (xs ++ ys) h
counted-append xs ys h = λ i. record {
  sample = tally_grown is_sample xs ys h.sample i;
  lost_records = tally_grown is_lost xs ys h.lost_records i;
  lost_events = tally_grown lost_count xs ys h.lost_events i;
  exit_records = tally_grown is_exit xs ys h.exit_records i;
  other = tally_grown is_other xs ys h.other i;
}

IsCalm-cases : (e : Event) → IsCalm e ⊎ ¬ IsCalm e
IsCalm-cases throttle = inr (λ c. c)
IsCalm-cases unthrottle = inr (λ c. c)
IsCalm-cases (sample s) = inl tt
IsCalm-cases (lost id n) = inl tt
IsCalm-cases exit = inl tt
IsCalm-cases (other k) = inl tt

-- Calm throughout, or up to a first record that is not.
pub AllCalm-cases :
    (rs : List Rec)
    → AllCalm rs
      ⊎ ((xs : List Rec) × (r : Rec) × (ys : List Rec) × (rs ≡ xs ++ r ∷ ys)
          × AllCalm xs
          × (¬ IsCalm r.event))
AllCalm-cases [] = inl tt
AllCalm-cases (r ∷ rs) = elim (IsCalm-cases r.event) [
  | inr changed ↦ inr ([], r, rs, refl, tt, changed)
  | inl calm ↦ elim (AllCalm-cases rs) [
    | inl all ↦ inl (calm, all)
    | inr (xs, q, ys, e, c, changed) ↦ inr (r ∷ xs, q, ys, ap (λ l. r ∷ l) e, (calm, c), changed)
  ]
]

drain_overflow :
    (abi : PerfAbi) (label : RingLabel) (bytes : List ℕ) (size head : ℕ) (d : Drained)
    → size < sub64 head d.tail
    → drain abi label bytes size head d ≡ err (overflow label)
unfolding drain
drain_overflow abi label bytes size head d h = rw (lt→ltb size (sub64 head d.tail) h)

-- What a drain may return behind `rs`: all of them, or a reason to stop.
abbrev pub DrainedAll : PerfAbi → ℕ → List Rec → Result Fatal (Drained × ℕ) → Type 0
DrainedAll abi size rs (ok (d, t)) = (d ≡ drained_of abi rs) × AllCalm rs
DrainedAll abi size rs (err e) = Excuse abi size rs e

module _ (abi : PerfAbi) (label : RingLabel) (size : ℕ) (small : size < 2 ^ 64) (xs ys : List Rec)
    (bytes : List ℕ) (head : ℕ) (f : AllFit abi (xs ++ ys))
    (word : length (stream abi (xs ++ ys)) < 2 ^ 64) (shows : Shows abi size (xs ++ ys) bytes head)
    (calm : AllCalm xs) where
  pending :
      length (stream abi ys) ≤ size → Holds bytes size (length (stream abi xs)) (stream abi ys)
  pending fits = shows.2 (stream abi xs) (stream abi ys) (stream-append abi xs ys) fits

  reach : length (stream abi xs) + length (stream abi ys) ≡ head
  reach = omega (arith, length-stream_append abi xs ys, shows.1)

  drain_rest :
      length (stream abi ys) ≤ size
      → AllCalm ys
      → DrainedAll abi size (xs ++ ys) (drain abi label bytes size head (drained_of abi xs))
  drain_rest fits all =
      rw
        (drain_calm abi label bytes size shows.0 small ys head (drained_of abi xs)
          (AllFit-behind abi xs ys f) all (omega arith) (pending fits) fits reach
          (omega (arith, reach, length-stream_append abi xs ys)))
        (
          (λ i. record {
            tail = (shows.1) i;
            samples = sym (samples_of-append xs ys) i;
            hist = counted-append xs ys no_records i;
          }),
          AllCalm-append xs ys calm all,
        )

  drain_changed :
      (us : List Rec) (r : Rec) (vs : List Rec)
      → length (stream abi ys) ≤ size
      → ys ≡ us ++ r ∷ vs
      → AllCalm us
      → ¬ IsCalm r.event
      → DrainedAll abi size (xs ++ ys) (drain abi label bytes size head (drained_of abi xs))
  drain_changed us r vs fits e c changed =
      rw
        (drain_throttled abi label bytes size shows.0 small us r vs head (drained_of abi xs)
          (rw e at (AllFit-behind abi xs ys f)) c changed (rw e at (pending fits)) (rw e at fits)
          (rw e at reach) (omega (arith, reach, length-stream_append abi xs ys)))
        (λ all. changed ((AllCalm-behind us (r ∷ vs) (rw e at (AllCalm-behind xs ys all))).0))

  -- A drain behind `xs` takes the records written since, or stops for a reason that they give.
  pub drain-DrainedAll :
      DrainedAll abi size (xs ++ ys) (drain abi label bytes size head (drained_of abi xs))
  drain-DrainedAll = elim (Bool-cases (ltb size (length (stream abi ys)))) [
    | inl over ↦ overrun (ltb→lt size (length (stream abi ys)) over)
    | inr fits ↦ elim (AllCalm-cases ys) [
      | inl all ↦ drain_rest (ltb-false size (length (stream abi ys)) fits) all
      | inr (us, r, vs, e, c, changed) ↦
          drain_changed us r vs (ltb-false size (length (stream abi ys)) fits) e c changed
    ]
  ]
    where
      overrun :
          size < length (stream abi ys)
          → DrainedAll abi size (xs ++ ys) (drain abi label bytes size head (drained_of abi xs))
      overrun over =
          rw
            (drain_overflow abi label bytes size head (drained_of abi xs)
              (omega (arith, reach, length-stream_append abi xs ys)))
            (omega (arith, length-stream_append abi xs ys))
