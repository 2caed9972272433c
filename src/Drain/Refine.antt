-- ===== src/Drain/Refine.antt =====
-- `drain` gives exactly the records that stand between the tail and the head.
use cache_lens.Prelude.{
  inl, inr, ℕ, zero, suc, ◌+◌, ◌-◌, ◌^◌, ◌≤◌, ◌<◌, ◌≡◌, refl, ap, sym, ◌∙◌, List, [], ◌∷◌, ◌++◌,
  arith, ltb_of_le, lt→ltb, append-nil, append_assoc, length, length-append, Result, ok, err, ◌>>=◌,
}
use cache_lens.Prelude.Words.{sub64}
use cache_lens.Perf.{RingLabel, Fatal, throttled, PerfAbi}
use cache_lens.Drain.{Drained, drain_loop, drain}
use cache_lens.Drain.Window.{Holds, Holds-append}
use cache_lens.Drain.Records.{
  Rec, rec_bytes, stream, AllFit, IsCalm, AllCalm, sample_part, samples_of, counted, FitsHistogram,
  length-rec_bytes,
}
use cache_lens.Drain.Step.{noted, outcome, moved, drain_record_lem}
use cache_lens.Drain.Notes.{
  samples-noted, FitsHistogram-noted, counted-noted, outcome_of_IsCalm, outcome-cases,
  outcome_of_not_IsCalm,
}

module _ (abi : PerfAbi) (label : RingLabel) where
  -- The records one after the other, without the ring.
  run_records : List Rec → Drained → Result Fatal Drained
  run_records [] d = ok d
  run_records (r ∷ rs) d =
      moved (outcome label r.event d) (d.tail + length (rec_bytes abi r)) >>= run_records rs

  after : Rec → Drained → Drained
  after r d = record (noted r.event d) { tail = d.tail + length (rec_bytes abi r) }

  after_all : List Rec → Drained → Drained
  after_all [] d = d
  after_all (r ∷ rs) d = after_all rs (after r d)

  run_records-append :
      (rs : List Rec) (more : List Rec) (d : Drained)
      → AllCalm rs
      → run_records (rs ++ more) d ≡ run_records more (after_all rs d)
  unfolding run_records after_all after
  run_records-append [] more d c = refl
  run_records-append (r ∷ rs) more d c =
      rw (outcome_of_IsCalm label r.event d c.0) (run_records-append rs more (after r d) c.1)

  tail-after_all :
      (rs : List Rec) (d : Drained) → (after_all rs d).tail ≡ d.tail + length (stream abi rs)
  unfolding after_all after
  tail-after_all [] d = omega arith
  tail-after_all (r ∷ rs) d =
      omega (arith, tail-after_all rs (after r d), length-append (rec_bytes abi r) (stream abi rs))

  samples-after_all :
      (rs : List Rec) (d : Drained) → (after_all rs d).samples ≡ d.samples ++ samples_of rs
  unfolding after_all after
  samples-after_all [] d = sym (append-nil d.samples)
  samples-after_all (r ∷ rs) d =
      samples-after_all rs (after r d)
      ∙ ap (λ l. l ++ samples_of rs) (samples-noted r.event d)
      ∙ append_assoc d.samples (sample_part r.event) (samples_of rs)

  hist-after_all :
      (rs : List Rec) (d : Drained)
      → FitsHistogram d.hist
      → (after_all rs d).hist ≡ counted rs d.hist
  unfolding after_all after
  hist-after_all [] d f = ground arith
  hist-after_all (r ∷ rs) d f =
      hist-after_all rs (after r d) (FitsHistogram-noted r.event d f) ∙ counted-noted r rs d f

module _ (abi : PerfAbi) (label : RingLabel) (bytes : List ℕ) (size : ℕ)
    (whole : length bytes ≡ size) (small : size < 2 ^ 64) where
  drain_loop_lem :
      (rs : List Rec) (fuel head : ℕ) (d : Drained)
      → AllFit abi rs
      → Holds bytes size d.tail (stream abi rs)
      → length (stream abi rs) ≤ size
      → d.tail + length (stream abi rs) ≡ head
      → head < 2 ^ 64
      → length rs < fuel
      → drain_loop abi label bytes size fuel head d ≡ run_records abi label rs d
  unfolding drain_loop run_records
  drain_loop_lem rs zero head d f p room reach word h = absurd (omega arith)
  drain_loop_lem [] (suc fuel) head d f p room reach word h =
      rw (ltb_of_le d.tail head (omega arith), drain_loop)
  drain_loop_lem (r ∷ rs) (suc fuel) head d f p room reach word h =
      rw
        (
          lt→ltb d.tail head (omega (arith, total, len)),
          drain_record_lem abi label bytes size whole small r head d f.0 parts.0
              (omega (arith, total)) (omega (arith, total)) word,
          drain_loop,
        )
        (elim (outcome-cases label r.event d) [
          | inl calm ↦ rw calm (
              drain_loop_lem rs fuel head
                (record (noted r.event d) { tail = d.tail + length (rec_bytes abi r) }) f.1 parts.1
                (omega (arith, total)) (omega (arith, total)) word (omega arith))
          | inr thrown ↦ rw thrown
        ])
    where
      parts :
          Holds bytes size d.tail (rec_bytes abi r)
          × Holds bytes size (d.tail + length (rec_bytes abi r)) (stream abi rs)
      parts = Holds-append bytes size d.tail (rec_bytes abi r) (stream abi rs) p

      total : length (stream abi (r ∷ rs)) ≡ length (rec_bytes abi r) + length (stream abi rs)
      total = length-append (rec_bytes abi r) (stream abi rs)

      len : 8 ≤ length (rec_bytes abi r)
      len = omega (arith, length-rec_bytes abi r)

  length-le-stream : (rs : List Rec) → length rs ≤ length (stream abi rs)
  length-le-stream [] = omega arith
  length-le-stream (r ∷ rs) = omega (
    arith,
    length-le-stream rs,
    length-append (rec_bytes abi r) (stream abi rs),
    length-rec_bytes abi r,
  )

  drain-run_records :
      (rs : List Rec) (head : ℕ) (d : Drained)
      → AllFit abi rs
      → Holds bytes size d.tail (stream abi rs)
      → length (stream abi rs) ≤ size
      → d.tail + length (stream abi rs) ≡ head
      → head < 2 ^ 64
      → drain abi label bytes size head d ≡ (run_records abi label rs d >>= λ d'. ok (d', d'.tail))
  unfolding drain
  drain-run_records rs head d f p room reach word = rw (
    ltb_of_le size (sub64 head d.tail) (omega arith),
    drain_loop_lem rs (suc (head - d.tail)) head d f p room reach word
        (omega (arith, length-le-stream rs)),
  )

  -- If the ring holds, from its tail to its head, a run of records as the kernel writes them, and no
  -- record of a changed sampling rate among them, then `drain` ends without an error: the samples
  -- among the records have been appended, in order and with the values written; each counter of the
  -- histogram has grown by its records (`lost_events` by the counts that they carry), modulo 2 ^ 64;
  -- and the tail, also the one handed to the kernel, is the head.
  pub drain_calm :
      (rs : List Rec) (head : ℕ) (d : Drained)
      → AllFit abi rs
      → AllCalm rs
      → FitsHistogram d.hist
      → Holds bytes size d.tail (stream abi rs)
      → length (stream abi rs) ≤ size
      → d.tail + length (stream abi rs) ≡ head
      → head < 2 ^ 64
      → drain abi label bytes size head d
        ≡ ok (
          record { tail = head; samples = d.samples ++ samples_of rs; hist = counted rs d.hist },
          head,
        )
  unfolding run_records
  drain_calm rs head d f calm fits p room reach word =
      drain-run_records rs head d f p room reach word
      ∙ ap (λ r. r >>= λ d'. ok (d', d'.tail))
          (ap (λ l. run_records abi label l d) (sym (append-nil rs))
            ∙ run_records-append abi label rs [] d calm)
      ∙ (λ i. ok (
        record {
          tail = end i;
          samples = samples-after_all abi label rs d i;
          hist = hist-after_all abi label rs d fits i;
        },
        end i,
      ))
    where
      end : (after_all abi label rs d).tail ≡ head
      end = tail-after_all abi label rs d ∙ reach

  -- A record of a changed sampling rate behind a run of others ends the process with the message
  -- that names this ring, whatever stands behind it.
  pub drain_throttled :
      (rs : List Rec) (r : Rec) (more : List Rec) (head : ℕ) (d : Drained)
      → AllFit abi (rs ++ r ∷ more)
      → AllCalm rs
      → ¬ IsCalm r.event
      → Holds bytes size d.tail (stream abi (rs ++ r ∷ more))
      → length (stream abi (rs ++ r ∷ more)) ≤ size
      → d.tail + length (stream abi (rs ++ r ∷ more)) ≡ head
      → head < 2 ^ 64
      → drain abi label bytes size head d ≡ err (throttled label)
  unfolding run_records
  drain_throttled rs r more head d f calm changed p room reach word =
      drain-run_records (rs ++ r ∷ more) head d f p room reach word
      ∙ ap (λ x. x >>= λ d'. ok (d', d'.tail)) (run_records-append abi label rs (r ∷ more) d calm)
      ∙ rw (outcome_of_not_IsCalm label r.event (after_all abi label rs d) changed)
