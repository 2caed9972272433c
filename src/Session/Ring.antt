-- ===== src/Session/Ring.antt =====
-- The rings of a session against the records that the kernel has written to them.
use cache_lens.Prelude.{
  ℕ, ◌^◌, ◌<◌, ◌≡◌, sym, ◌∙◌, ap, subst, List, [], ◌++◌, arith, append_assoc, append-nil, length,
  Result, ok, err, ◌>>=◌,
}
use cache_lens.Perf.{
  RingLabel, Fatal, overflow, throttled, size_too_small, size_past_head, out_of_bounds, out_of_fuel,
  PerfAbi,
}
use cache_lens.Drain.{Drained, drain}
use cache_lens.Drain.Records.{Rec, stream, AllFit, AllCalm}
use cache_lens.Drain.Stream.{
  Shows, drained_of, Excuse, DrainedAll, drain-DrainedAll, length-stream_append, AllCalm-front,
}
use cache_lens.Session.{Shown, SamplingEvent, drain_ring}

-- What the kernel has written to one ring so far, and the ring's size.
pub record Track : Type 0 where
  pub size : ℕ
  pub recs : List Rec

-- The same ring later.
abbrev pub Grows : Track → Track → Type 0
Grows t u = (u.size ≡ t.size) × ((more : List Rec) × (u.recs ≡ t.recs ++ more))

module _ (abi : PerfAbi) where
  pub record IsTrack (t : Track) : Type 0 where
    pub fit : AllFit abi t.recs
    pub size_small : t.size < 2 ^ 64
    pub word : length (stream abi t.recs) < 2 ^ 64

  -- The ring has drained a beginning of the records, each once.
  pub record Has (t : Track) (e : SamplingEvent) : Type 0 where
    pub taken : List Rec
    pub left : List Rec
    pub parts : t.recs ≡ taken ++ left
    pub sized : e.data_size ≡ t.size
    pub drained : e.drained ≡ drained_of abi taken
    pub calm : AllCalm taken

  -- The ring has drained all of them.
  pub record HasAll (t : Track) (e : SamplingEvent) : Type 0 where
    pub sized : e.data_size ≡ t.size
    pub drained : e.drained ≡ drained_of abi t.recs
    pub calm : AllCalm t.recs

  abbrev pub ShowsTrack : Track → Shown → Type 0
  ShowsTrack t sh = Shows abi t.size t.recs sh.bytes sh.head

  pub Has-HasAll : {t : Track} {e : SamplingEvent} → HasAll t e → Has t e
  Has-HasAll {t} h = record {
    taken = t.recs;
    left = [];
    parts = sym (append-nil t.recs);
    sized = h.sized;
    drained = h.drained;
    calm = h.calm;
  }

  pub Has-Grows : {t u : Track} {e : SamplingEvent} → Grows t u → Has t e → Has u e
  Has-Grows (same, (more, e)) h = record {
    taken = h.taken;
    left = h.left ++ more;
    parts = e ∙ ap (λ l. l ++ more) h.parts ∙ append_assoc h.taken h.left more;
    sized = h.sized ∙ sym same;
    drained = h.drained;
    calm = h.calm;
  }

  pub Excuse-Grows :
      (t u : Track) (e : Fatal)
      → Grows t u
      → Excuse abi t.size t.recs e
      → Excuse abi u.size u.recs e
  Excuse-Grows t u (overflow l) (same, (more, e)) x =
      omega (arith, ap (λ l. length (stream abi l)) e, length-stream_append abi t.recs more)
  Excuse-Grows t u (throttled l) (same, (more, e)) x =
      λ c. x (AllCalm-front t.recs more (subst AllCalm e c))
  Excuse-Grows t u (size_too_small l) g x = absurd x
  Excuse-Grows t u (size_past_head l) g x = absurd x
  Excuse-Grows t u out_of_bounds g x = absurd x
  Excuse-Grows t u out_of_fuel g x = absurd x

  -- What draining a ring may return.
  abbrev pub RingDone : Track → Result Fatal SamplingEvent → Type 0
  RingDone t (ok e) = HasAll t e
  RingDone t (err f) = Excuse abi t.size t.recs f

  module _ (event : ℕ) where
    pub drain_ring-RingDone :
        (t : Track) (sh : Shown) (e : SamplingEvent)
        → IsTrack t
        → ShowsTrack t sh
        → Has t e
        → RingDone t (drain_ring abi event sh e)
    unfolding drain_ring
    drain_ring-RingDone t sh e v shows h =
        finish (drain abi label sh.bytes e.data_size sh.head e.drained) (
          rw (h.sized, h.drained)
            (subst
              (λ rs.
                DrainedAll abi t.size rs
                  (drain abi label sh.bytes t.size sh.head (drained_of abi h.taken)))
              (sym h.parts)
              (drain-DrainedAll abi label t.size v.size_small h.taken h.left sh.bytes sh.head
                (subst (AllFit abi) h.parts v.fit)
                (subst (λ rs. length (stream abi rs) < 2 ^ 64) h.parts v.word)
                (subst (λ rs. Shows abi t.size rs sh.bytes sh.head) h.parts shows) h.calm)))
      where
        label : RingLabel
        label = record { event = event; cpu = e.cpu }

        finish :
            (r : Result Fatal (Drained × ℕ))
            → DrainedAll abi t.size t.recs r
            → RingDone t (r >>= λ q. ok (record e { drained = q.0 }))
        finish (ok (d, n)) (same, calm) = record { sized = h.sized; drained = same; calm = calm }
        finish (err f) x = x
