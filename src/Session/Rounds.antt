-- ===== src/Session/Rounds.antt =====
-- The poll loop and the last drain, while the kernel goes on writing to the rings.
use cache_lens.Prelude.{
  ◌⊎◌, sym, ◌∙◌, ap, subst, inl, inr, Bool, Option, none, some, List, [], ◌∷◌, ◌++◌, arith,
  append_assoc, Result, ok, err, ◌>>=◌, length,
}
use cache_lens.Perf.{Fatal, PerfAbi}
use cache_lens.Drain.Records.{AllFit, stream}
use cache_lens.Drain.Stream.{AllFit-front, length-stream_append}
use cache_lens.Session.{
  Both, Shown, SamplingEvent, ExitStatus, ended, Iteration, drain_rings, drain_both,
}
use cache_lens.Session.Ring.{Track, Grows, IsTrack, Has, ShowsTrack, Has-Grows}
use cache_lens.Session.Rings.{
  Each, Each-through, AllTracks, AnyExcuse, AnyExcuse-Grows, EachAfter, RingsDone,
  drain_rings-RingsDone,
}

abbrev pub EachBoth : {A B : Type 0} → (A → B → Type 0) → Both (List A) → Both (List B) → Type 0
EachBoth R a b = Each R a.miss b.miss × Each R a.access b.access

-- The kernel's side of a session: what it has written at each round, and what the rings then show.
abbrev pub Runs :
    PerfAbi → Both (List Track) → List Iteration → Both (List Shown) → Both (List Track) → Type 0
Runs abi before [] final end = EachBoth Grows before end × EachBoth (ShowsTrack abi) end final
Runs abi before (it ∷ its) final end =
    (now : Both (List Track)) × (EachBoth Grows before now
      × (EachBoth (ShowsTrack abi) now it.shown × Runs abi now its final end))

Grows-trans : (t u v : Track) → Grows t u → Grows u v → Grows t v
Grows-trans t u v (a, (more, e)) (b, (rest, f)) =
    (b ∙ a, (more ++ rest, f ∙ ap (λ l. l ++ rest) e ∙ append_assoc t.recs more rest))

Each-trans : (ts us vs : List Track) → Each Grows ts us → Each Grows us vs → Each Grows ts vs
Each-trans [] [] vs g h = h
Each-trans [] (u ∷ us) vs g h = absurd g
Each-trans (t ∷ ts) [] vs g h = absurd g
Each-trans (t ∷ ts) (u ∷ us) [] g h = absurd h
Each-trans (t ∷ ts) (u ∷ us) (v ∷ vs) g h = (Grows-trans t u v g.0 h.0, Each-trans ts us vs g.1 h.1)

pub Runs-Grows :
    (abi : PerfAbi) (before : Both (List Track)) (its : List Iteration) (final : Both (List Shown))
    (end : Both (List Track))
    → Runs abi before its final end
    → EachBoth Grows before end
Runs-Grows abi before [] final end r = r.0
Runs-Grows abi before (it ∷ its) final end (now, (g, (s, r))) =
    let h = Runs-Grows abi now its final end r in
    (
      Each-trans before.miss now.miss end.miss g.0 h.0,
      Each-trans before.access now.access end.access g.1 h.1,
    )

pub Runs-Shows :
    (abi : PerfAbi) (before : Both (List Track)) (its : List Iteration) (final : Both (List Shown))
    (end : Both (List Track))
    → Runs abi before its final end
    → EachBoth (ShowsTrack abi) end final
Runs-Shows abi before [] final end r = r.1
Runs-Shows abi before (it ∷ its) final end (now, (g, (s, r))) = Runs-Shows abi now its final end r

-- The status of the round at which waitpid first returns the child.
abbrev pub ended_status : List Iteration → Option ExitStatus
ended_status [] = none
ended_status (it ∷ its) = elim it.wait [ ended status ↦ some status | _ ↦ ended_status its ]

module _ (abi : PerfAbi) where
  IsTrack-back : (t u : Track) → Grows t u → IsTrack abi u → IsTrack abi t
  IsTrack-back t u (same, (more, e)) v = record {
    fit = AllFit-front abi t.recs more (subst (AllFit abi) e v.fit);
    size_small = rw (sym same) v.size_small;
    word =
        omega
          (arith, v.word, ap (λ l. length (stream abi l)) e, length-stream_append abi t.recs more);
  }

  pub AllTracks-back : (ts us : List Track) → Each Grows ts us → AllTracks abi us → AllTracks abi ts
  AllTracks-back [] us g v = tt
  AllTracks-back (t ∷ ts) [] g v = absurd g
  AllTracks-back (t ∷ ts) (u ∷ us) g v = (IsTrack-back t u g.0 v.0, AllTracks-back ts us g.1 v.1)

  abbrev pub BothTracks : Both (List Track) → Type 0
  BothTracks w = AllTracks abi w.miss × AllTracks abi w.access

  abbrev pub AnyReason : Both (List Track) → Fatal → Type 0
  AnyReason w f = AnyExcuse abi w.miss f ⊎ AnyExcuse abi w.access f

  pub AnyReason-Grows :
      (w x : Both (List Track)) (f : Fatal) → EachBoth Grows w x → AnyReason w f → AnyReason x f
  AnyReason-Grows w x f g (inl r) = inl (AnyExcuse-Grows abi w.miss x.miss f g.0 r)
  AnyReason-Grows w x f g (inr r) = inr (AnyExcuse-Grows abi w.access x.access f g.1 r)

  abbrev pub BothDone :
      (Shown → Bool)
      → Both (List Shown)
      → Both (List Track)
      → Result Fatal (Both (List SamplingEvent))
      → Type 0
  BothDone pick s w (ok ev) =
      EachAfter abi pick s.miss w.miss ev.miss × EachAfter abi pick s.access w.access ev.access
  BothDone pick s w (err f) = AnyReason w f

  pub Has-later :
      (w x : Both (List Track)) (ev : Both (List SamplingEvent))
      → EachBoth Grows w x
      → EachBoth (Has abi) w ev
      → EachBoth (Has abi) x ev
  Has-later w x ev g h = (
    Each-through Grows (Has abi) (Has abi) w.miss x.miss ev.miss (λ t u e. Has-Grows abi) g.0 h.0,
    Each-through Grows (Has abi) (Has abi) w.access x.access ev.access (λ t u e. Has-Grows abi) g.1
        h.1,
  )

  pub drain_both-BothDone :
      (pick : Shown → Bool) (s : Both (List Shown)) (w : Both (List Track))
      (ev : Both (List SamplingEvent))
      → BothTracks w
      → EachBoth (ShowsTrack abi) w s
      → EachBoth (Has abi) w ev
      → BothDone pick s w (drain_both abi pick s ev)
  unfolding drain_both
  drain_both-BothDone pick s w ev v shows h =
      join (drain_rings abi pick 0 s.miss ev.miss) (drain_rings abi pick 1 s.access ev.access)
        (drain_rings-RingsDone abi 0 pick s.miss w.miss ev.miss v.0 shows.0 h.0)
        (drain_rings-RingsDone abi 1 pick s.access w.access ev.access v.1 shows.1 h.1)
    where
      join :
          (m a : Result Fatal (List SamplingEvent))
          → RingsDone abi pick s.miss w.miss m
          → RingsDone abi pick s.access w.access a
          → BothDone pick s w
              (m >>= λ miss. a >>= λ access. ok (record { miss = miss; access = access }))
      join (ok es) (ok fs) p q = (p, q)
      join (ok es) (err f) p q = inr q
      join (err f) a p q = inl p
