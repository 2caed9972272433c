-- ===== src/Session/Exact.antt =====
-- A session returns what the kernel has written, or says why it does not.
use cache_lens.Prelude.{
  ℕ, ◌≡◌, refl, inl, inr, true, some, List, [], ◌∷◌, Result, ok, err, ◌>>=◌, All, Any,
}
use cache_lens.Perf.{Fatal, PerfAbi}
use cache_lens.Session.{
  Both, Shown, SamplingEvent, PollOutcome, polled, interrupted, poll_error, ExitStatus, WaitOutcome,
  running, ended, wait_error, Iteration, Stop, in_drain, poll_failed, wait_failed, unfinished,
  is_ready, drain_both, in_session, poll_loop, measure,
}
use cache_lens.Session.Ring.{Track, Grows, Has, HasAll}
use cache_lens.Session.Rings.{EachAfter-Has, EachAfter-HasAll}
use cache_lens.Session.Rounds.{
  EachBoth, Runs, Runs-Grows, Runs-Shows, ended_status, AllTracks-back, BothTracks, AnyReason,
  AnyReason-Grows, BothDone, Has-later, drain_both-BothDone,
}

module _ (abi : PerfAbi) where
  -- The reasons for an early end, each with what in the environment brings it about.
  abbrev pub Reason : List Iteration → Both (List Track) → Stop → Type 0
  Reason its end (in_drain f) = AnyReason abi end f
  Reason its end poll_failed = Any (λ it. it.poll ≡ poll_error) its
  Reason its end wait_failed = Any (λ it. it.wait ≡ wait_error) its
  Reason its end unfinished = All (λ it. it.wait ≡ running) its

  abbrev LoopDone :
      List Iteration
      → Both (List Track)
      → Result Stop (Both (List SamplingEvent) × ExitStatus)
      → Type 0
  LoopDone its end (ok (ev, st)) = EachBoth (Has abi) end ev × (ended_status its ≡ some st)
  LoopDone its end (err s) = Reason its end s

  abbrev pub IsExact :
      List Iteration
      → Both (List Track)
      → Result Stop (Both (List SamplingEvent) × ExitStatus)
      → Type 0
  IsExact its end (ok (ev, st)) = EachBoth (HasAll abi) end ev × (ended_status its ≡ some st)
  IsExact its end (err s) = Reason its end s

  LoopDone-more :
      (it : Iteration) (its : List Iteration) (end : Both (List Track))
      (r : Result Stop (Both (List SamplingEvent) × ExitStatus))
      → it.wait ≡ running
      → LoopDone its end r
      → LoopDone (it ∷ its) end r
  LoopDone-more it its end (ok (ev, st)) e (h, s) = (h, rw e s)
  LoopDone-more it its end (err (in_drain f)) e x = x
  LoopDone-more it its end (err poll_failed) e x = inr x
  LoopDone-more it its end (err wait_failed) e x = inr x
  LoopDone-more it its end (err unfinished) e x = (e, x)

  -- The rest of a round behind its drains.
  after_drains :
      (ready_mask : ℕ) (it : Iteration) (its : List Iteration) (now end : Both (List Track))
      (r : Result Fatal (Both (List SamplingEvent)))
      → EachBoth Grows now end
      → BothDone abi (is_ready ready_mask) it.shown now r
      → ((ev : Both (List SamplingEvent))
          → EachBoth (Has abi) now ev
          → LoopDone its end (poll_loop abi ready_mask its ev))
      → LoopDone (it ∷ its) end (
          in_session r >>= λ ev. (elim it.wait [
            | wait_error ↦ err wait_failed
            | running ↦ poll_loop abi ready_mask its ev
            | ended status ↦ ok (ev, status)
          ]))
  unfolding in_session
  after_drains ready_mask it its now end (err f) g x again = AnyReason-Grows abi now end f g x
  after_drains ready_mask it its now end (ok ev) g (m, a) again = by_wait it.wait refl
    where
      has : EachBoth (Has abi) now ev
      has = (
        EachAfter-Has abi (is_ready ready_mask) it.shown.miss now.miss ev.miss m,
        EachAfter-Has abi (is_ready ready_mask) it.shown.access now.access ev.access a,
      )

      by_wait :
          (w : WaitOutcome)
          → it.wait ≡ w
          → LoopDone (it ∷ its) end (elim w [
            | wait_error ↦ err wait_failed
            | running ↦ poll_loop abi ready_mask its ev
            | ended status ↦ ok (ev, status)
          ])
      by_wait wait_error e = inl e
      by_wait running e =
          LoopDone-more it its end (poll_loop abi ready_mask its ev) e (again ev has)
      by_wait (ended st) e = (Has-later abi now end ev g has, rw e)

  by_poll :
      (it : Iteration) (its : List Iteration) (end : Both (List Track))
      (r : Result Stop (Both (List SamplingEvent) × ExitStatus)) (p : PollOutcome)
      → it.poll ≡ p
      → LoopDone (it ∷ its) end r
      → LoopDone (it ∷ its) end (elim p [ poll_error ↦ err poll_failed | _ ↦ r ])
  by_poll it its end r poll_error e h = inl e
  by_poll it its end r polled e h = h
  by_poll it its end r interrupted e h = h

  poll_loop-LoopDone :
      (ready_mask : ℕ) (its : List Iteration) (before end : Both (List Track))
      (final : Both (List Shown)) (ev : Both (List SamplingEvent))
      → BothTracks abi end
      → Runs abi before its final end
      → EachBoth (Has abi) before ev
      → LoopDone its end (poll_loop abi ready_mask its ev)
  unfolding poll_loop
  poll_loop-LoopDone ready_mask [] before end final ev v r h = tt
  poll_loop-LoopDone ready_mask (it ∷ its) before end final ev v (now, (g, (s, r))) h =
      let later = Runs-Grows abi now its final end r in
      let tracks : BothTracks abi now = (
        AllTracks-back abi now.miss end.miss later.0 v.0,
        AllTracks-back abi now.access end.access later.1 v.1,
      ) in
      let round =
        after_drains ready_mask it its now end (drain_both abi (is_ready ready_mask) it.shown ev)
          later
          (drain_both-BothDone abi (is_ready ready_mask) it.shown now ev tracks s
            (Has-later abi before now ev g h))
          (λ ev' h'. poll_loop-LoopDone ready_mask its now end final ev' v r h') in
      by_poll it its end _ it.poll refl round

  -- A session in which the kernel writes whole records to the rings, in any amounts and at any
  -- times, also between and behind the rounds. If it ends, each ring has got exactly the records written to
  -- it: every sample once, in order and with the values written, every counter right modulo 2 ^ 64,
  -- and no change of the sampling rate was among them; and the status is that of the round at which
  -- the child was first seen to have ended. It ends early only for these reasons: a ring was written
  -- more than its size or a change of the sampling rate, poll or waitpid failed, or the child was
  -- running at every round.
  pub measure-IsExact :
      (ready_mask : ℕ) (its : List Iteration) (before end : Both (List Track))
      (final : Both (List Shown)) (ev : Both (List SamplingEvent))
      → BothTracks abi end
      → Runs abi before its final end
      → EachBoth (Has abi) before ev
      → IsExact its end (measure abi ready_mask its final ev)
  unfolding measure in_session
  measure-IsExact ready_mask its before end final ev v r h =
      last (poll_loop abi ready_mask its ev)
        (poll_loop-LoopDone ready_mask its before end final ev v r h)
    where
      finish :
          (st : ExitStatus) (q : Result Fatal (Both (List SamplingEvent)))
          → ended_status its ≡ some st
          → BothDone abi (λ _. true) final end q
          → IsExact its end (in_session q >>= λ ev'. ok (ev', st))
      finish st (ok ev') e (m, a) = (
        (
          EachAfter-HasAll abi final.miss end.miss ev'.miss m,
          EachAfter-HasAll abi final.access end.access ev'.access a,
        ),
        e,
      )
      finish st (err f) e x = x

      last :
          (q : Result Stop (Both (List SamplingEvent) × ExitStatus))
          → LoopDone its end q
          → IsExact its end (
              q >>= λ p. in_session (drain_both abi (λ _. true) final p.0) >>= λ ev'. ok (ev', p.1))
      last (ok (ev', st)) (h', e) = finish st (drain_both abi (λ _. true) final ev') e (
          drain_both-BothDone abi (λ _. true) final end ev' v
            (Runs-Shows abi before its final end r) h')
      last (err s) x = x
