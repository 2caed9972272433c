-- ===== src/Session/Lengths.antt =====
-- A session keeps every ring: as many come out as went in.
use cache_lens.Prelude.{
  ℕ, ◌≡◌, refl, ◌∙◌, Bool, true, List, [], ◌∷◌, arith, length, Result, ok, err, ◌>>=◌,
  if◌then◌else◌,
}
use cache_lens.Perf.{Fatal, PerfAbi}
use cache_lens.Session.{
  Both, Shown, SamplingEvent, PollOutcome, polled, interrupted, poll_error, ExitStatus, WaitOutcome,
  running, ended, wait_error, Iteration, Stop, poll_failed, wait_failed, is_ready, drain_ring,
  drain_rings, drain_both, in_session, poll_loop, measure,
}

abbrev KeepsLength : List SamplingEvent → Result Fatal (List SamplingEvent) → Type 0
KeepsLength es (ok es') = length es' ≡ length es
KeepsLength es (err e) = Unit

-- As many rings of either event.
abbrev pub SameLengths : Both (List SamplingEvent) → Both (List SamplingEvent) → Type 0
SameLengths ev ev' = (length ev'.miss ≡ length ev.miss) × (length ev'.access ≡ length ev.access)

abbrev KeepsBoth :
    {E : Type 0} → Both (List SamplingEvent) → Result E (Both (List SamplingEvent)) → Type 0
KeepsBoth ev (ok ev') = SameLengths ev ev'
KeepsBoth ev (err e) = Unit

abbrev pub KeepsRings :
    Both (List SamplingEvent) → Result Stop (Both (List SamplingEvent) × ExitStatus) → Type 0
KeepsRings ev (ok r) = SameLengths ev r.0
KeepsRings ev (err e) = Unit

module _ (abi : PerfAbi) where
  drain_rings-KeepsLength :
      (pick : Shown → Bool) (event : ℕ) (shs : List Shown) (es : List SamplingEvent)
      → KeepsLength es (drain_rings abi pick event shs es)
  unfolding drain_rings
  drain_rings-KeepsLength pick event [] es = refl
  drain_rings-KeepsLength pick event (sh ∷ shs) [] = refl
  drain_rings-KeepsLength pick event (sh ∷ shs) (e ∷ es) =
      both (if pick sh then drain_ring abi event sh e else ok e) (drain_rings abi pick event shs es)
        (drain_rings-KeepsLength pick event shs es)
    where
      both :
          (a : Result Fatal SamplingEvent) (r : Result Fatal (List SamplingEvent))
          → KeepsLength es r
          → KeepsLength (e ∷ es) (a >>= λ e'. r >>= λ es'. ok (e' ∷ es'))
      both (err f) r h = tt
      both (ok e') (err f) h = tt
      both (ok e') (ok es') h = omega (arith, h)

  drain_both-KeepsBoth :
      (pick : Shown → Bool) (shown : Both (List Shown)) (ev : Both (List SamplingEvent))
      → KeepsBoth ev (drain_both abi pick shown ev)
  unfolding drain_both
  drain_both-KeepsBoth pick shown ev =
      both (drain_rings abi pick 0 shown.miss ev.miss)
        (drain_rings abi pick 1 shown.access ev.access)
        (drain_rings-KeepsLength pick 0 shown.miss ev.miss)
        (drain_rings-KeepsLength pick 1 shown.access ev.access)
    where
      both :
          (m a : Result Fatal (List SamplingEvent))
          → KeepsLength ev.miss m
          → KeepsLength ev.access a
          → KeepsBoth ev
              (m >>= λ miss. a >>= λ access. ok (record { miss = miss; access = access }))
      both (err f) a h k = tt
      both (ok x) (err f) h k = tt
      both (ok x) (ok y) h k = (h, k)

  KeepsRings-back :
      (ev ev' : Both (List SamplingEvent))
      (r : Result Stop (Both (List SamplingEvent) × ExitStatus))
      → SameLengths ev ev'
      → KeepsRings ev' r
      → KeepsRings ev r
  KeepsRings-back ev ev' (ok r) s h = (h.0 ∙ s.0, h.1 ∙ s.1)
  KeepsRings-back ev ev' (err e) s h = tt

  poll_loop-KeepsRings :
      (ready_mask : ℕ) (its : List Iteration) (ev : Both (List SamplingEvent))
      → KeepsRings ev (poll_loop abi ready_mask its ev)
  unfolding poll_loop in_session
  poll_loop-KeepsRings ready_mask [] ev = tt
  poll_loop-KeepsRings ready_mask (it ∷ its) ev =
      by_poll it.poll (drain_both abi (is_ready ready_mask) it.shown ev)
        (drain_both-KeepsBoth (is_ready ready_mask) it.shown ev)
        (λ ev'. poll_loop-KeepsRings ready_mask its ev')
    where
      by_wait :
          (ev' : Both (List SamplingEvent)) (w : WaitOutcome)
          → SameLengths ev ev'
          → KeepsRings ev' (poll_loop abi ready_mask its ev')
          → KeepsRings ev (elim w [
            | wait_error ↦ err wait_failed
            | running ↦ poll_loop abi ready_mask its ev'
            | ended status ↦ ok (ev', status)
          ])
      by_wait ev' wait_error s h = tt
      by_wait ev' running s h = KeepsRings-back ev ev' (poll_loop abi ready_mask its ev') s h
      by_wait ev' (ended st) s h = s

      by_poll :
          (p : PollOutcome) (r : Result Fatal (Both (List SamplingEvent)))
          → KeepsBoth ev r
          → ((ev' : Both (List SamplingEvent)) → KeepsRings ev' (poll_loop abi ready_mask its ev'))
          → KeepsRings ev (elim p [
            | poll_error ↦ err poll_failed
            | _ ↦ in_session r >>= λ ev'. (elim it.wait [
              | wait_error ↦ err wait_failed
              | running ↦ poll_loop abi ready_mask its ev'
              | ended status ↦ ok (ev', status)
            ])
          ])
      by_poll poll_error r h again = tt
      by_poll polled (err e) h again = tt
      by_poll polled (ok ev') h again = by_wait ev' it.wait h (again ev')
      by_poll interrupted (err e) h again = tt
      by_poll interrupted (ok ev') h again = by_wait ev' it.wait h (again ev')

  -- The poll loop and the drain behind it.
  pub measure-KeepsRings :
      (ready_mask : ℕ) (its : List Iteration) (final : Both (List Shown))
      (ev : Both (List SamplingEvent))
      → KeepsRings ev (measure abi ready_mask its final ev)
  unfolding measure in_session
  measure-KeepsRings ready_mask its final ev =
      by_loop (poll_loop abi ready_mask its ev) (poll_loop-KeepsRings ready_mask its ev)
    where
      by_drain :
          (ev' : Both (List SamplingEvent)) (st : ExitStatus)
          (r : Result Fatal (Both (List SamplingEvent)))
          → SameLengths ev ev'
          → KeepsBoth ev' r
          → KeepsRings ev (in_session r >>= λ ev''. ok (ev'', st))
      by_drain ev' st (err e) s h = tt
      by_drain ev' st (ok ev'') s h = (h.0 ∙ s.0, h.1 ∙ s.1)

      by_loop :
          (r : Result Stop (Both (List SamplingEvent) × ExitStatus))
          → KeepsRings ev r
          → KeepsRings ev (
              r >>= λ q. in_session (drain_both abi (λ _. true) final q.0) >>= λ ev'. ok (ev', q.1))
      by_loop (err e) h = tt
      by_loop (ok (ev', st)) h =
          by_drain ev' st (drain_both abi (λ _. true) final ev') h
            (drain_both-KeepsBoth (λ _. true) final ev')
