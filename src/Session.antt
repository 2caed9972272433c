-- ===== src/Session.antt =====
-- src/main.cpp: the measurement run of `main`, from the poll loop to the last drain.
--
-- `ev[0]` and `ev[1]` are the fields of `Both`. What the system calls of one round return is an
-- `Iteration`: the outcome of poll, what each ring shows when it is drained (its `revents`, its bytes
-- and its `data_head`), and the outcome of waitpid. The clock readings that are only printed are left
-- out.
pub mod Ring
pub mod Rings
pub mod Rounds
pub mod Exact
pub mod Lengths
pub mod Example
mod Tests
use Prim.Native.Nat.{bit_and}
use cache_lens.Prelude.{
  ℕ, ◌+◌, Bool, true, false, not, List, [], ◌∷◌, ◌==◌, if◌then◌else◌, Result, ok, err, ◌>>=◌,
}
use cache_lens.Perf.{RingLabel, Fatal, PerfAbi}
use cache_lens.Drain.{Drained, drain}

-- An array `X[2]` over the two events.
pub record Both (A : Type 0) : Type 0 where
  pub miss : A
  pub access : A

pub record CountReadFormat : Type 0 where
  pub value : ℕ
  pub time_enabled : ℕ
  pub time_running : ℕ

-- `struct SamplingEvent`; `drained` is its `tail`, `samples` and `hist`.
pub record SamplingEvent : Type 0 where
  pub cpu : ℕ
  pub data_size : ℕ
  pub drained : Drained
  pub requested_period : ℕ
  pub counts : CountReadFormat

pub record Shown : Type 0 where
  pub revents : ℕ
  pub bytes : List ℕ
  pub head : ℕ

pub data PollOutcome : Type 0 where
  polled interrupted poll_error : PollOutcome

-- The status that waitpid stores.
pub data ExitStatus : Type 0 where
  exited : ℕ → ExitStatus
  signaled : ℕ → ExitStatus
  neither : ExitStatus

pub data WaitOutcome : Type 0 where
  running : WaitOutcome
  ended : ExitStatus → WaitOutcome
  wait_error : WaitOutcome

pub record Iteration : Type 0 where
  pub poll : PollOutcome
  pub shown : Both (List Shown)
  pub wait : WaitOutcome

-- How the run can end early. `unfinished` is no end: the given rounds are over and the child runs on.
pub data Stop : Type 0 where
  in_drain : Fatal → Stop
  poll_failed wait_failed unfinished : Stop

abbrev pub event_miss : ℕ
event_miss = 0

abbrev pub event_access : ℕ
event_access = 1

-- A status that is neither leaves `exit_code` at 0.
pub exit_code : ExitStatus → ℕ
exit_code (exited n) = n
exit_code (signaled n) = 128 + n
exit_code neither = 0

-- `p.revents & (POLLIN | POLLHUP | POLLERR)`
pub is_ready : ℕ → Shown → Bool
is_ready ready_mask sh = not (bit_and sh.revents ready_mask == 0)

pub in_session : Result Fatal (Both (List SamplingEvent)) → Result Stop (Both (List SamplingEvent))
in_session (ok ev) = ok ev
in_session (err e) = err (in_drain e)

module _ (abi : PerfAbi) where
  pub drain_ring : ℕ → Shown → SamplingEvent → Result Fatal SamplingEvent
  drain_ring event sh e =
      drain abi (record { event = event; cpu = e.cpu }) sh.bytes e.data_size sh.head e.drained
      >>= λ r. ok (record e { drained = r.0 })

  -- The loop over one event's rings, which drains those that `pick` picks.
  pub drain_rings :
      (Shown → Bool) → ℕ → List Shown → List SamplingEvent → Result Fatal (List SamplingEvent)
  drain_rings pick event [] es = ok es
  drain_rings pick event (sh ∷ shs) [] = ok []
  drain_rings pick event (sh ∷ shs) (e ∷ es) =
      (if pick sh then drain_ring event sh e else ok e) >>= λ e'.
      drain_rings pick event shs es >>= λ es'. ok (e' ∷ es')

  -- The loop over the two events.
  pub drain_both :
      (Shown → Bool)
      → Both (List Shown)
      → Both (List SamplingEvent)
      → Result Fatal (Both (List SamplingEvent))
  drain_both pick shown ev = drain_rings pick event_miss shown.miss ev.miss >>= λ miss.
      drain_rings pick event_access shown.access ev.access >>= λ access.
      ok (record { miss = miss; access = access })

  -- `while (!child_exited)`, with `ready_mask` for `POLLIN | POLLHUP | POLLERR`, over the rounds that the environment gives.
  pub poll_loop :
      ℕ
      → List Iteration
      → Both (List SamplingEvent)
      → Result Stop (Both (List SamplingEvent) × ExitStatus)
  poll_loop ready_mask [] ev = err unfinished
  poll_loop ready_mask (it ∷ its) ev = elim it.poll [
    | poll_error ↦ err poll_failed
    | _ ↦ in_session (drain_both (is_ready ready_mask) it.shown ev) >>= λ ev'. (elim it.wait [
      | wait_error ↦ err wait_failed
      | running ↦ poll_loop ready_mask its ev'
      | ended status ↦ ok (ev', status)
    ])
  ]

  -- The poll loop and the drain of every ring behind it.
  pub measure :
      ℕ
      → List Iteration
      → Both (List Shown)
      → Both (List SamplingEvent)
      → Result Stop (Both (List SamplingEvent) × ExitStatus)
  measure ready_mask its final ev = poll_loop ready_mask its ev >>= λ r.
      in_session (drain_both (λ _. true) final r.0) >>= λ ev'. ok (ev', r.1)
