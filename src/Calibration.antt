-- ===== src/Calibration.antt =====
-- src/main.cpp: the calibration run, `calibrate_both`, with its child and its two counters.
--
-- Setup takes of this run what the choice of the periods takes; here are the system calls around it.
pub mod Refine
mod Tests
use cache_lens.Prelude.{ℕ, Bool, true, false, Option, none, some, [], ◌∷◌, ◌++◌, Result, ok, err}
use cache_lens.Doubles.{Doubles}
use cache_lens.Session.{Both, CountReadFormat, ExitStatus, event_miss, event_access, exit_code}
use cache_lens.Setup.{Halt, resume_failed, short_read, CalibrationRun, calibrate_one}
use cache_lens.System.{
  PerfNumbers, reaped, resumed, counts_read, closed, Traced, call, done, halt, ◌>>=◌, ◌>>◌,
}
use cache_lens.Launch.{
  LaunchHalt, Diagnosis, Errnos, diagnose_perf_open_failure, fork_stop_exec, open_counting,
}

-- What the kernel answers: fork and the wait for the stop, perf_event_open for each counter (a descriptor,
-- or the errno), kill, the wait for the end, and the reads.
pub record Answers : Type 0 where
  pub pid : Option ℕ
  pub stop : Option Bool
  pub descriptors : Both (Result ℕ ℕ)
  pub resumes : Bool
  pub ended : Option ExitStatus
  pub reads : Both (Option CountReadFormat)

-- The messages on which the process ends.
pub data CalibrationHalt : Type 0 where
  launching : LaunchHalt → CalibrationHalt
  not_opened : (event : ℕ) → Diagnosis → CalibrationHalt
  wait_failed : CalibrationHalt
  refused : Halt → CalibrationHalt

-- `reap`, by what waitpid gives.
pub reap : ℕ → Option ExitStatus → Traced CalibrationHalt ℕ
reap child none = halt wait_failed
reap child (some status) = call (reaped child) >> done (exit_code status)

abbrev pub lift : {E A : Type 0} → (E → CalibrationHalt) → Result E A → Traced CalibrationHalt A
lift why (ok a) = done a
lift why (err e) = halt (why e)

-- A part with the message that its end has here.
abbrev pub ending : {E A : Type 0} → (E → CalibrationHalt) → Traced E A → Traced CalibrationHalt A
ending why m = record { calls = m.calls; result = (lift why m.result).result }

module _ (k : PerfNumbers) (e : Errnos) where
  -- A round of the loop that opens the counters.
  pub open_one : ℕ → ℕ → ℕ → Result ℕ ℕ → Traced CalibrationHalt ℕ
  open_one event hw_config child descriptor =
      ending (λ errno. not_opened event (diagnose_perf_open_failure e errno))
        (open_counting k hw_config child descriptor)

  pub resume : ℕ → Bool → Traced CalibrationHalt Unit
  resume child false = halt (refused resume_failed)
  resume child true = call (resumed child)

  module _ (d : Doubles) where
    open d use {Double}

    -- A round of the loop that reads the counters.
    pub read_one : ℕ → Option CountReadFormat → Traced CalibrationHalt Double
    read_one fd none = halt (refused short_read)
    read_one fd (some c) =
        call (counts_read fd) >> (call (closed fd) >> lift refused (calibrate_one d (some c)))

    pub calibrate_both : Answers → Traced CalibrationHalt (Both Double)
    calibrate_both a = ending launching (fork_stop_exec a.pid a.stop) >>= λ child.
        open_one event_miss (k.hw_cache_misses) child a.descriptors.miss >>= λ miss_fd.
        open_one event_access (k.hw_cache_references) child a.descriptors.access >>= λ access_fd.
        resume child a.resumes >>= λ _. reap child a.ended >>= λ code.
        read_one miss_fd a.reads.miss >>= λ miss. read_one access_fd a.reads.access >>= λ access.
        done (record { miss = miss; access = access })

-- What the choice of the periods takes of the run.
pub did_open : Result ℕ ℕ → Bool
did_open (ok fd) = true
did_open (err errno) = false

pub run_of : Answers → CalibrationRun
run_of a = record {
  opened = record { miss = did_open a.descriptors.miss; access = did_open a.descriptors.access };
  resumed = a.resumes;
  reads = a.reads;
}
