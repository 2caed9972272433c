-- ===== src/ExecProbe.antt =====
-- probes/p2_enable_on_exec.c: whether counters opened on a stopped child count from its exec on.
--
-- What the kernel answers in a case is an `Answers`. A wait and a kill whose result the code does not
-- look at are taken to succeed. The labels and the number of CPUs, which are only printed, are left out.
pub mod Cases
pub mod Whole
mod Tests
use Prim.Native.Nat.{bit_or}
use cache_lens.Prelude.{
  ℕ, zero, suc, ◌+◌, ◌==◌, if◌then◌else◌, Bool, true, false, not, ◌&&◌, ◌||◌, Option, none, some,
  List, [], ◌∷◌, Result, ok, err,
}
use cache_lens.Keys.Order.{ℤ, pos, negsuc}
use cache_lens.Session.{CountReadFormat}
use cache_lens.System.{
  PerfEventAttr, PerfNumbers, forked, saw_stop, opened, resumed, killed, reaped, counts_read,
  closed, Traced, call, done, halt, ◌>>=◌, ◌>>◌,
}
use cache_lens.Launch.{ChildEnd, exits, stops_then, runs_target}

-- The messages on which the process ends.
pub data Halt : Type 0 where
  fork_failed stop_wait_failed not_stopped signal_failed read_failed : Halt

-- fork's number or none; of the wait for the stop none where it fails, or whether the child stopped; of
-- perf_event_open a descriptor, or the errno; whether kill succeeds; and what read(2) gives.
pub record Answers : Type 0 where
  pub pid : Option ℕ
  pub stop : Option Bool
  pub descriptor : Result ℕ ℕ
  pub signalled : Bool
  pub counts : Option CountReadFormat

-- What is printed of a case.
pub data Line : Type 0 where
  no_event : (errno : ℕ) → Line
  suspect armed early_arming no_early_arming : CountReadFormat → Line

-- The children: of `fork_stop`, by whether `raise` succeeds, and of `fork_stop_exec_victim`, by whether
-- `sched_setaffinity`, `raise` and `execl` do.
pub placeholder : Bool → ChildEnd
placeholder stopped = if not stopped then exits 1 else stops_then (exits 0)

pub victim : Bool → Bool → Bool → ChildEnd
victim pinned stopped execs =
    if not pinned
    then exits 1
    else if not stopped
    then exits 1
    else stops_then (if execs then runs_target else exits 127)

-- The parents.
pub fork_stop : Option ℕ → Option Bool → Traced Halt ℕ
fork_stop none stop = halt fork_failed
fork_stop (some child) none = call (forked child) >> halt stop_wait_failed
fork_stop (some child) (some false) = call (forked child) >> halt not_stopped
fork_stop (some child) (some true) = call (forked child) >> (call (saw_stop child) >> done child)

pub fork_stop_exec_victim : Option ℕ → Option Bool → Traced Halt ℕ
fork_stop_exec_victim none stop = halt fork_failed
fork_stop_exec_victim (some child) none = call (forked child) >> halt stop_wait_failed
fork_stop_exec_victim (some child) (some false) = call (forked child) >> halt not_stopped
fork_stop_exec_victim (some child) (some true) =
    call (forked child) >> (call (saw_stop child) >> done child)

-- The read at the end of a case, and the close behind it.
pub read_counts : ℕ → Option CountReadFormat → Traced Halt CountReadFormat
read_counts fd none = halt read_failed
read_counts fd (some c) = call (counts_read fd) >> (call (closed fd) >> done c)

pub exec_line : CountReadFormat → Line
exec_line c = if (c.value == 0) || (c.time_running == 0) then suspect c else armed c

pub never_exec_line : CountReadFormat → Line
never_exec_line c =
    if (c.value == 0) && (c.time_running == 0) then no_early_arming c else early_arming c

-- `nproc - 1`
pub last_cpu : ℤ → ℤ
last_cpu (pos zero) = negsuc 0
last_cpu (pos (suc n)) = pos n
last_cpu (negsuc n) = negsuc (n + 1)

module _ (k : PerfNumbers) where
  -- The attributes in `open_event`.
  pub event_attr : PerfEventAttr
  event_attr = record {
    kind = k.type_hardware;
    config = k.hw_cache_misses;
    disabled = 1;
    enable_on_exec = 1;
    inherit = 0;
    exclude_kernel = 1;
    exclude_hv = 1;
    read_format = bit_or (k.format_total_time_enabled) (k.format_total_time_running);
    sample_type = 0;
    sample_period = 0;
    precise_ip = 0;
    wakeup_events = 0;
  }

  -- `open_event`, by what perf_event_open gives.
  pub open_event : ℕ → ℤ → Result ℕ ℕ → Traced Halt (Result ℕ ℕ)
  open_event child cpu (err errno) = done (err errno)
  open_event child cpu (ok fd) = call (opened event_attr child cpu fd) >> done (ok fd)

  -- The rest of `run_case_exec` and of `run_case_never_exec`, by whether there is a counter and by whether
  -- kill succeeds.
  pub let_run : ℕ → Option CountReadFormat → Result ℕ ℕ → Bool → Traced Halt Line
  let_run child counts (err errno) signalled =
      call (killed child) >> (call (reaped child) >> done (no_event errno))
  let_run child counts (ok fd) false = halt signal_failed
  let_run child counts (ok fd) true =
      call (resumed child)
      >> (call (reaped child) >> (read_counts fd counts >>= λ c. done (exec_line c)))

  pub kill_stopped : ℕ → Option CountReadFormat → Result ℕ ℕ → Bool → Traced Halt Line
  kill_stopped child counts (err errno) signalled =
      call (killed child) >> (call (reaped child) >> done (no_event errno))
  kill_stopped child counts (ok fd) false = halt signal_failed
  kill_stopped child counts (ok fd) true =
      call (killed child)
      >> (call (reaped child) >> (read_counts fd counts >>= λ c. done (never_exec_line c)))

  pub run_case_exec : ℤ → Answers → Traced Halt Line
  run_case_exec cpu a = fork_stop_exec_victim a.pid a.stop >>= λ child.
      open_event child cpu a.descriptor >>= λ d. let_run child a.counts d a.signalled

  pub run_case_never_exec : ℤ → Answers → Traced Halt Line
  run_case_never_exec cpu a = fork_stop a.pid a.stop >>= λ child.
      open_event child cpu a.descriptor >>= λ d. kill_stopped child a.counts d a.signalled

  -- The three cases, with what the kernel answers in each.
  pub run_cases : ℤ → Answers → Answers → Answers → Traced Halt (Line × Line × Line)
  run_cases nproc a b c = run_case_exec (pos 0) a >>= λ la. run_case_never_exec (pos 0) b >>= λ lb.
      run_case_exec (last_cpu nproc) c >>= λ lc. done (la, lb, lc)

  -- None for a wrong number of arguments.
  pub main : ℕ → ℤ → Answers → Answers → Answers → Traced Halt (Option (Line × Line × Line))
  main argc nproc a b c =
      if argc == 2 then (run_cases nproc a b c >>= λ lines. done (some lines)) else done none

pub status_of : Result Halt (Option (Line × Line × Line)) → ℕ
status_of (ok (some lines)) = 0
status_of (ok none) = 2
status_of (err h) = 1
