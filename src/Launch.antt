-- ===== src/Launch.antt =====
-- src/main.cpp: the child and the rings of a run, from `fork_stop_exec` to the table for poll, with
-- `finish_sampling`.
--
-- What the kernel answers is an argument: of fork, of the first wait, and of the three calls
-- for each ring (`RingAnswer`), one for each CPU.
pub mod Rings
pub mod Table
pub mod Granted
pub mod Ends
pub mod Order
pub mod Balance
mod Tests
use Prim.Native.Nat.{bit_or}
use cache_lens.Prelude.{
  ℕ, zero, suc, ◌+◌, ◌*◌, Bool, true, false, not, ◌||◌, Option, none, some, List, [], ◌∷◌, ◌++◌,
  ltb, ◌==◌, if◌then◌else◌, Result, ok, err,
}
use cache_lens.Keys.Order.{ℤ, pos, negsuc}
use cache_lens.Perf.{no_records}
use cache_lens.Session.{Both, CountReadFormat, SamplingEvent}
use cache_lens.System.{
  PerfEventAttr, PerfNumbers, Call, forked, saw_stop, opened, mapped, resumed, counts_read,
  unmapped, closed, Traced, call, done, halt, ◌>>=◌, ◌>>◌,
}

-- What is printed of an errno at which perf_event_open fails.
pub data Diagnosis : Type 0 where
  too_restrictive not_implemented undiagnosed : Diagnosis

pub record Errnos : Type 0 where
  pub eacces : ℕ
  pub eperm : ℕ
  pub enoent : ℕ

pub diagnose_perf_open_failure : Errnos → ℕ → Diagnosis
diagnose_perf_open_failure e errno =
    if (errno == e.eacces) || (errno == e.eperm)
    then too_restrictive
    else if errno == e.enoent
    then not_implemented
    else undiagnosed

-- The messages on which the process ends.
pub data LaunchHalt : Type 0 where
  fork_failed stop_wait_failed not_stopped : LaunchHalt
  open_failed : Diagnosis → (cpu : ℕ) → LaunchHalt
  no_page_size : LaunchHalt
  map_failed : (cpu : ℕ) → LaunchHalt
  resume_failed read_failed : LaunchHalt

-- The child behind fork: it ends by itself, or it stops and goes on as the target.
pub data ChildEnd : Type 0 where
  exits : (status : ℕ) → ChildEnd
  stops_then : ChildEnd → ChildEnd
  runs_target : ChildEnd

-- `personality`, `raise` and `execvp` as the child calls them: whether each succeeds.
pub child_of_fork : Bool → Bool → Bool → ChildEnd
child_of_fork personality_set stopped execs =
    if not personality_set
    then exits 1
    else if not stopped
    then exits 1
    else stops_then (if execs then runs_target else exits 127)

-- fork gives the child's number, or none; the wait for its stop gives none where it fails, or whether it
-- stopped.
unfoldable pub fork_stop_exec : Option ℕ → Option Bool → Traced LaunchHalt ℕ
fork_stop_exec none stop = halt fork_failed
fork_stop_exec (some child) none = call (forked child) >> halt stop_wait_failed
fork_stop_exec (some child) (some false) = call (forked child) >> halt not_stopped
fork_stop_exec (some child) (some true) =
    call (forked child) >> (call (saw_stop child) >> done child)

-- What perf_event_open (a descriptor, or the errno), sysconf and mmap give for one ring, and what the
-- page at the ring's head says of its data.
pub record RingAnswer : Type 0 where
  pub descriptor : Result ℕ ℕ
  pub page_size : ℤ
  pub base : Option ℕ
  pub data_offset : ℕ
  pub data_size : ℕ

-- `SamplingEvent`: the fields that Session has, and those that it leaves out.
pub record Ring : Type 0 where
  pub fd : ℕ
  pub mmap_base : ℕ
  pub mmap_len : ℕ
  pub data_start : ℕ
  pub event : SamplingEvent

-- `1UL << 7`
abbrev pub data_pages : ℕ
data_pages = 128

module _ (k : PerfNumbers) where
  abbrev pub total_times : ℕ
  total_times = bit_or (k.format_total_time_enabled) (k.format_total_time_running)

  -- The attributes in `open_counting`.
  pub counting_attr : ℕ → PerfEventAttr
  counting_attr hw_config = record {
    kind = k.type_hardware;
    config = hw_config;
    disabled = 1;
    enable_on_exec = 1;
    inherit = 1;
    exclude_kernel = 1;
    exclude_hv = 1;
    read_format = total_times;
    sample_type = 0;
    sample_period = 0;
    precise_ip = 0;
    wakeup_events = 0;
  }

  -- `open_counting`, on any CPU (-1)
  unfoldable pub open_counting : ℕ → ℕ → Result ℕ ℕ → Traced ℕ ℕ
  open_counting hw_config child (err errno) = halt errno
  open_counting hw_config child (ok fd) =
      call (opened (counting_attr hw_config) child (negsuc 0) fd) >> done fd

  -- The attributes in `open_sampling`.
  pub sampling_attr : ℕ → ℕ → PerfEventAttr
  sampling_attr hw_config period = record {
    kind = k.type_hardware;
    config = hw_config;
    disabled = 1;
    enable_on_exec = 1;
    inherit = 1;
    exclude_kernel = 1;
    exclude_hv = 1;
    read_format = total_times;
    sample_type = bit_or (bit_or (k.sample_ip) (k.sample_tid)) (k.sample_period_bit);
    sample_period = period;
    precise_ip = 0;
    wakeup_events = 1000;
  }

  -- The part of `open_sampling` behind perf_event_open, by the page size and by what mmap gives.
  pub map_ring : ℕ → ℕ → ℕ → RingAnswer → ℤ → Option ℕ → Traced LaunchHalt Ring
  map_ring period cpu fd a (negsuc n) base = halt no_page_size
  map_ring period cpu fd a (pos zero) base = halt no_page_size
  map_ring period cpu fd a (pos (suc n)) none = halt (map_failed cpu)
  map_ring period cpu fd a (pos (suc n)) (some base) =
      call (mapped fd base ((1 + data_pages) * suc n))
      >> done (record {
        fd = fd;
        mmap_base = base;
        mmap_len = (1 + data_pages) * suc n;
        data_start = base + a.data_offset;
        event = record {
          cpu = cpu;
          data_size = a.data_size;
          drained = record { tail = 0; samples = []; hist = no_records };
          requested_period = period;
          counts = record { value = 0; time_enabled = 0; time_running = 0 };
        };
      })

  module _ (e : Errnos) where
    -- `open_sampling`, by what perf_event_open gives.
    pub open_sampling : ℕ → ℕ → ℕ → ℕ → RingAnswer → Result ℕ ℕ → Traced LaunchHalt Ring
    open_sampling hw_config period child cpu a (err errno) =
        halt (open_failed (diagnose_perf_open_failure e errno) cpu)
    open_sampling hw_config period child cpu a (ok fd) =
        call (opened (sampling_attr hw_config period) child (pos cpu) fd)
        >> map_ring period cpu fd a a.page_size a.base

    -- The loop over the CPUs, from `cpu` on.
    pub open_cpus : ℕ → ℕ → ℕ → ℕ → List RingAnswer → Traced LaunchHalt (List Ring)
    open_cpus hw_config period child cpu [] = done []
    open_cpus hw_config period child cpu (a ∷ as') =
        open_sampling hw_config period child cpu a a.descriptor >>= λ r.
        open_cpus hw_config period child (cpu + 1) as' >>= λ rs. done (r ∷ rs)

    -- The loop over the two events.
    pub open_both : Both ℕ → ℕ → Both (List RingAnswer) → Traced LaunchHalt (Both (List Ring))
    open_both period child answers =
        open_cpus (k.hw_cache_misses) period.miss child 0 answers.miss >>= λ miss.
        open_cpus (k.hw_cache_references) period.access child 0 answers.access >>= λ access.
        done (record { miss = miss; access = access })

    -- From fork to the SIGCONT at which the target starts.
    pub launch :
        Both ℕ
        → Option ℕ
        → Option Bool
        → Both (List RingAnswer)
        → Bool
        → Traced LaunchHalt (ℕ × Both (List Ring))
    launch period pid stop answers resumes = fork_stop_exec pid stop >>= λ child.
        open_both period child answers >>= λ ev.
        if resumes then (call (resumed child) >> done (child, ev)) else halt resume_failed

-- `finish_sampling`, with what read(2) gives, none where it falls short.
pub finish_sampling : Ring → Option CountReadFormat → Traced LaunchHalt Ring
finish_sampling r none = halt read_failed
finish_sampling r (some c) =
    call (counts_read r.fd)
    >> (call (unmapped r.mmap_base r.mmap_len)
        >> (call (closed r.fd) >> done (record r { event = record (r.event) { counts = c } })))

pub finish_cpus : List (Option CountReadFormat) → List Ring → Traced LaunchHalt (List Ring)
finish_cpus cs [] = done []
finish_cpus [] (r ∷ rs) = halt read_failed
finish_cpus (c ∷ cs) (r ∷ rs) =
    finish_sampling r c >>= λ r'. finish_cpus cs rs >>= λ rs'. done (r' ∷ rs')

pub finish_both :
    Both (List (Option CountReadFormat)) → Both (List Ring) → Traced LaunchHalt (Both (List Ring))
finish_both reads ev = finish_cpus reads.miss ev.miss >>= λ miss.
    finish_cpus reads.access ev.access >>= λ access. done (record { miss = miss; access = access })

-- `pfd`: the descriptors, one for each ring, with an access out of its bounds as none.
pub set_at : ℕ → ℕ → List ℕ → Option (List ℕ)
set_at i v [] = none
set_at zero v (x ∷ xs) = some (v ∷ xs)
set_at (suc i) v (x ∷ xs) = elim (set_at i v xs) [ none ↦ none | some xs' ↦ some (x ∷ xs') ]

-- The loop over the CPUs of event `i`, from `c` on.
pub fill_cpus : ℕ → ℕ → ℕ → List Ring → List ℕ → Option (List ℕ)
fill_cpus nr_cpus i c [] pfd = some pfd
fill_cpus nr_cpus i c (r ∷ rs) pfd = elim (set_at (i * nr_cpus + c) r.fd pfd) [
  | none ↦ none
  | some pfd' ↦ fill_cpus nr_cpus i (c + 1) rs pfd'
]

abbrev pub zeros : ℕ → List ℕ
zeros zero = []
zeros (suc n) = 0 ∷ zeros n

pub fill_pfd : ℕ → Both (List Ring) → Option (List ℕ)
fill_pfd nr_cpus ev = elim (fill_cpus nr_cpus 0 0 ev.miss (zeros (2 * nr_cpus))) [
  | none ↦ none
  | some pfd ↦ fill_cpus nr_cpus 1 0 ev.access pfd
]
