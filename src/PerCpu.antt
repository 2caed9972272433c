-- ===== src/PerCpu.antt =====
-- probes/p1_percpu_open.c: whether a counter can be opened and its ring mapped on every CPU.
--
-- What the kernel answers on a CPU is an argument, an `Answer` for each. The paranoid level, which is only
-- printed, is left out. A `size_t` is taken modulo 2 ^ 64.
pub mod Verdict
mod Tests
use Prim.Native.Nat.{bit_or}
use cache_lens.Prelude.{
  ℕ, zero, suc, ◌+◌, ◌*◌, Bool, true, false, Option, none, some, List, [], ◌∷◌, ◌++◌, if◌then◌else◌,
  Result, ok, err,
}
use cache_lens.Prelude.Words.{u64}
use cache_lens.Keys.Order.{ℤ, pos}
use cache_lens.Setup.{positive}
use cache_lens.System.{PerfEventAttr, PerfNumbers, Call, opened, mapped, unmapped, closed}

-- What perf_event_open (a descriptor, or the errno) and mmap (an address, or the errno) give.
pub record Answer : Type 0 where
  pub descriptor : Result ℕ ℕ
  pub base : Result ℕ ℕ

-- The line printed for a CPU.
pub data Line : Type 0 where
  open_failed : (cpu errno : ℕ) → Line
  map_failed : (cpu errno : ℕ) → Line
  both_ok : (cpu : ℕ) → Line

pub record Run : Type 0 where
  pub calls : List Call
  pub lines : List Line
  pub all_ok : Bool

module _ (k : PerfNumbers) (pid page_size : ℕ) where
  pub probe_attr : PerfEventAttr
  probe_attr = record {
    kind = k.type_hardware;
    config = k.hw_cache_misses;
    disabled = 1;
    enable_on_exec = 0;
    inherit = 0;
    exclude_kernel = 1;
    exclude_hv = 1;
    read_format = 0;
    sample_type = bit_or (bit_or (k.sample_ip) (k.sample_tid)) (k.sample_period_bit);
    sample_period = 10000;
    precise_ip = 0;
    wakeup_events = 0;
  }

  -- The loop's body, by what perf_event_open and mmap give; `all_ok` is its value before.
  pub probe_cpu : Bool → ℕ → Result ℕ ℕ → Result ℕ ℕ → Run
  probe_cpu all_ok cpu (err errno) base = record {
    calls = [];
    lines = open_failed cpu errno ∷ [];
    all_ok = false;
  }
  probe_cpu all_ok cpu (ok fd) (err errno) = record {
    calls = opened probe_attr pid (pos cpu) fd ∷ closed fd ∷ [];
    lines = map_failed cpu errno ∷ [];
    all_ok = false;
  }
  probe_cpu all_ok cpu (ok fd) (ok base) = record {
    calls =
        opened probe_attr pid (pos cpu) fd
        ∷ mapped fd base (u64 (2 * page_size))
        ∷ unmapped base (u64 (2 * page_size))
        ∷ closed fd
        ∷ [];
    lines = both_ok cpu ∷ [];
    all_ok = all_ok;
  }

  -- The loop over the CPUs from `cpu` on.
  pub probe_cpus : (ℕ → Answer) → ℕ → ℕ → Bool → Run
  probe_cpus answers zero cpu all_ok = record { calls = []; lines = []; all_ok = all_ok }
  probe_cpus answers (suc rounds) cpu all_ok =
      let here = probe_cpu all_ok cpu (answers cpu).descriptor (answers cpu).base in
      let rest = probe_cpus answers rounds (cpu + 1) here.all_ok in
      record {
        calls = here.calls ++ rest.calls;
        lines = here.lines ++ rest.lines;
        all_ok = rest.all_ok;
      }

  -- `main`: none of the lines where the number of CPUs is not known.
  pub main : ℤ → (ℕ → Answer) → Run
  main nproc answers = elim (positive nproc) [
    | none ↦ record { calls = []; lines = []; all_ok = false }
    | some n ↦ probe_cpus answers n 0 true
  ]

  pub status : ℤ → (ℕ → Answer) → ℕ
  status nproc answers = if (main nproc answers).all_ok then 0 else 1
