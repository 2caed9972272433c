-- ===== src/Budget.antt =====
-- probes/p3_mlock_budget.c: how many rings of a size can be opened and mapped, for sizes from large to
-- small.
--
-- The kernel's answer for ring `i` of a size is an argument. A pointer is a number, 0 the null pointer;
-- a `size_t` is taken modulo 2 ^ 64. The limits and the sums in MiB, which are only printed, are left out.
pub mod Balance
pub mod Counted
mod Tests
use Prim.Native.Nat.{bit_or}
use cache_lens.Prelude.{
  ℕ, zero, suc, ◌+◌, ◌*◌, ◌%◌, ◌==◌, if◌then◌else◌, Option, none, some, List, [], ◌∷◌, ◌++◌, Result,
  ok, err, length,
}
use cache_lens.Prelude.Words.{u64}
use cache_lens.Keys.Order.{ℤ, pos, negsuc}
use cache_lens.System.{
  PerfEventAttr, PerfNumbers, Call, opened, mapped, unmapped, closed, Traced, call, done, halt,
  ◌>>◌,
}

-- What perf_event_open (a descriptor, or the errno) and mmap (an address, or the errno) give.
pub record Answer : Type 0 where
  pub descriptor : Result ℕ ℕ
  pub base : Result ℕ ℕ

pub record Ring : Type 0 where
  pub fd : ℤ
  pub base : ℕ
  pub len : ℕ

-- `fail_kind` -1 and -2, with the errno; for mmap with the descriptor left in the ring.
pub data Fail : Type 0 where
  open_failed : (errno : ℕ) → Fail
  map_failed : (fd errno : ℕ) → Fail

-- What is printed of a size, with how many rings were opened.
pub data Line : Type 0 where
  all_rings : (count : ℕ) → Line
  before_open_failed before_map_failed : (count errno : ℕ) → Line

pub close_fd : ℤ → List Call
close_fd (pos fd) = closed fd ∷ []
close_fd (negsuc n) = []

pub close_ring : Ring → List Call
close_ring r = (if r.base == 0 then [] else unmapped r.base r.len ∷ []) ++ close_fd r.fd

-- What the loop over the rings has come to.
pub record Opened : Type 0 where
  pub calls : List Call
  pub rings : List Ring
  pub fail : Option Fail

-- One ring's answer, with what the loop comes to behind it: none of that where it breaks.
pub then_rings : Traced Fail Ring → Opened → Opened
then_rings m rest = elim m.result [
  | ok r ↦ record { calls = m.calls ++ rest.calls; rings = r ∷ rest.rings; fail = rest.fail }
  | err f ↦ record { calls = m.calls; rings = []; fail = some f }
]

pub close_rings : List Ring → List Call
close_rings [] = []
close_rings (r ∷ rs) = close_ring r ++ close_rings rs

pub line_of : ℕ → Option Fail → Line
line_of n none = all_rings n
line_of n (some (open_failed errno)) = before_open_failed n errno
line_of n (some (map_failed fd errno)) = before_map_failed n errno

-- `want`, and the divisor of `i % nproc`, by the number of CPUs as the code has it, -1 where it is not
-- known.
pub want : ℤ → ℕ
want (pos nproc) = 2 * nproc
want (negsuc n) = 0

pub cpus : ℤ → ℕ
cpus (pos nproc) = nproc
cpus (negsuc n) = 0

abbrev pub sizes : List ℕ
sizes = 256 ∷ 128 ∷ 64 ∷ 32 ∷ 16 ∷ []

module _ (k : PerfNumbers) (pid page_size : ℕ) where
  pub ring_attr : PerfEventAttr
  ring_attr = record {
    kind = k.type_hardware;
    config = k.hw_cache_misses;
    disabled = 1;
    enable_on_exec = 0;
    inherit = 0;
    exclude_kernel = 1;
    exclude_hv = 1;
    read_format = 0;
    sample_type = bit_or (bit_or (k.sample_ip) (k.sample_tid)) (k.sample_period_bit);
    sample_period = 100000;
    precise_ip = 0;
    wakeup_events = 0;
  }

  -- `open_and_map_one`, by what perf_event_open and mmap give.
  pub open_and_map_one : ℕ → ℕ → Result ℕ ℕ → Result ℕ ℕ → Traced Fail Ring
  open_and_map_one cpu data_pages (err errno) base = halt (open_failed errno)
  open_and_map_one cpu data_pages (ok fd) (err errno) =
      call (opened ring_attr pid (pos cpu) fd) >> halt (map_failed fd errno)
  open_and_map_one cpu data_pages (ok fd) (ok base) =
      call (opened ring_attr pid (pos cpu) fd)
      >> (call (mapped fd base (u64 ((1 + data_pages) * page_size)))
          >> done (record { fd = pos fd; base = base; len = u64 ((1 + data_pages) * page_size) }))

  -- The loop over the rings, from ring `i` on.
  pub open_rings : ℕ → ℕ → (ℕ → Answer) → ℕ → ℕ → Opened
  open_rings nproc data_pages answers zero i = record { calls = []; rings = []; fail = none }
  open_rings nproc data_pages answers (suc rounds) i =
      then_rings (open_and_map_one (i % nproc) data_pages (answers i).descriptor (answers i).base)
        (open_rings nproc data_pages answers rounds (i + 1))

  -- A round of the loop over the sizes: the calls, and the line.
  pub run_size : ℤ → ℕ → (ℕ → Answer) → List Call × Line
  run_size nproc data_pages answers =
      let o = open_rings (cpus nproc) data_pages answers (want nproc) 0 in
      (o.calls ++ close_rings o.rings, line_of (length o.rings) o.fail)

  -- The loop over the sizes: for each its data pages, and the kernel's answers.
  pub run_sizes : ℤ → List ℕ → (ℕ → ℕ → Answer) → List (List Call × Line)
  run_sizes nproc [] answers = []
  run_sizes nproc (data_pages ∷ sizes) answers =
      run_size nproc data_pages (answers data_pages) ∷ run_sizes nproc sizes answers

  pub main : ℤ → (ℕ → ℕ → Answer) → List (List Call × Line)
  main nproc answers = run_sizes nproc sizes answers
