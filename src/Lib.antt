-- ===== src/Lib.antt =====
-- CacheLens: the profiler of src/main.cpp, the programs of benchmarks/ that it is tried on, and the probes
-- of the kernel in probes/.
--
-- src/main.cpp runs a target program with two sampling events on each CPU, drains their ring buffers
-- in a poll loop, checks what was measured, resolves the samples to source lines and ranks the lines.
-- The development follows its parts:
--
--   Setup         the command line, `calibrate_both` and the two periods
--   Calibration   the calibration run with its child and its counters
--   Perf          the records of a ring, and what of the kernel's format is relied on
--   Drain         `copy_wrapped`, `drain`: the state is a `Drained`
--   System        the system calls of a part, in order, and what holds of them part by part
--   Launch        the child and the rings, from `fork_stop_exec` to `finish_sampling`
--   Session       the poll loop of `main`: rounds of poll, drain and waitpid, and the last drain
--   Prime         `is_prime`, `nearest_prime`, by which the periods are chosen
--   Elf           `get_target_text_range`, `classify`
--   Keys          the orders of the keys of std::map, std::map, std::sort and std::unique
--   Attribution   `DwarfResolver::resolve` with its cache, `classify_and_attribute`
--   Doubles       what the comparisons of doubles rely on
--   Checks        the checks of `main` behind the measurement run
--   Report        the numbers of `print_event_report`
--   Ranking       the concentration ranking of `main`, `wilson_lower_bound`
--   Main          `main`, put together of these, from the arguments to the report and the status
--
-- and the benchmarks and the probes:
--
--   Spsc          benchmarks/spsc_queue.cpp: the queue, its two threads as steps on a shared state
--   Mpmc          benchmarks/mpmc_queue.cpp: the queue of several producers and consumers, as steps
--   Matrix        benchmarks/matrix_bad.cpp, benchmarks/matrix_good.cpp: the two products
--   Chase         benchmarks/pointer_chase.cpp: the linked list, its traversals, its deletion
--   Latency       benchmarks/queue_latency.cpp: `compute_percentiles`
--   PerCpu        probes/p1_percpu_open.c: a counter and a ring on every CPU
--   ExecProbe     probes/p2_enable_on_exec.c: the cases with and without an exec
--   Victim        probes/p2_victim.c: the walk through the buffer
--   Budget        probes/p3_mlock_budget.c: rings of five sizes
--   Probe         probes/p4_false_sharing.cpp: the two workers
--
-- Setup gives the periods with which Launch opens the rings, from the primes of Prime. `main` in
-- Main takes the rates from the run in Calibration, which is shown to be the one that Setup takes. A part that makes
-- system calls is a `Traced`: the calls that succeeded, with what the kernel answered, and a result or
-- the end of the process. Session calls the
-- drain of each ring, with the bytes that the kernel has written since; Checks
-- takes the rings that Session has left and hands the samples to Attribution, whose counts Report
-- and Ranking read.
--
-- A child module states what holds of its parent (Drain/Refine, Session/Exact). The machine's 64-bit
-- counters are natural numbers with their wrap-around written out, `% 2 ^ 64`. A message on which the
-- program stops is a value.
--
-- Fuel: the drain loop takes a byte of the ring at each turn at least, so that its fuel is one more
-- than the bytes between tail and head; a walk along a list of n nodes takes n rounds; the test of a
-- prime v takes v + 1. The theorems show that none of these runs out. The search for the nearest prime
-- is given its fuel, and its theorems ask for a prime within it. The poll loop runs on a list of what
-- the kernel answers, one entry for each round.
--
-- Parameters: the numbers of <linux/perf_event.h> and <elf.h> (PerfAbi, ElfAbi); the functions of
-- libdw; std::sort with a comparator (Sorting); the comparisons of doubles (Doubles, IsRounded); the
-- order that std::shuffle leaves (IsShuffle); strtoll; what fork, perf_event_open, mmap, poll, waitpid,
-- kill and read answer, and the clock readings.
--
-- Not modelled: the text that is printed;
-- the sums that benchmarks/mpmc_queue.cpp makes behind its threads; the two threads of
-- benchmarks/queue_latency.cpp; scripts/. The threads of Spsc, Mpmc and Probe
-- interleave their atomic operations in one order: reorderings that weaker orders allow are left
-- out.
pub mod Prelude
pub mod Keys
pub mod Perf
pub mod Drain
pub mod Prime
pub mod Elf
pub mod Attribution
pub mod Session
pub mod Doubles
pub mod Checks
pub mod Report
pub mod Ranking
pub mod Matrix
pub mod Chase
pub mod Spsc
pub mod Setup
pub mod Probe
pub mod Latency
pub mod Mpmc
pub mod System
pub mod Launch
pub mod Calibration
pub mod Main
pub mod PerCpu
pub mod Budget
pub mod Victim
pub mod ExecProbe
