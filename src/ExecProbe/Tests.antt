-- ===== src/ExecProbe/Tests.antt =====
-- Counters that count from the exec on, and a last case whose counter does not open.
use cache_lens.Prelude.{ℕ, ok, err, none, some, true}
use cache_lens.Keys.Order.{pos}
use cache_lens.Session.{CountReadFormat}
use cache_lens.System.{PerfNumbers}
use cache_lens.System.Clean.{Clean}
use cache_lens.System.Post.{PostOr}
use cache_lens.ExecProbe.{Answers, main, run_case_never_exec}
use cache_lens.ExecProbe.Cases.{EndedBy, NeverExecRight, run_case_never_exec-right}
use cache_lens.ExecProbe.Whole.{MainRight, EndedByOne, main-MainRight}

abbrev numbers : PerfNumbers
numbers = record {
  type_hardware = 0;
  hw_cache_misses = 3;
  hw_cache_references = 2;
  format_total_time_enabled = 1;
  format_total_time_running = 2;
  sample_ip = 1;
  sample_tid = 2;
  sample_period_bit = 256;
}

abbrev counts : ℕ → CountReadFormat
counts value = record { value = value; time_enabled = value; time_running = value }

abbrev with_exec : Answers
with_exec = record {
  pid = some 20;
  stop = some true;
  descriptor = ok 3;
  signalled = true;
  counts = some (counts 7000);
}

abbrev without_exec : Answers
without_exec = record {
  pid = some 21;
  stop = some true;
  descriptor = ok 3;
  signalled = true;
  counts = some (counts 0);
}

abbrev not_opened : Answers
not_opened = record {
  pid = some 22;
  stop = some true;
  descriptor = err 19;
  signalled = true;
  counts = none;
}

main-MainRight_example :
    PostOr
      (λ r calls. Clean calls × MainRight numbers (pos 4) with_exec without_exec not_opened 2 r)
      (EndedByOne numbers (pos 4) with_exec without_exec not_opened)
      (main numbers 2 (pos 4) with_exec without_exec not_opened)
main-MainRight_example = main-MainRight numbers (pos 4) with_exec without_exec not_opened 2

run_case_never_exec-right_example :
    PostOr
      (NeverExecRight numbers (pos 0) without_exec)
      (EndedBy without_exec)
      (run_case_never_exec numbers (pos 0) without_exec)
run_case_never_exec-right_example = run_case_never_exec-right numbers (pos 0) without_exec
