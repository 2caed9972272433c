-- ===== src/Calibration/Tests.antt =====
-- A calibration run that comes to its end.
use cache_lens.Prelude.{ℕ, ok, some, true}
use cache_lens.Doubles.Fractions.{fractions}
use cache_lens.Session.{CountReadFormat, exited}
use cache_lens.System.{PerfNumbers}
use cache_lens.System.Post.{PostOr}
use cache_lens.Launch.{Errnos}
use cache_lens.Calibration.{Answers, calibrate_both}
use cache_lens.Calibration.Refine.{AsSetup, EndedAs, calibrate_both-AsSetup}

abbrev numbers : PerfNumbers
numbers = record {
  type_hardware = 0;
  hw_cache_misses = 3;
  hw_cache_references = 2;
  format_total_time_enabled = 1;
  format_total_time_running = 2;
  sample_ip = 1;
  sample_tid = 2;
  sample_period_bit = 256;
}

abbrev errnos : Errnos
errnos = record { eacces = 13; eperm = 1; enoent = 2 }

abbrev second_of : ℕ → CountReadFormat
second_of value = record { value = value; time_enabled = 1000000000; time_running = 1000000000 }

abbrev answers : Answers
answers = record {
  pid = some 30;
  stop = some true;
  descriptors = record { miss = ok 3; access = ok 4 };
  resumes = true;
  ended = some (exited 0);
  reads = record { miss = some (second_of 6000000); access = some (second_of 60000) };
}

calibrate_both-AsSetup_example :
    PostOr
      (AsSetup numbers errnos fractions answers)
      (EndedAs numbers errnos fractions answers)
      (calibrate_both numbers errnos fractions answers)
calibrate_both-AsSetup_example = calibrate_both-AsSetup numbers errnos fractions answers
