-- ===== src/Calibration/Refine.antt =====
-- The run with its system calls against the run as the choice of the periods takes it.
use cache_lens.Prelude.{
  ◌==◌, if◌then◌else◌, ℕ, ◌≡◌, refl, Bool, true, false, Option, none, some, List, arith, Result, ok,
  err,
}
use cache_lens.Doubles.{Doubles}
use cache_lens.Session.{event_miss, Both, CountReadFormat, ExitStatus}
use cache_lens.Setup.{open_failed, Halt, short_read, calibrate_one}
use cache_lens.Setup
use cache_lens.System.{PerfNumbers, Call}
use cache_lens.System.Post.{PostOr}
use cache_lens.System.Clean.{Clean}
use cache_lens.Launch.{Errnos, diagnose_perf_open_failure, fork_stop_exec, open_counting}
use cache_lens.Calibration.{
  not_opened, Answers, CalibrationHalt, launching, wait_failed, refused, reap, open_one, resume,
  read_one, calibrate_both, did_open, run_of,
}

-- What perf_event_open gave for a counter.
abbrev pub descriptor_of : ℕ → Answers → Result ℕ ℕ
descriptor_of event a = if event == event_miss then a.descriptors.miss else a.descriptors.access

module _ (k : PerfNumbers) (er : Errnos) (d : Doubles) where
  abbrev Rates : Type 0
  Rates = Both (d.Double)

  abbrev pub AsSetup : Answers → Rates → List Call → Type 0
  AsSetup a r calls = (Setup.calibrate_both d (run_of a) ≡ ok r) × Clean calls

  -- The end that Setup has too, or one that it leaves out.
  abbrev pub EndedAs : Answers → CalibrationHalt → Type 0
  EndedAs a (not_opened event diagnosis) =
      (Setup.calibrate_both d (run_of a) ≡ err (open_failed event))
      × ((errno : ℕ) × (descriptor_of event a ≡ err errno)
          × (diagnosis ≡ diagnose_perf_open_failure er errno))
  EndedAs a (refused h) = Setup.calibrate_both d (run_of a) ≡ err h
  EndedAs a wait_failed = a.ended ≡ none
  EndedAs a (launching h) = (fork_stop_exec a.pid a.stop).result ≡ err h

  abbrev answers_of :
      Option ℕ
      → Option Bool
      → Result ℕ ℕ
      → Result ℕ ℕ
      → Bool
      → Option ExitStatus
      → Option CountReadFormat
      → Option CountReadFormat
      → Answers
  answers_of pid stop miss access resumes ended c e = record {
    pid = pid;
    stop = stop;
    descriptors = record { miss = miss; access = access };
    resumes = resumes;
    ended = ended;
    reads = record { miss = c; access = e };
  }

  calibrate_one-none : calibrate_one d none ≡ err short_read
  unfolding calibrate_one
  calibrate_one-none = refl

  -- A run up to the reads, by what the reads come to.
  abbrev ReadRight :
      ℕ → ℕ → ℕ → ExitStatus → Option CountReadFormat → Option CountReadFormat → Type 0
  ReadRight child fd gd st c e =
      PostOr (AsSetup (answers_of (some child) (some true) (ok fd) (ok gd) true (some st) c e))
        (EndedAs (answers_of (some child) (some true) (ok fd) (ok gd) true (some st) c e))
        (calibrate_both k er d
          (answers_of (some child) (some true) (ok fd) (ok gd) true (some st) c e))

  first_refused :
      (child fd gd : ℕ) (st : ExitStatus) (c : CountReadFormat) (e : Option CountReadFormat)
      (h : Halt)
      → calibrate_one d (some c) ≡ err h
      → ReadRight child fd gd st (some c) e
  unfolding calibrate_both fork_stop_exec open_one open_counting resume reap read_one run_of
      did_open Setup.calibrate_both
  first_refused child fd gd st c e h q = rw (q) (rw (q) refl)

  second_unread :
      (child fd gd : ℕ) (st : ExitStatus) (c : CountReadFormat) (x : d.Double)
      → calibrate_one d (some c) ≡ ok x
      → ReadRight child fd gd st (some c) none
  unfolding calibrate_both fork_stop_exec open_one open_counting resume reap read_one run_of
      did_open Setup.calibrate_both
  second_unread child fd gd st c x q = rw (q, calibrate_one-none) (rw (q) refl)

  both_read :
      (child fd gd : ℕ) (st : ExitStatus) (c e : CountReadFormat) (x : d.Double)
      (r : Result Halt (d.Double))
      → calibrate_one d (some c) ≡ ok x
      → calibrate_one d (some e) ≡ r
      → ReadRight child fd gd st (some c) (some e)
  unfolding calibrate_both fork_stop_exec open_one open_counting resume reap read_one run_of
      did_open Setup.calibrate_both
  both_read child fd gd st c e x (err h) q p = rw (q, p) (rw (q, p) refl)
  both_read child fd gd st c e x (ok y) q p =
      rw (q, p) (rw (q, p) refl, (λ ch. omega arith, λ f. omega arith))

  read_right :
      (child fd gd : ℕ) (st : ExitStatus) (c : CountReadFormat) (e : Option CountReadFormat)
      (r : Result Halt (d.Double))
      → calibrate_one d (some c) ≡ r
      → ReadRight child fd gd st (some c) e
  read_right child fd gd st c e (err h) q = first_refused child fd gd st c e h q
  read_right child fd gd st c none (ok x) q = second_unread child fd gd st c x q
  read_right child fd gd st c (some e) (ok x) q =
      both_read child fd gd st c e x (calibrate_one d (some e)) q refl

  AsSetup-of_answers :
      (pid : Option ℕ) (stop : Option Bool) (miss access : Result ℕ ℕ) (resumes : Bool)
      (ended : Option ExitStatus) (c e : Option CountReadFormat)
      → PostOr
          (AsSetup (answers_of pid stop miss access resumes ended c e))
          (EndedAs (answers_of pid stop miss access resumes ended c e))
          (calibrate_both k er d (answers_of pid stop miss access resumes ended c e))
  unfolding calibrate_both fork_stop_exec open_one open_counting resume reap read_one run_of
      did_open Setup.calibrate_both
  AsSetup-of_answers none stop miss access resumes ended c e = refl
  AsSetup-of_answers (some child) none miss access resumes ended c e = refl
  AsSetup-of_answers (some child) (some false) miss access resumes ended c e = refl
  AsSetup-of_answers (some child) (some true) (err x) access resumes ended c e =
      (refl, (x, refl, refl))
  AsSetup-of_answers (some child) (some true) (ok fd) (err x) resumes ended c e =
      (refl, (x, refl, refl))
  AsSetup-of_answers (some child) (some true) (ok fd) (ok gd) false ended c e = refl
  AsSetup-of_answers (some child) (some true) (ok fd) (ok gd) true none c e = refl
  AsSetup-of_answers (some child) (some true) (ok fd) (ok gd) true (some st) none e =
      rw (calibrate_one-none) refl
  AsSetup-of_answers (some child) (some true) (ok fd) (ok gd) true (some st) (some c) e =
      read_right child fd gd st c e (calibrate_one d (some c)) refl

  -- The calibration run with its system calls: if it comes to its end, its rates are those of `calibrate_both`
  -- as the choice of the periods takes it, its child has been waited for and both counters are
  -- closed; if it ends the process, so does `calibrate_both`, in the same way, for a counter that did not
  -- open with the diagnosis of its errno, but where fork or a wait fails.
  pub calibrate_both-AsSetup :
      (a : Answers) → PostOr (AsSetup a) (EndedAs a) (calibrate_both k er d a)
  calibrate_both-AsSetup a =
      AsSetup-of_answers a.pid a.stop a.descriptors.miss a.descriptors.access a.resumes a.ended
        a.reads.miss a.reads.access
