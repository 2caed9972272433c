-- ===== src/Main/Exact.antt =====
-- What the whole program makes of what the kernel has written.
use cache_lens.Prelude.{
  ◌⊎◌, inl, inr, ℕ, ◌^◌, ◌<◌, ◌≡◌, ◌≢◌, refl, sym, subst, ◌∙◌, Option, none, some, List, arith,
  Result, ok, err, length,
}
use cache_lens.Doubles.{Doubles}
use cache_lens.Perf.{PerfAbi}
use cache_lens.Elf.{TextRange, ElfAbi, get_target_text_range}
use cache_lens.Session.{Both, SamplingEvent, ExitStatus, exit_code, measure}
use cache_lens.Session.Ring.{Track, HasAll}
use cache_lens.Session.Rounds.{EachBoth, Runs, BothTracks, ended_status}
use cache_lens.Session.Exact.{Reason, IsExact, measure-IsExact}
use cache_lens.Checks.{
  Conclusion, read_failed, never_armed, contended, wrong_period, measured, combine, check,
}
use cache_lens.Checks.Passed.{Passed, check-Passed}
use cache_lens.Setup.{positive, Text, parse_args, choose_periods}
use cache_lens.Attribution.{Site, classify_and_attribute}
use cache_lens.Launch.{Errnos, Ring}
use cache_lens.Launch.Rings.{BothFresh}
use cache_lens.System.{PerfNumbers, Call, ◌>>=◌}
use cache_lens.System.Post.{PostOr, PostOrOf, PostOr-bind, PostOr-map}
use cache_lens.Ranking.{Sorting, rank}
use cache_lens.Main.{
  choose, in_calibration, Why, in_setup, no_cpus, no_text_range, no_debug_info, in_launch, in_run,
  refused, why_status, dwarf_init, events_of, for_both, World, Output, lift, found, measurement,
  conclude_with, main,
}
use cache_lens.Launch.Ends.{LaunchEnded, FinishEnded}
use cache_lens.Main.Ends.{
  in_calibration-fails, lift-ends, found-ends, in_setup-fails, in_launch-fails, in_run-fails,
  no_cpus-fails, no_text_range-fails, no_debug_info-fails,
}
use cache_lens.Calibration.{run_of}
use cache_lens.Calibration.Refine.{EndedAs}
use cache_lens.Main.Periods.{chosen_for, choose-ends}
use cache_lens.Main.Samples.{CountsWritten, samples_of_rings}
use cache_lens.Main.Rings.{Measured, measurement-Measured}
use cache_lens.Main.Written.{fresh_tracks, written, AreFresh-Has, CountedOf, finish_rings-Has}

module _ (d : Doubles) (abi : PerfAbi) (numbers : PerfNumbers) (errnos : Errnos) (elf_abi : ElfAbi)
    (sorting : Sorting) (ready_mask : ℕ) (w : World d) (nr_cpus : ℕ) (end : Both (List Track)) where
  -- A report of the run, on what the kernel has written.
  pub record Reported (out : Output d) : Type 0 where
    pub child : ExitStatus
    pub range : TextRange
    pub resolve_ip : ℕ → Option Site
    pub period : Both ℕ
    pub args : Option ℕ × List Text
    pub counts : Both (List (Site × ℕ))
    pub child_ended : ended_status w.rounds ≡ some child
    pub status_passed_on : out.status ≡ exit_code child
    pub parsed : parse_args w.strtoll w.args ≡ ok args
    pub chosen : choose_periods d w.prime_fuel args.0 w.rate_file (run_of w.calibration) ≡ ok period
    pub of_target : get_target_text_range elf_abi w.elf_file ≡ some range
    pub of_debug_info : dwarf_init w.dwfl ≡ some resolve_ip
    pub miss_samples : out.reports.miss.sums.samples ≡ length (written end.miss)
    pub access_samples : out.reports.access.sums.samples ≡ length (written end.access)
    pub miss_counts : CountsWritten resolve_ip range end.miss counts.miss
    pub access_counts : CountsWritten resolve_ip range end.access counts.access
    pub ranked : out.ranking ≡ rank d sorting period counts

  -- The reason of an end before the report.
  abbrev pub ReasonOf : Why → Type 0
  ReasonOf (in_setup h) =
      (parse_args w.strtoll w.args ≡ err h)
      ⊎ ((args : Option ℕ × List Text) × (parse_args w.strtoll w.args ≡ ok args)
          × (choose_periods d w.prime_fuel args.0 w.rate_file (run_of w.calibration) ≡ err h))
  ReasonOf no_cpus = positive w.nproc ≡ none
  ReasonOf no_text_range = get_target_text_range elf_abi w.elf_file ≡ none
  ReasonOf no_debug_info = dwarf_init w.dwfl ≡ none
  ReasonOf (in_launch e) =
      LaunchEnded errnos w.pid w.stop (for_both w.rings nr_cpus) w.resumes e
      ⊎ FinishEnded w.reads (record { miss = nr_cpus; access = nr_cpus }) e
  ReasonOf (in_calibration e) =
      (args : Option ℕ × List Text) × (parse_args w.strtoll w.args ≡ ok args)
      × (args.0 ≡ none)
      × EndedAs numbers errnos d w.calibration e
  ReasonOf (in_run s) = Reason abi w.rounds end s
  ReasonOf (refused c) =
      (ev : Both (List SamplingEvent)) × (child : ExitStatus) × EachBoth (HasAll abi) end ev
      × (ended_status w.rounds ≡ some child)
      × (check d ev (exit_code child) ≡ c)

  abbrev pub Failed : Why → Type 0
  Failed why = (why_status why ≢ 0) × ReasonOf why

  abbrev pub IsRun : Result Why (Output d) → Type 0
  IsRun (ok out) = Reported out
  IsRun (err why) = Failed why

  module _ (kernel : Runs abi (fresh_tracks (for_both w.rings nr_cpus)) w.rounds w.final end)
      (tracks : BothTracks abi end) (few_miss : length (written end.miss) < 2 ^ 64)
      (few_access : length (written end.access) < 2 ^ 64) where
    IsExact-of_fresh :
        (period : Both ℕ) (l : Both (List Ring))
        → BothFresh period (for_both w.rings nr_cpus) l
        → IsExact abi w.rounds end (measure abi ready_mask w.rounds w.final (events_of l))
    IsExact-of_fresh period l f =
        measure-IsExact abi ready_mask w.rounds (fresh_tracks (for_both w.rings nr_cpus)) end
          w.final (events_of l) tracks kernel
          (
            AreFresh-Has abi period.miss 0 (for_both w.rings nr_cpus).miss l.miss f.0,
            AreFresh-Has abi period.access 0 (for_both w.rings nr_cpus).access l.access f.1,
          )

    -- The rings at the end hold all that was written, and the child has ended.
    abbrev Drained : Both (List Ring) × ExitStatus → Type 0
    Drained m = EachBoth (HasAll abi) end (events_of m.0) × (ended_status w.rounds ≡ some m.1)

    Measured-Drained :
        (period : Both ℕ) (m : Both (List Ring) × ExitStatus) (calls : List Call)
        → Measured d abi numbers errnos elf_abi sorting ready_mask w period nr_cpus m calls
        → Drained m
    Measured-Drained period m calls h =
        let exact =
          subst (IsExact abi w.rounds end) (Measured.ran h)
            (IsExact-of_fresh period (Measured.launched h) (Measured.fresh h)) in
        (
          (
            subst (CountedOf abi end.miss) (Measured.counted_miss h)
                (finish_rings-Has abi w.reads.miss end.miss (Measured.session h).miss exact.0.0),
            subst (CountedOf abi end.access) (Measured.counted_access h) (
                finish_rings-Has abi w.reads.access end.access (Measured.session h).access
                  exact.0.1),
          ),
          exact.1,
        )

    measurement-Drained :
        (period : Both ℕ)
        → PostOr
            (λ m calls. Drained m)
            Failed
            (measurement d abi numbers errnos elf_abi sorting ready_mask w period nr_cpus)
    measurement-Drained period =
        let m = measurement d abi numbers errnos elf_abi sorting ready_mask w period nr_cpus in
        PostOr-map (Measured d abi numbers errnos elf_abi sorting ready_mask w period nr_cpus)
          (λ m calls. Drained m) Failed Failed m.calls m.result (Measured-Drained period) (λ e f. f)
          (measurement-Measured d abi numbers errnos elf_abi sorting ready_mask w period nr_cpus
            Failed (λ e x. (in_launch-fails e, x))
            (λ l s f ran.
              (in_run-fails s, subst (IsExact abi w.rounds end) ran (IsExact-of_fresh period l f))))

    conclusion :
        (period : Both ℕ) (range : TextRange) (resolve_ip : ℕ → Option Site)
        → get_target_text_range elf_abi w.elf_file ≡ some range
        → dwarf_init w.dwfl ≡ some resolve_ip
        → (a : Option ℕ × List Text) → parse_args w.strtoll w.args ≡ ok a
        → chosen_for d abi numbers errnos elf_abi sorting ready_mask w a.0 ≡ ok period
        → (m : Both (List Ring) × ExitStatus) → Drained m
        → (c : Conclusion) → check d (events_of m.0) (exit_code m.1) ≡ c
        → Passed (events_of m.0) c
        → PostOr
            (λ out calls. Reported out)
            Failed
            (conclude_with d abi numbers errnos elf_abi sorting ready_mask w period range resolve_ip
              (events_of m.0)
              (exit_code m.1)
              c)
    unfolding conclude_with why_status
    conclusion period range resolve_ip er ed a ea ec m h read_failed q p =
        (λ e. omega arith, (events_of m.0, m.1, h.0, h.1, q))
    conclusion period range resolve_ip er ed a ea ec m h (never_armed l st) q p =
        (p, (events_of m.0, m.1, h.0, h.1, q))
    conclusion period range resolve_ip er ed a ea ec m h (contended event) q p =
        (λ e. omega arith, (events_of m.0, m.1, h.0, h.1, q))
    conclusion period range resolve_ip er ed a ea ec m h (wrong_period l r n) q p =
        (λ e. omega arith, (events_of m.0, m.1, h.0, h.1, q))
    conclusion period range resolve_ip er ed a ea ec m h (measured samples) q p =
        let miss =
          samples_of_rings d abi resolve_ip range end.miss (events_of m.0).miss h.0.0 few_miss in
        let access =
          samples_of_rings d abi resolve_ip range end.access (events_of m.0).access h.0.1
            few_access in
        subst
          (λ x.
            PostOr (λ out calls. Reported out) Failed
              (conclude_with d abi numbers errnos elf_abi sorting ready_mask w period range
                resolve_ip (events_of m.0) (exit_code m.1) (measured x)))
          (sym p.2)
          (record {
            child = m.1;
            range = range;
            resolve_ip = resolve_ip;
            period = period;
            args = a;
            counts = record {
              miss =
                  (classify_and_attribute resolve_ip (combine (events_of m.0).miss)
                    range).line_counts;
              access =
                  (classify_and_attribute resolve_ip (combine (events_of m.0).access)
                    range).line_counts;
            };
            child_ended = h.1;
            status_passed_on = refl;
            parsed = ea;
            chosen = ec;
            of_target = er;
            of_debug_info = ed;
            miss_samples = miss.0;
            access_samples = access.0;
            miss_counts = miss.1;
            access_counts = access.1;
            ranked = refl;
          })

    after_setup :
        (a : Option ℕ × List Text)
        → parse_args w.strtoll w.args ≡ ok a
        → PostOr
            (λ out calls. Reported out)
            Failed
            (found no_text_range (get_target_text_range elf_abi w.elf_file) >>= λ range.
              found no_debug_info (dwarf_init w.dwfl) >>= λ resolve_ip.
              choose d abi numbers errnos elf_abi sorting ready_mask w a.0 >>= λ period.
              measurement d abi numbers errnos elf_abi sorting ready_mask w period nr_cpus >>= λ m.
              conclude_with d abi numbers errnos elf_abi sorting ready_mask w period range
                resolve_ip
                (events_of m.0)
                (exit_code m.1)
                (check d (events_of m.0) (exit_code m.1)))
    after_setup a ea =
        PostOr-bind (λ range calls. get_target_text_range elf_abi w.elf_file ≡ some range)
          (λ out calls. Reported out) Failed
          (found no_text_range (get_target_text_range elf_abi w.elf_file)) _
          (found-ends Failed no_text_range (get_target_text_range elf_abi w.elf_file)
            (λ q. (no_text_range-fails, q)))
          (λ range _ er.
            PostOr-bind (λ r calls. dwarf_init w.dwfl ≡ some r) (λ out calls. Reported out) Failed
              (found no_debug_info (dwarf_init w.dwfl)) _
              (found-ends Failed no_debug_info (dwarf_init w.dwfl) (λ q. (no_debug_info-fails, q)))
              (λ resolve_ip _ ed.
                PostOr-bind
                  (λ period calls.
                    chosen_for d abi numbers errnos elf_abi sorting ready_mask w a.0 ≡ ok period)
                  (λ out calls. Reported out) Failed
                  (choose d abi numbers errnos elf_abi sorting ready_mask w a.0) _
                  (choose-ends d abi numbers errnos elf_abi sorting ready_mask w Failed a.0
                    (λ h q. (in_setup-fails h, inr (a, ea, q)))
                    (λ h no_option x. (in_calibration-fails h, (a, ea, no_option, x))))
                  (λ period _ ec.
                    PostOr-bind (λ m calls. Drained m) (λ out calls. Reported out) Failed
                      (measurement d abi numbers errnos elf_abi sorting ready_mask w period nr_cpus)
                      _ (measurement-Drained period)
                      (λ m _ h.
                        conclusion period range resolve_ip er ed a ea ec m h
                          (check d (events_of m.0) (exit_code m.1)) refl
                          (check-Passed d (events_of m.0) (exit_code m.1))))))

    -- The whole program, on a machine of `nr_cpus` CPUs, while the kernel writes whole records to its fresh
    -- rings, in any amounts and at any times, fewer than 2 ^ 64 samples for each event. If it reports,
    -- its status is the one that the child ended with, each event's samples are as many as were
    -- written for it, and the ranking is the one of the periods chosen from its arguments and of counts
    -- that are, for every source line, the number of written samples that hit it, by the debug
    -- information and the range of the target's own code. If it ends before, its status is not 0, and
    -- there is the reason: an answer that failed, a refused argument, the end of the fuel for the search
    -- of a prime, what the kernel wrote during the session, or what the checks make of rings that hold
    -- all that was written.
    pub main-IsRun :
        positive w.nproc ≡ some nr_cpus
        → IsRun (main d abi numbers errnos elf_abi sorting ready_mask w).result
    unfolding main
    main-IsRun cpus =
        of_post (main d abi numbers errnos elf_abi sorting ready_mask w).calls
          (main d abi numbers errnos elf_abi sorting ready_mask w).result
          (PostOr-bind (λ a calls. parse_args w.strtoll w.args ≡ ok a) (λ out calls. Reported out)
            Failed (lift in_setup (parse_args w.strtoll w.args)) _
            (lift-ends Failed in_setup (parse_args w.strtoll w.args)
              (λ h q. (in_setup-fails h, inl q)))
            (λ a _ ea.
              PostOr-bind (λ n calls. positive w.nproc ≡ some n) (λ out calls. Reported out) Failed
                (found no_cpus (positive w.nproc)) _
                (found-ends Failed no_cpus (positive w.nproc) (λ q. (no_cpus-fails, q)))
                (λ n _ en.
                  subst
                    (λ n.
                      PostOr (λ out calls. Reported out) Failed
                        (found no_text_range (get_target_text_range elf_abi w.elf_file) >>= λ range.
                          found no_debug_info (dwarf_init w.dwfl) >>= λ resolve_ip.
                          choose d abi numbers errnos elf_abi sorting ready_mask w a.0 >>= λ period.
                          measurement d abi numbers errnos elf_abi sorting ready_mask w period n
                          >>= λ m.
                              conclude_with d abi numbers errnos elf_abi sorting ready_mask w period
                                range resolve_ip (events_of m.0) (exit_code m.1)
                                (check d (events_of m.0) (exit_code m.1))))
                    (some_inj (sym cpus ∙ en)) (after_setup a ea))))
      where
        some_inj : {x y : ℕ} → some x ≡ some y → x ≡ y
        some_inj e = cc

        of_post :
            (calls : List Call) (r : Result Why (Output d))
            → PostOrOf (λ out calls. Reported out) Failed calls r
            → IsRun r
        of_post calls (ok out) h = h
        of_post calls (err e) h = h
