-- ===== src/ExecProbe/Cases.antt =====
-- What the cases leave behind, and when the process ends before.
use cache_lens.Prelude.{
  ℕ, ◌==◌, ◌≡◌, ◌≢◌, ◌⊎◌, inl, inr, refl, sym, subst, Bool, true, false, Option, none, some, List,
  arith, Result, ok, err, All, if◌then◌else◌, ◌&&◌, ◌||◌,
}
use cache_lens.Keys.Order.{ℤ}
use cache_lens.Session.{CountReadFormat}
use cache_lens.System.{PerfNumbers, Call, resumed}
use cache_lens.System.Clean.{Clean}
use cache_lens.System.Post.{PostOr}
use cache_lens.ExecProbe.{
  Halt, fork_failed, stop_wait_failed, not_stopped, signal_failed, read_failed, Answers, Line,
  no_event, suspect, armed, early_arming, no_early_arming, fork_stop, fork_stop_exec_victim,
  read_counts, exec_line, never_exec_line, open_event, let_run, kill_stopped, run_case_exec,
  run_case_never_exec,
}

-- The answer on which a case ends the process.
abbrev pub EndedBy : Answers → Halt → Type 0
EndedBy a fork_failed = a.pid ≡ none
EndedBy a stop_wait_failed = a.stop ≡ none
EndedBy a not_stopped = a.stop ≡ some false
EndedBy a signal_failed = a.signalled ≡ false
EndedBy a read_failed = a.counts ≡ none

-- What a line says of the counts, and of the calls.
abbrev pub ExecLine : Answers → Line → Type 0
ExecLine a (no_event errno) = a.descriptor ≡ err errno
ExecLine a (suspect c) = (a.counts ≡ some c) × ((c.value ≡ 0) ⊎ (c.time_running ≡ 0))
ExecLine a (armed c) = (a.counts ≡ some c) × (c.value ≢ 0) × (c.time_running ≢ 0)
ExecLine a _ = ⊥

abbrev pub NeverExecLine : Answers → Line → Type 0
NeverExecLine a (no_event errno) = a.descriptor ≡ err errno
NeverExecLine a (early_arming c) = (a.counts ≡ some c) × ((c.value ≢ 0) ⊎ (c.time_running ≢ 0))
NeverExecLine a (no_early_arming c) = (a.counts ≡ some c) × (c.value ≡ 0) × (c.time_running ≡ 0)
NeverExecLine a _ = ⊥

abbrev pub LetsNobodyRun : Call → Type 0
LetsNobodyRun (resumed child) = ⊥
LetsNobodyRun _ = Unit

exec_line-right :
    (c : CountReadFormat)
    → ((exec_line c ≡ suspect c) × ((c.value ≡ 0) ⊎ (c.time_running ≡ 0)))
      ⊎ ((exec_line c ≡ armed c) × (c.value ≢ 0) × (c.time_running ≢ 0))
unfolding exec_line
exec_line-right c = at (c.value == 0) (c.time_running == 0) refl refl
  where
    at :
        (v t : Bool)
        → (c.value == 0) ≡ v
        → (c.time_running == 0) ≡ t
        → (((if v || t then suspect c else armed c) ≡ suspect c)
            × ((c.value ≡ 0) ⊎ (c.time_running ≡ 0)))
          ⊎ (((if v || t then suspect c else armed c) ≡ armed c)
              × (c.value ≢ 0)
              × (c.time_running ≢ 0))
    at true t ev et = inl (refl, inl (ground arith))
    at false true ev et = inl (refl, inr (ground arith))
    at false false ev et = inr (refl, ground arith, ground arith)

never_exec_line-right :
    (c : CountReadFormat)
    → ((never_exec_line c ≡ no_early_arming c) × (c.value ≡ 0) × (c.time_running ≡ 0))
      ⊎ ((never_exec_line c ≡ early_arming c) × ((c.value ≢ 0) ⊎ (c.time_running ≢ 0)))
unfolding never_exec_line
never_exec_line-right c = at (c.value == 0) (c.time_running == 0) refl refl
  where
    at :
        (v t : Bool)
        → (c.value == 0) ≡ v
        → (c.time_running == 0) ≡ t
        → (((if v && t then no_early_arming c else early_arming c) ≡ no_early_arming c)
            × (c.value ≡ 0)
            × (c.time_running ≡ 0))
          ⊎ (((if v && t then no_early_arming c else early_arming c) ≡ early_arming c)
              × ((c.value ≢ 0) ⊎ (c.time_running ≢ 0)))
    at false t ev et = inr (refl, inl (ground arith))
    at true false ev et = inr (refl, inr (ground arith))
    at true true ev et = inl (refl, ground arith, ground arith)

abbrev answers_of : Option ℕ → Option Bool → Result ℕ ℕ → Bool → Option CountReadFormat → Answers
answers_of pid stop d signalled counts = record {
  pid = pid;
  stop = stop;
  descriptor = d;
  signalled = signalled;
  counts = counts;
}

ExecLine-of_counts :
    (pid : Option ℕ) (stop : Option Bool) (d : Result ℕ ℕ) (signalled : Bool) (c : CountReadFormat)
    → ExecLine (answers_of pid stop d signalled (some c)) (exec_line c)
ExecLine-of_counts pid stop d signalled c = elim (exec_line-right c) [
  | inl h ↦ subst (ExecLine (answers_of pid stop d signalled (some c))) (sym h.0) (refl, h.1)
  | inr h ↦ subst (ExecLine (answers_of pid stop d signalled (some c))) (sym h.0) (refl, h.1, h.2)
]

NeverExecLine-of_counts :
    (pid : Option ℕ) (stop : Option Bool) (d : Result ℕ ℕ) (signalled : Bool) (c : CountReadFormat)
    → NeverExecLine (answers_of pid stop d signalled (some c)) (never_exec_line c)
NeverExecLine-of_counts pid stop d signalled c = elim (never_exec_line-right c) [
  | inl h ↦
      subst (NeverExecLine (answers_of pid stop d signalled (some c))) (sym h.0) (refl, h.1, h.2)
  | inr h ↦ subst (NeverExecLine (answers_of pid stop d signalled (some c))) (sym h.0) (refl, h.1)
]

module _ (k : PerfNumbers) (cpu : ℤ) where
  -- A case with an exec: what it printed is right, and all is given back.
  abbrev pub ExecRight : Answers → Line → List Call → Type 0
  ExecRight a l calls = Clean calls × ExecLine a l

  abbrev pub NeverExecRight : Answers → Line → List Call → Type 0
  NeverExecRight a l calls = Clean calls × NeverExecLine a l × All LetsNobodyRun calls

  ExecRight-of_answers :
      (pid : Option ℕ) (stop : Option Bool) (d : Result ℕ ℕ) (signalled : Bool)
      (counts : Option CountReadFormat)
      → PostOr
          (ExecRight (answers_of pid stop d signalled counts))
          (EndedBy (answers_of pid stop d signalled counts))
          (run_case_exec k cpu (answers_of pid stop d signalled counts))
  unfolding run_case_exec fork_stop_exec_victim open_event let_run read_counts
  ExecRight-of_answers none stop d signalled counts = refl
  ExecRight-of_answers (some child) none d signalled counts = refl
  ExecRight-of_answers (some child) (some false) d signalled counts = refl
  ExecRight-of_answers (some child) (some true) (err errno) signalled counts =
      ((λ c. omega arith, λ f. refl), refl)
  ExecRight-of_answers (some child) (some true) (ok fd) false counts = refl
  ExecRight-of_answers (some child) (some true) (ok fd) true none = refl
  ExecRight-of_answers (some child) (some true) (ok fd) true (some c) = (
    (λ ch. omega arith, λ f. omega arith),
    ExecLine-of_counts (some child) (some true) (ok fd) true c,
  )

  NeverExecRight-of_answers :
      (pid : Option ℕ) (stop : Option Bool) (d : Result ℕ ℕ) (signalled : Bool)
      (counts : Option CountReadFormat)
      → PostOr
          (NeverExecRight (answers_of pid stop d signalled counts))
          (EndedBy (answers_of pid stop d signalled counts))
          (run_case_never_exec k cpu (answers_of pid stop d signalled counts))
  unfolding run_case_never_exec fork_stop open_event kill_stopped read_counts
  NeverExecRight-of_answers none stop d signalled counts = refl
  NeverExecRight-of_answers (some child) none d signalled counts = refl
  NeverExecRight-of_answers (some child) (some false) d signalled counts = refl
  NeverExecRight-of_answers (some child) (some true) (err errno) signalled counts =
      ((λ c. omega arith, λ f. refl), refl, (tt, (tt, (tt, (tt, tt)))))
  NeverExecRight-of_answers (some child) (some true) (ok fd) false counts = refl
  NeverExecRight-of_answers (some child) (some true) (ok fd) true none = refl
  NeverExecRight-of_answers (some child) (some true) (ok fd) true (some c) = (
    (λ ch. omega arith, λ f. omega arith),
    NeverExecLine-of_counts (some child) (some true) (ok fd) true c,
    (tt, (tt, (tt, (tt, (tt, (tt, (tt, tt))))))),
  )

  -- A case with an exec: if it comes to its end, its child has been waited for and its counter closed, and
  -- it has found counts just where both the value and the time running are not 0; it ends the process
  -- only on an answer that fails.
  pub run_case_exec-right : (a : Answers) → PostOr (ExecRight a) (EndedBy a) (run_case_exec k cpu a)
  run_case_exec-right a = ExecRight-of_answers a.pid a.stop a.descriptor a.signalled a.counts

  -- A case without an exec: if it comes to its end, nobody was let run, the child has been waited for and
  -- the counter closed, and it has found none of the counts early just where both the value and the
  -- time running are 0; it ends the process only on an answer that fails.
  pub run_case_never_exec-right :
      (a : Answers) → PostOr (NeverExecRight a) (EndedBy a) (run_case_never_exec k cpu a)
  run_case_never_exec-right a =
      NeverExecRight-of_answers a.pid a.stop a.descriptor a.signalled a.counts
