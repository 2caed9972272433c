-- ===== src/ExecProbe/Whole.antt =====
-- The three cases together.
use cache_lens.Prelude.{
  ℕ, ◌==◌, ◌≡◌, ◌≢◌, ◌⊎◌, inl, inr, refl, sym, subst, Bool, true, false, Option, none, some, List,
  [], ◌++◌, arith, append-nil, if◌then◌else◌,
}
use cache_lens.Keys.Order.{ℤ, pos}
use cache_lens.System.{PerfNumbers, Call, Traced, done, ◌>>=◌}
use cache_lens.System.Post.{PostOr, PostOr-bind, PostOr-map}
use cache_lens.ExecProbe.{
  Halt, Answers, Line, last_cpu, run_case_exec, run_case_never_exec, run_cases, main,
}
use cache_lens.System.Clean.{Clean, Clean-append}
use cache_lens.ExecProbe.Cases.{
  EndedBy, ExecLine, NeverExecLine, ExecRight, NeverExecRight, run_case_exec-right,
  run_case_never_exec-right,
}

module _ (k : PerfNumbers) (nproc : ℤ) (a b c : Answers) where
  abbrev pub EndedByOne : Halt → Type 0
  EndedByOne h = EndedBy a h ⊎ (EndedBy b h ⊎ EndedBy c h)

  abbrev pub LinesRight : Line × Line × Line → Type 0
  LinesRight l = ExecLine a l.0 × NeverExecLine b l.1 × ExecLine c l.2

  abbrev pub MainRight : ℕ → Option (Line × Line × Line) → Type 0
  MainRight argc none = argc ≢ 2
  MainRight argc (some l) = (argc ≡ 2) × LinesRight l

  one_of :
      {A : Type 0} (P : A → List Call → Type 0) (x : Answers) (m : Traced Halt A)
      → ((h : Halt) → EndedBy x h → EndedByOne h)
      → PostOr P (EndedBy x) m
      → PostOr P EndedByOne m
  one_of P x m f h = PostOr-map P P (EndedBy x) EndedByOne m.calls m.result (λ _ _ p. p) f h

  run_cases-right :
      PostOr (λ l calls. Clean calls × LinesRight l) EndedByOne (run_cases k nproc a b c)
  unfolding run_cases
  run_cases-right =
      PostOr-bind (ExecRight k (pos 0) a) (λ l calls. Clean calls × LinesRight l) EndedByOne
        (run_case_exec k (pos 0) a) _
        (one_of (ExecRight k (pos 0) a) a (run_case_exec k (pos 0) a) (λ h e. inl e)
          (run_case_exec-right k (pos 0) a))
        (λ la as' ha.
          PostOr-bind (NeverExecRight k (pos 0) b) (λ l calls. Clean (as' ++ calls) × LinesRight l)
            EndedByOne (run_case_never_exec k (pos 0) b) _
            (one_of (NeverExecRight k (pos 0) b) b (run_case_never_exec k (pos 0) b)
              (λ h e. inr (inl e)) (run_case_never_exec-right k (pos 0) b))
            (λ lb bs hb.
              PostOr-bind (ExecRight k (last_cpu nproc) c)
                (λ l calls. Clean (as' ++ (bs ++ calls)) × LinesRight l) EndedByOne
                (run_case_exec k (last_cpu nproc) c) _
                (one_of (ExecRight k (last_cpu nproc) c) c (run_case_exec k (last_cpu nproc) c)
                  (λ h e. inr (inr e)) (run_case_exec-right k (last_cpu nproc) c))
                (λ lc cs hc. (
                  Clean-append as' (bs ++ (cs ++ [])) ha.0
                      (Clean-append bs (cs ++ []) hb.0 (subst Clean (sym (append-nil cs)) hc.0)),
                  (ha.1, hb.1, hc.1),
                ))))

  -- The whole probe: if it comes to its end, each child has been waited for as often as it was forked, each
  -- counter closed as often as it was opened, and with the one argument the three lines are
  -- right; it ends before only on an answer that fails, in one of the cases.
  pub main-MainRight :
      (argc : ℕ)
      → PostOr (λ r calls. Clean calls × MainRight argc r) EndedByOne (main k argc nproc a b c)
  unfolding main
  main-MainRight argc = at (argc == 2) refl
    where
      at :
          (two : Bool)
          → (argc == 2) ≡ two
          → PostOr
              (λ r calls. Clean calls × MainRight argc r)
              EndedByOne
              (if two then (run_cases k nproc a b c >>= λ lines. done (some lines)) else done none)
      at false e = ((λ _. refl, λ _. refl), ground arith)
      at true e =
          PostOr-bind (λ l calls. Clean calls × LinesRight l)
            (λ r calls. Clean calls × MainRight argc r) EndedByOne (run_cases k nproc a b c)
            (λ lines. done (some lines)) run_cases-right
            (λ l calls h. (subst Clean (sym (append-nil calls)) h.0, (ground arith, h.1)))
