-- ===== src/Launch/Order.antt =====
-- A launch, call by call: the child stops, the rings are opened, the child goes on.
use cache_lens.Prelude.{
  ℕ, ◌≡◌, refl, ◌∙◌, ap, append-nil, append_assoc, Bool, true, false, Option, none, some, List, [],
  ◌∷◌, ◌++◌, arith, weight-append, All, if◌then◌else◌,
}
use cache_lens.Session.{Both}
use cache_lens.System.{
  PerfNumbers, Call, forked, saw_stop, resumed, Traced, opens, closes, maps, unmaps, is_at, call,
  done, halt, ◌>>=◌, ◌>>◌,
}
use cache_lens.System.Ends.{PostOrOf-EndsOf}
use cache_lens.Launch.Ends.{LaunchEnded, launch-Ends}
use cache_lens.System.Post.{PostOr, Post, Post-bind}
use cache_lens.Launch.{
  Errnos, LaunchHalt, fork_stop_exec, RingAnswer, Ring, open_cpus, open_both, launch,
}
use cache_lens.Launch.Rings.{BothFresh, OpensAs, Holding, AreOpened, open_cpus-AreOpened}

abbrev pub all_rings : Both (List Ring) → List Ring
all_rings ev = ev.miss ++ ev.access

Holding-append :
    (xs ys : List Ring) (cs ds : List Call)
    → Holding xs cs
    → Holding ys ds
    → Holding (xs ++ ys) (cs ++ ds)
Holding-append xs ys cs ds h g = record {
  opened_once = λ fd. omega (
    arith,
    weight-append (opens fd) cs ds,
    weight-append (λ r. is_at fd r.fd) xs ys,
    Holding.opened_once h fd,
    Holding.opened_once g fd,
  );
  mapped_once = λ base. omega (
    arith,
    weight-append (maps base) cs ds,
    weight-append (λ r. is_at base r.mmap_base) xs ys,
    Holding.mapped_once h base,
    Holding.mapped_once g base,
  );
  none_closed = λ fd.
      omega (
        arith,
        weight-append (closes fd) cs ds,
        Holding.none_closed h fd,
        Holding.none_closed g fd,
      );
  none_unmapped = λ base. omega (
    arith,
    weight-append (unmaps base) cs ds,
    Holding.none_unmapped h base,
    Holding.none_unmapped g base,
  );
}

module _ (k : PerfNumbers) (e : Errnos) (period : Both ℕ) (answers : Both (List RingAnswer)) where
  -- A run is launched: the child is forked and has stopped, then the rings are opened, each for its
  -- event, and only then the child goes on.
  pub record Launched (r : ℕ × Both (List Ring)) (calls : List Call) : Type 0 where
    pub for_miss : List Call
    pub for_access : List Call
    pub in_order :
        calls ≡ forked r.0 ∷ saw_stop r.0 ∷ (for_miss ++ (for_access ++ resumed r.0 ∷ []))
    pub opens_miss : All (OpensAs (k.hw_cache_misses) period.miss r.0) for_miss
    pub opens_access : All (OpensAs (k.hw_cache_references) period.access r.0) for_access
    pub fresh : BothFresh period answers r.1
    pub holding : Holding (all_rings r.1) (for_miss ++ for_access)

  record BothOpened (child : ℕ) (ev : Both (List Ring)) (calls : List Call) : Type 0 where
    for_miss : List Call
    for_access : List Call
    in_order : calls ≡ for_miss ++ for_access
    opens_miss : All (OpensAs (k.hw_cache_misses) period.miss child) for_miss
    opens_access : All (OpensAs (k.hw_cache_references) period.access child) for_access
    fresh : BothFresh period answers ev
    holding : Holding (all_rings ev) (for_miss ++ for_access)

  open_both-BothOpened : (child : ℕ) → Post (BothOpened child) (open_both k e period child answers)
  unfolding open_both
  open_both-BothOpened child =
      Post-bind (AreOpened k e (k.hw_cache_misses) period.miss child 0 answers.miss)
        (BothOpened child) (open_cpus k e (k.hw_cache_misses) period.miss child 0 answers.miss)
        (λ miss.
          open_cpus k e (k.hw_cache_references) period.access child 0 answers.access >>= λ access.
          done (record { miss = miss; access = access }))
        (open_cpus-AreOpened k e (k.hw_cache_misses) period.miss child 0 answers.miss)
        (λ miss before m.
          Post-bind (AreOpened k e (k.hw_cache_references) period.access child 0 answers.access)
            (λ ev later. BothOpened child ev (before ++ later))
            (open_cpus k e (k.hw_cache_references) period.access child 0 answers.access)
            (λ access. done (record { miss = miss; access = access }))
            (open_cpus-AreOpened k e (k.hw_cache_references) period.access child 0 answers.access)
            (λ access later a. record {
              for_miss = before;
              for_access = later;
              in_order = ap (λ l. before ++ l) (append-nil later);
              opens_miss = AreOpened.opens_as m;
              opens_access = AreOpened.opens_as a;
              fresh = (AreOpened.fresh m, AreOpened.fresh a);
              holding =
                  Holding-append miss access before later (AreOpened.holding m)
                    (AreOpened.holding a);
            }))

  fork-lem :
      (pid : Option ℕ) (stop : Option Bool)
      → Post (λ child calls. calls ≡ forked child ∷ saw_stop child ∷ []) (fork_stop_exec pid stop)
  unfolding fork_stop_exec
  fork-lem none stop = tt
  fork-lem (some child) none = tt
  fork-lem (some child) (some false) = tt
  fork-lem (some child) (some true) = refl

  pub launch-Launched :
      (pid : Option ℕ) (stop : Option Bool) (resumes : Bool)
      → Post Launched (launch k e period pid stop answers resumes)
  unfolding launch
  launch-Launched pid stop resumes =
      Post-bind (λ child calls. calls ≡ forked child ∷ saw_stop child ∷ []) Launched
        (fork_stop_exec pid stop)
        (λ child. open_both k e period child answers >>= λ ev. start_child child ev resumes)
        (fork-lem pid stop)
        (λ child before f.
          Post-bind (BothOpened child) (λ r later. Launched r (before ++ later))
            (open_both k e period child answers) (λ ev. start_child child ev resumes)
            (open_both-BothOpened child) (λ ev later b. started child ev before later f b resumes))
    where
      start_child : ℕ → Both (List Ring) → Bool → Traced LaunchHalt (ℕ × Both (List Ring))
      start_child child ev b =
          if b then (call (resumed child) >> done (child, ev)) else halt LaunchHalt.resume_failed

      started :
          (child : ℕ) (ev : Both (List Ring)) (before later : List Call)
          → before ≡ forked child ∷ saw_stop child ∷ []
          → BothOpened child ev later
          → (b : Bool)
          → Post (λ r last. Launched r (before ++ (later ++ last))) (start_child child ev b)
      started child ev before later f b false = tt
      started child ev before later f b true = record {
        for_miss = BothOpened.for_miss b;
        for_access = BothOpened.for_access b;
        in_order =
            ap (λ l. l ++ (later ++ resumed child ∷ [])) f
            ∙ ap (λ l. forked child ∷ saw_stop child ∷ (l ++ resumed child ∷ []))
                (BothOpened.in_order b)
            ∙ ap (λ l. forked child ∷ saw_stop child ∷ l)
                (append_assoc (BothOpened.for_miss b) (BothOpened.for_access b)
                  (resumed child ∷ []));
        opens_miss = BothOpened.opens_miss b;
        opens_access = BothOpened.opens_access b;
        fresh = BothOpened.fresh b;
        holding = BothOpened.holding b;
      }

  -- A launch that comes to its end has forked its child and seen it stop, then opened the counters for it,
  -- each off until the exec and with its event's period, and only then let the child go on; the rings are
  -- fresh, in the CPUs' order, and hold just what was opened and mapped. It ends the process
  -- before only on an answer that fails: of fork, of the wait for the stop, of a ring's calls with the
  -- errno's diagnosis, or of the signal.
  pub launch_right :
      (pid : Option ℕ) (stop : Option Bool) (resumes : Bool)
      → PostOr Launched
          (LaunchEnded e pid stop answers resumes)
          (launch k e period pid stop answers resumes)
  launch_right pid stop resumes =
      let m = launch k e period pid stop answers resumes in
      PostOrOf-EndsOf Launched (LaunchEnded e pid stop answers resumes) m.calls m.result
        (launch-Launched pid stop resumes) (launch-Ends k e period pid stop answers resumes)
