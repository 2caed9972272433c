-- ===== src/Launch/Ends.antt =====
-- What a launch, or the reading at the end of a run, ends the process on.
use cache_lens.Prelude.{
  ℕ, zero, suc, ◌+◌, ◌<◌, ◌≡◌, ◌⊎◌, inl, inr, refl, if◌then◌else◌, Bool, true, false, Option, none,
  some, List, [], ◌∷◌, arith, Result, ok, err, length, Any,
}
use cache_lens.Keys.Order.{ℤ, pos, negsuc}
use cache_lens.Session.{Both, CountReadFormat}
use cache_lens.System.{PerfNumbers, call, done, halt, resumed, ◌>>◌}
use cache_lens.System.Ends.{Ends, Ends-bind}
use cache_lens.Launch.{
  Errnos, LaunchHalt, fork_failed, stop_wait_failed, not_stopped, open_failed, no_page_size,
  map_failed, resume_failed, read_failed, diagnose_perf_open_failure, fork_stop_exec, RingAnswer,
  Ring, map_ring, open_sampling, open_cpus, open_both, launch, finish_sampling, finish_cpus,
  finish_both,
}

abbrev pub ForkEnded : Option ℕ → Option Bool → LaunchHalt → Type 0
ForkEnded pid stop fork_failed = pid ≡ none
ForkEnded pid stop stop_wait_failed = stop ≡ none
ForkEnded pid stop not_stopped = stop ≡ some false
ForkEnded pid stop _ = ⊥

abbrev pub NoPage : ℤ → Type 0
NoPage (pos zero) = Unit
NoPage (pos (suc n)) = ⊥
NoPage (negsuc n) = Unit

-- The answer for the ring of a CPU, with the diagnosis of the errno.
abbrev pub RingEnded : Errnos → RingAnswer → ℕ → LaunchHalt → Type 0
RingEnded e a cpu (open_failed diagnosis c) =
    (c ≡ cpu)
    × ((errno : ℕ) × (a.descriptor ≡ err errno) × (diagnosis ≡ diagnose_perf_open_failure e errno))
RingEnded e a cpu no_page_size = NoPage a.page_size
RingEnded e a cpu (map_failed c) = (c ≡ cpu) × (a.base ≡ none)
RingEnded e a cpu _ = ⊥

abbrev pub CpusEnded : Errnos → ℕ → List RingAnswer → LaunchHalt → Type 0
CpusEnded e cpu [] h = ⊥
CpusEnded e cpu (a ∷ answers) h = RingEnded e a cpu h ⊎ CpusEnded e (cpu + 1) answers h

abbrev pub BothEnded : Errnos → Both (List RingAnswer) → LaunchHalt → Type 0
BothEnded e answers h = CpusEnded e 0 answers.miss h ⊎ CpusEnded e 0 answers.access h

abbrev pub ResumeEnded : Bool → LaunchHalt → Type 0
ResumeEnded resumes resume_failed = resumes ≡ false
ResumeEnded resumes _ = ⊥

abbrev pub LaunchEnded :
    Errnos → Option ℕ → Option Bool → Both (List RingAnswer) → Bool → LaunchHalt → Type 0
LaunchEnded e pid stop answers resumes h =
    ForkEnded pid stop h ⊎ (BothEnded e answers h ⊎ ResumeEnded resumes h)

-- A count is missing.
abbrev pub NotRead : List (Option CountReadFormat) → ℕ → Type 0
NotRead cs rings = Any (λ c. c ≡ none) cs ⊎ (length cs < rings)

abbrev pub FinishEnded : Both (List (Option CountReadFormat)) → Both ℕ → LaunchHalt → Type 0
FinishEnded reads rings h =
    (h ≡ read_failed) × (NotRead reads.miss rings.miss ⊎ NotRead reads.access rings.access)

module _ (k : PerfNumbers) (e : Errnos) where
  fork-Ends :
      (pid : Option ℕ) (stop : Option Bool) → Ends (ForkEnded pid stop) (fork_stop_exec pid stop)
  unfolding fork_stop_exec
  fork-Ends none stop = refl
  fork-Ends (some child) none = refl
  fork-Ends (some child) (some false) = refl
  fork-Ends (some child) (some true) = tt

  map_ring-Ends :
      (period cpu fd : ℕ) (a : RingAnswer) (z : ℤ) (base : Option ℕ)
      → a.page_size ≡ z
      → a.base ≡ base
      → Ends (RingEnded e a cpu) (map_ring k period cpu fd a z base)
  unfolding map_ring
  map_ring-Ends period cpu fd a (negsuc n) base ez eb = rw (ez) tt
  map_ring-Ends period cpu fd a (pos zero) base ez eb = rw (ez) tt
  map_ring-Ends period cpu fd a (pos (suc n)) none ez eb = (refl, eb)
  map_ring-Ends period cpu fd a (pos (suc n)) (some base) ez eb = tt

  open_sampling-Ends :
      (hw_config period child cpu : ℕ) (a : RingAnswer) (d : Result ℕ ℕ)
      → a.descriptor ≡ d
      → Ends (RingEnded e a cpu) (open_sampling k e hw_config period child cpu a d)
  unfolding open_sampling
  open_sampling-Ends hw_config period child cpu a (err errno) ed = (refl, (errno, ed, refl))
  open_sampling-Ends hw_config period child cpu a (ok fd) ed =
      map_ring-Ends period cpu fd a a.page_size a.base refl refl

  open_cpus-Ends :
      (hw_config period child cpu : ℕ) (answers : List RingAnswer)
      → Ends (CpusEnded e cpu answers) (open_cpus k e hw_config period child cpu answers)
  unfolding open_cpus
  open_cpus-Ends hw_config period child cpu [] = tt
  open_cpus-Ends hw_config period child cpu (a ∷ answers) =
      Ends-bind (RingEnded e a cpu) (CpusEnded e cpu (a ∷ answers))
        (open_sampling k e hw_config period child cpu a a.descriptor) _
        (open_sampling-Ends hw_config period child cpu a a.descriptor refl) (λ h x. inl x)
        (λ r.
          Ends-bind (CpusEnded e (cpu + 1) answers) (CpusEnded e cpu (a ∷ answers))
            (open_cpus k e hw_config period child (cpu + 1) answers) _
            (open_cpus-Ends hw_config period child (cpu + 1) answers) (λ h x. inr x) (λ rs. tt))

  open_both-Ends :
      (period : Both ℕ) (child : ℕ) (answers : Both (List RingAnswer))
      → Ends (BothEnded e answers) (open_both k e period child answers)
  unfolding open_both
  open_both-Ends period child answers =
      Ends-bind (CpusEnded e 0 answers.miss) (BothEnded e answers)
        (open_cpus k e (k.hw_cache_misses) period.miss child 0 answers.miss) _
        (open_cpus-Ends (k.hw_cache_misses) period.miss child 0 answers.miss) (λ h x. inl x)
        (λ rs.
          Ends-bind (CpusEnded e 0 answers.access) (BothEnded e answers)
            (open_cpus k e (k.hw_cache_references) period.access child 0 answers.access) _
            (open_cpus-Ends (k.hw_cache_references) period.access child 0 answers.access)
            (λ h x. inr x) (λ rs'. tt))

  pub launch-Ends :
      (period : Both ℕ) (pid : Option ℕ) (stop : Option Bool) (answers : Both (List RingAnswer))
      (resumes : Bool)
      → Ends (LaunchEnded e pid stop answers resumes) (launch k e period pid stop answers resumes)
  unfolding launch
  launch-Ends period pid stop answers resumes =
      Ends-bind (ForkEnded pid stop) (LaunchEnded e pid stop answers resumes)
        (fork_stop_exec pid stop) _ (fork-Ends pid stop) (λ h x. inl x)
        (λ child.
          Ends-bind (BothEnded e answers) (LaunchEnded e pid stop answers resumes)
            (open_both k e period child answers) _ (open_both-Ends period child answers)
            (λ h x. inr (inl x)) (λ ev. at child ev resumes refl))
    where
      at :
          (child : ℕ) (ev : Both (List Ring)) (b : Bool)
          → resumes ≡ b
          → Ends {A = ℕ × Both (List Ring)}
              (LaunchEnded e pid stop answers resumes)
              (if b then (call (resumed child) >> done (child, ev)) else halt resume_failed)
      at child ev true q = tt
      at child ev false q = inr (inr q)

-- The end of a read, with its list of counts and its rings.
abbrev CpusNotRead : List (Option CountReadFormat) → ℕ → LaunchHalt → Type 0
CpusNotRead cs rings h = (h ≡ read_failed) × NotRead cs rings

NotRead-more :
    (c : Option CountReadFormat) (cs : List (Option CountReadFormat)) (rings : ℕ)
    → NotRead cs rings
    → NotRead (c ∷ cs) (suc rings)
NotRead-more c cs rings (inl x) = inl (inr x)
NotRead-more c cs rings (inr x) = inr (omega arith)

finish_sampling-Ends :
    (r : Ring) (c : Option CountReadFormat)
    → Ends (λ h. (h ≡ read_failed) × (c ≡ none)) (finish_sampling r c)
unfolding finish_sampling
finish_sampling-Ends r none = (refl, refl)
finish_sampling-Ends r (some c) = tt

finish_cpus-Ends :
    (cs : List (Option CountReadFormat)) (rs : List Ring)
    → Ends (CpusNotRead cs (length rs)) (finish_cpus cs rs)
unfolding finish_cpus
finish_cpus-Ends cs [] = tt
finish_cpus-Ends [] (r ∷ rs) = (refl, inr (omega arith))
finish_cpus-Ends (c ∷ cs) (r ∷ rs) =
    Ends-bind (λ h. (h ≡ read_failed) × (c ≡ none)) (CpusNotRead (c ∷ cs) (length (r ∷ rs)))
      (finish_sampling r c) _ (finish_sampling-Ends r c) (λ h x. (x.0, inl (inl x.1)))
      (λ r'.
        Ends-bind (CpusNotRead cs (length rs)) (CpusNotRead (c ∷ cs) (length (r ∷ rs)))
          (finish_cpus cs rs) _ (finish_cpus-Ends cs rs)
          (λ h x. (x.0, NotRead-more c cs (length rs) x.1)) (λ rs'. tt))

pub finish_both-Ends :
    (reads : Both (List (Option CountReadFormat))) (ev : Both (List Ring))
    → Ends
        (FinishEnded reads (record { miss = length ev.miss; access = length ev.access }))
        (finish_both reads ev)
unfolding finish_both
finish_both-Ends reads ev =
    Ends-bind (CpusNotRead reads.miss (length ev.miss)) ended (finish_cpus reads.miss ev.miss) _
      (finish_cpus-Ends reads.miss ev.miss) (λ h x. (x.0, inl x.1))
      (λ miss.
        Ends-bind (CpusNotRead reads.access (length ev.access)) ended
          (finish_cpus reads.access ev.access) _ (finish_cpus-Ends reads.access ev.access)
          (λ h x. (x.0, inr x.1)) (λ access. tt))
  where
    ended : LaunchHalt → Type 0
    ended = FinishEnded reads (record { miss = length ev.miss; access = length ev.access })
