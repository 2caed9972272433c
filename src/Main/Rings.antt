-- ===== src/Main/Rings.antt =====
-- The rings through a whole measurement run.
use cache_lens.Prelude.{
  ◌⊎◌, inl, inr, zero, suc, ◌+◌, ◌∙◌, ℕ, ◌≡◌, refl, sym, subst, ap, append-nil, some, List, [], ◌∷◌,
  ◌++◌, map, arith, Result, ok, err, length, weight, weight-append,
}
use cache_lens.Doubles.{Doubles}
use cache_lens.Perf.{PerfAbi}
use cache_lens.Elf.{ElfAbi}
use cache_lens.Session.{Both, SamplingEvent, ExitStatus, Stop, measure}
use cache_lens.Session.Lengths.{SameLengths, KeepsRings, measure-KeepsRings}
use cache_lens.Checks.{finish_rings}
use cache_lens.System.{PerfNumbers, Call, Traced, opens, closes, maps, unmaps, is_at, done, ◌>>=◌}
use cache_lens.System.Post.{PostOf, Post, PostOrOf, PostOr, PostOr-bind, PostOr-map}
use cache_lens.Launch.{RingAnswer, Errnos, LaunchHalt, Ring, launch, finish_both}
use cache_lens.System.Ends.{EndsOf}
use cache_lens.Launch.Ends.{LaunchEnded, FinishEnded, NotRead, launch-Ends, finish_both-Ends}
use cache_lens.Launch.Rings.{AreFresh, BothFresh}
use cache_lens.Launch.Order.{all_rings, Launched, launch-Launched}
use cache_lens.Launch.Balance.{BothFinished, finish_both-BothFinished, balance}
use cache_lens.Ranking.{Sorting}
use cache_lens.Main.{
  Why, in_run, in_launch, events_of, put_events, put_both, for_cpus, for_both, World, lift, ending,
  measurement,
}

-- Putting the events back leaves the handles alone.
weight-put_events :
    (w : Ring → ℕ)
    → ((r : Ring) (e : SamplingEvent) → w (record r { event = e }) ≡ w r)
    → (rs : List Ring) (es : List SamplingEvent) → length es ≡ length (map (λ r. r.event) rs)
    → weight w (put_events rs es) ≡ weight w rs
unfolding put_events
weight-put_events w same [] es h = refl
weight-put_events w same (r ∷ rs) [] h = absurd (omega arith)
weight-put_events w same (r ∷ rs) (e ∷ es) h =
    omega (arith, same r e, weight-put_events w same rs es (omega arith))

map-put_events :
    (rs : List Ring) (es : List SamplingEvent)
    → length es ≡ length (map (λ r. r.event) rs)
    → map (λ r. r.event) (put_events rs es) ≡ es
unfolding put_events
map-put_events [] [] h = refl
map-put_events [] (e ∷ es) h = absurd (omega arith)
map-put_events (r ∷ rs) [] h = absurd (omega arith)
map-put_events (r ∷ rs) (e ∷ es) h = ap (λ l. e ∷ l) (map-put_events rs es (omega arith))

weight-put_both :
    (w : Ring → ℕ)
    → ((r : Ring) (e : SamplingEvent) → w (record r { event = e }) ≡ w r)
    → (ev : Both (List Ring)) (es : Both (List SamplingEvent)) → SameLengths (events_of ev) es
    → weight w (all_rings (put_both ev es)) ≡ weight w (all_rings ev)
weight-put_both w same ev es h = omega (
  arith,
  weight-append w ev.miss ev.access,
  weight-append w (put_events ev.miss es.miss) (put_events ev.access es.access),
  weight-put_events w same ev.miss es.miss h.0,
  weight-put_events w same ev.access es.access h.1,
)

abbrev pub GivenBack : List Call → Type 0
GivenBack calls =
    ((fd : ℕ) → weight (opens fd) calls ≡ weight (closes fd) calls)
    × ((base : ℕ) → weight (maps base) calls ≡ weight (unmaps base) calls)

pub PostOr-ending :
    {A : Type 0} (P : A → List Call → Type 0) (F : Why → Type 0) (G : LaunchHalt → Type 0)
    (calls : List Call) (r : Result LaunchHalt A)
    → ((e : LaunchHalt) → G e → F (in_launch e))
    → PostOf P calls r
    → EndsOf G r
    → PostOrOf P F calls (lift in_launch r).result
PostOr-ending P F G calls (ok a) f h g = h
PostOr-ending P F G calls (err e) f h g = f e g

length-for_cpus : {A : Type 0} (f : ℕ → A) (cpu n : ℕ) → length (for_cpus f cpu n) ≡ n
unfolding for_cpus
length-for_cpus f cpu zero = refl
length-for_cpus f cpu (suc n) = omega (arith, length-for_cpus f (cpu + 1) n)

AreFresh-length :
    (period cpu : ℕ) (answers : List RingAnswer) (rs : List Ring)
    → AreFresh period cpu answers rs
    → length rs ≡ length answers
AreFresh-length period cpu [] [] h = refl
AreFresh-length period cpu [] (r ∷ rs) h = absurd h
AreFresh-length period cpu (a ∷ answers) [] h = absurd h
AreFresh-length period cpu (a ∷ answers) (r ∷ rs) h =
    omega (arith, AreFresh-length period (cpu + 1) answers rs h.4)

length-put_events :
    (rs : List Ring) (es : List SamplingEvent)
    → length es ≡ length (map (λ r. r.event) rs)
    → length (put_events rs es) ≡ length rs
unfolding put_events
length-put_events [] es h = refl
length-put_events (r ∷ rs) [] h = absurd (omega arith)
length-put_events (r ∷ rs) (e ∷ es) h = omega (arith, length-put_events rs es (omega arith))

module _ (d : Doubles) (abi : PerfAbi) (numbers : PerfNumbers) (errnos : Errnos) (elf_abi : ElfAbi)
    (sorting : Sorting) (ready_mask : ℕ) (w : World d) (period : Both ℕ) (nr_cpus : ℕ) where
  -- Why a launch, or the reading at its end, ends the process.
  abbrev pub LaunchReason : LaunchHalt → Type 0
  LaunchReason e =
      LaunchEnded errnos w.pid w.stop (for_both w.rings nr_cpus) w.resumes e
      ⊎ FinishEnded w.reads (record { miss = nr_cpus; access = nr_cpus }) e

  -- One ring for each CPU, also with the events that the session has left.
  one_for_each :
      (l : Both (List Ring)) (es : Both (List SamplingEvent))
      → BothFresh period (for_both w.rings nr_cpus) l
      → SameLengths (events_of l) es
      → (e : LaunchHalt)
      → FinishEnded w.reads
          (record { miss = length (put_both l es).miss; access = length (put_both l es).access })
          e
      → LaunchReason e
  one_for_each l es f same e x =
      let m =
        length-put_events l.miss es.miss same.0
        ∙ (AreFresh-length period.miss 0 (for_both w.rings nr_cpus).miss l.miss f.0
            ∙ length-for_cpus (w.rings).miss 0 nr_cpus) in
      let a =
        length-put_events l.access es.access same.1
        ∙ (AreFresh-length period.access 0 (for_both w.rings nr_cpus).access l.access f.1
            ∙ length-for_cpus (w.rings).access 0 nr_cpus) in
      inr (
        x.0,
        elim x.1 [
          | inl y ↦ inl (subst (NotRead (w.reads).miss) m y)
          | inr y ↦ inr (subst (NotRead (w.reads).access) a y)
        ],
      )

  -- What a measurement run rests on: fresh rings, a session on them, and counts read at its end.
  pub record Measured (m : Both (List Ring) × ExitStatus) (calls : List Call) : Type 0 where
    pub launched : Both (List Ring)
    pub session : Both (List SamplingEvent)
    pub fresh : BothFresh period (for_both w.rings nr_cpus) launched
    pub ran : measure abi ready_mask w.rounds w.final (events_of launched) ≡ ok (session, m.1)
    pub counted_miss : finish_rings w.reads.miss session.miss ≡ some (events_of m.0).miss
    pub counted_access : finish_rings w.reads.access session.access ≡ some (events_of m.0).access
    pub given_back : GivenBack calls

  end_of :
      (l : ℕ × Both (List Ring)) (es : Both (List SamplingEvent)) (st : ExitStatus)
      (before later : List Call) (ev : Both (List Ring))
      → Launched numbers errnos period (for_both w.rings nr_cpus) l before
      → measure abi ready_mask w.rounds w.final (events_of l.1) ≡ ok (es, st)
      → SameLengths (events_of l.1) es
      → BothFinished w.reads (put_both l.1 es) ev later
      → Measured (ev, st) (before ++ later)
  end_of l es st before later ev h ran same f =
      let b =
        balance numbers errnos period (for_both w.rings nr_cpus) l (put_both l.1 es) before later h
          (BothFinished.released f)
          (λ fd. weight-put_both (λ r. is_at fd r.fd) (λ r e. refl) l.1 es same)
          (λ base. weight-put_both (λ r. is_at base r.mmap_base) (λ r e. refl) l.1 es same) in
      record {
        launched = l.1;
        session = es;
        fresh = Launched.fresh h;
        ran = ran;
        counted_miss =
            subst (λ es'. finish_rings w.reads.miss es' ≡ some (events_of ev).miss)
              (map-put_events (l.1).miss es.miss same.0) (BothFinished.counted f).0;
        counted_access =
            subst (λ es'. finish_rings w.reads.access es' ≡ some (events_of ev).access)
              (map-put_events (l.1).access es.access same.1) (BothFinished.counted f).1;
        given_back = b;
      }

  -- The run as a whole, with what holds of its ends: `F`.
  pub measurement-Measured :
      (F : Why → Type 0)
      → ((e : LaunchHalt) → LaunchReason e → F (in_launch e))
      → ((l : Both (List Ring)) (s : Stop)
          → BothFresh period (for_both w.rings nr_cpus) l
          → measure abi ready_mask w.rounds w.final (events_of l) ≡ err s
          → F (in_run s))
      → PostOr Measured F
          (measurement d abi numbers errnos elf_abi sorting ready_mask w period nr_cpus)
  unfolding measurement
  measurement-Measured F launch_ends run_ends =
      PostOr-bind (Launched numbers errnos period (for_both w.rings nr_cpus)) Measured F
        (ending started)
        (λ l. after_launch l (measure abi ready_mask w.rounds w.final (events_of l.1)))
        (PostOr-ending (Launched numbers errnos period (for_both w.rings nr_cpus)) F
          (LaunchEnded errnos w.pid w.stop (for_both w.rings nr_cpus) w.resumes) started.calls
          started.result (λ e x. launch_ends e (inl x))
          (launch-Launched numbers errnos period (for_both w.rings nr_cpus) w.pid w.stop w.resumes)
          (launch-Ends numbers errnos period w.pid w.stop (for_both w.rings nr_cpus) w.resumes))
        (λ l before h.
          session_of l before h (measure abi ready_mask w.rounds w.final (events_of l.1)) refl
            (measure-KeepsRings abi ready_mask w.rounds w.final (events_of l.1)))
    where
      started : Traced LaunchHalt (ℕ × Both (List Ring))
      started = launch numbers errnos period w.pid w.stop (for_both w.rings nr_cpus) w.resumes

      after_launch :
          ℕ × Both (List Ring)
          → Result Stop (Both (List SamplingEvent) × ExitStatus)
          → Traced Why (Both (List Ring) × ExitStatus)
      after_launch l r = lift in_run r >>= λ q.
          ending (finish_both w.reads (put_both l.1 q.0)) >>= λ ev. done (ev, q.1)

      session_of :
          (l : ℕ × Both (List Ring)) (before : List Call)
          → Launched numbers errnos period (for_both w.rings nr_cpus) l before
          → (r : Result Stop (Both (List SamplingEvent) × ExitStatus))
          → measure abi ready_mask w.rounds w.final (events_of l.1) ≡ r
          → KeepsRings (events_of l.1) r
          → PostOr (λ m later. Measured m (before ++ later)) F (after_launch l r)
      session_of l before h (err s) ran same = run_ends l.1 s (Launched.fresh h) ran
      session_of l before h (ok (es, st)) ran same =
          PostOr-bind (BothFinished w.reads (put_both l.1 es))
            (λ m later. Measured m (before ++ later)) F
            (ending (finish_both w.reads (put_both l.1 es))) (λ ev. done (ev, st))
            (PostOr-ending (BothFinished w.reads (put_both l.1 es)) F
              (FinishEnded w.reads (record {
                miss = length (put_both l.1 es).miss;
                access = length (put_both l.1 es).access;
              }))
              (finish_both w.reads (put_both l.1 es)).calls
              (finish_both w.reads (put_both l.1 es)).result
              (λ e x. launch_ends e (one_for_each l.1 es (Launched.fresh h) same e x))
              (finish_both-BothFinished w.reads (put_both l.1 es))
              (finish_both-Ends w.reads (put_both l.1 es)))
            (λ ev later f.
              subst (λ c. Measured (ev, st) (before ++ c)) (sym (append-nil later))
                (end_of l es st before later ev h ran same f))

  -- A measurement run that comes to its end has closed every descriptor of a counter as often as it was
  -- opened, and taken away the mapping at every address as often as it was made there.
  pub gives_back :
      Post
        (λ m calls. GivenBack calls)
        (measurement d abi numbers errnos elf_abi sorting ready_mask w period nr_cpus)
  gives_back =
      let m = measurement d abi numbers errnos elf_abi sorting ready_mask w period nr_cpus in
      PostOr-map Measured (λ _ calls. GivenBack calls) (λ _. Unit) (λ _. Unit) m.calls m.result
        (λ a c h. Measured.given_back h) (λ e u. tt)
        (measurement-Measured (λ _. Unit) (λ e x. tt) (λ l s f r. tt))
