-- ===== src/Launch/Granted.antt =====
-- A launch whose every call is granted comes to its end.
use cache_lens.Prelude.{
  ℕ, suc, ◌+◌, ◌≡◌, refl, true, some, List, [], ◌∷◌, Result, ok, err, Option, All,
}
use cache_lens.Keys.Order.{ℤ, pos}
use cache_lens.Session.{Both}
use cache_lens.System.{PerfNumbers, Call, Traced, bind_from, ◌>>=◌}
use cache_lens.Launch.{
  Errnos, RingAnswer, map_ring, open_sampling, open_cpus, open_both, launch, fork_stop_exec,
}

-- perf_event_open, sysconf and mmap succeed.
abbrev pub Grants : RingAnswer → Type 0
Grants a =
    ((fd : ℕ) × (a.descriptor ≡ ok fd))
    × ((n : ℕ) × (a.page_size ≡ pos (suc n)))
    × ((base : ℕ) × (a.base ≡ some base))

abbrev pub Succeeds : {E A : Type 0} → Traced E A → Type 0
Succeeds m = (a : _) × (m.result ≡ ok a)

module _ {E A B : Type 0} where
  Succeeds-bind_from :
      (calls : List Call) (r : Result E A) (f : A → Traced E B) (a : A)
      → r ≡ ok a
      → ((a : A) → Succeeds (f a))
      → Succeeds (bind_from calls r f)
  Succeeds-bind_from calls (ok b) f a e g = g b
  Succeeds-bind_from calls (err x) f a e g = absurd cc

  Succeeds-bind :
      (m : Traced E A) (f : A → Traced E B)
      → Succeeds m
      → ((a : A) → Succeeds (f a))
      → Succeeds (m >>= f)
  Succeeds-bind m f h g = Succeeds-bind_from m.calls m.result f h.0 h.1 g

module _ (k : PerfNumbers) (e : Errnos) where
  map_ring-Succeeds :
      (period cpu fd : ℕ) (a : RingAnswer) (n base : ℕ)
      → Succeeds (map_ring k period cpu fd a (pos (suc n)) (some base))
  unfolding map_ring
  map_ring-Succeeds period cpu fd a n base = (_, refl)

  open_sampling-Succeeds :
      (hw_config period child cpu : ℕ) (a : RingAnswer) (d : Result ℕ ℕ)
      → a.descriptor ≡ d
      → Grants a
      → Succeeds (open_sampling k e hw_config period child cpu a d)
  unfolding open_sampling
  open_sampling-Succeeds hw_config period child cpu a (err errno) q g =
      absurd (let (fd, r) = g.0 in cc)
  open_sampling-Succeeds hw_config period child cpu a (ok fd) q g =
      mapped_too a.page_size a.base g.1 g.2
    where
      mapped_too :
          (z : ℤ) (base : Option ℕ)
          → ((n : ℕ) × (z ≡ pos (suc n)))
          → ((b : ℕ) × (base ≡ some b))
          → Succeeds (map_ring k period cpu fd a z base)
      mapped_too z base (n, ez) (b, eb) = rw (ez, eb) (map_ring-Succeeds period cpu fd a n b)

  open_cpus-Succeeds :
      (hw_config period child cpu : ℕ) (answers : List RingAnswer)
      → All Grants answers
      → Succeeds (open_cpus k e hw_config period child cpu answers)
  unfolding open_cpus
  open_cpus-Succeeds hw_config period child cpu [] g = (_, refl)
  open_cpus-Succeeds hw_config period child cpu (a ∷ answers) g =
      Succeeds-bind (open_sampling k e hw_config period child cpu a a.descriptor) _
        (open_sampling-Succeeds hw_config period child cpu a a.descriptor refl g.0)
        (λ r.
          Succeeds-bind (open_cpus k e hw_config period child (cpu + 1) answers) _
            (open_cpus-Succeeds hw_config period child (cpu + 1) answers g.1) (λ rs. (_, refl)))

  -- Where fork gives a child that stops, every counter opens and is mapped, and the child can be resumed,
  -- the launch comes to its end, with the child and the rings.
  pub launch-Succeeds :
      (period : Both ℕ) (child : ℕ) (answers : Both (List RingAnswer))
      → All Grants answers.miss
      → All Grants answers.access
      → Succeeds (launch k e period (some child) (some true) answers true)
  unfolding launch fork_stop_exec open_both
  launch-Succeeds period child answers miss access =
      Succeeds-bind (open_both k e period child answers) _
        (Succeeds-bind (open_cpus k e (k.hw_cache_misses) period.miss child 0 answers.miss) _
          (open_cpus-Succeeds (k.hw_cache_misses) period.miss child 0 answers.miss miss)
          (λ rs.
            Succeeds-bind
              (open_cpus k e (k.hw_cache_references) period.access child 0 answers.access) _
              (open_cpus-Succeeds (k.hw_cache_references) period.access child 0 answers.access
                access)
              (λ rs'. (_, refl))))
        (λ ev. (_, refl))
