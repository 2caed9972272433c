-- ===== src/Launch/Rings.antt =====
-- The rings as they are opened: each fresh, for its CPU and with its event's period.
use cache_lens.Prelude.{
  ℕ, zero, suc, ◌+◌, ◌≡◌, refl, sym, subst, ◌∙◌, ap, append-nil, Option, none, some, List, [], ◌∷◌,
  ◌++◌, arith, Result, ok, err, weight, All,
}
use cache_lens.Keys.Order.{ℤ, pos, negsuc}
use cache_lens.Perf.{no_records}
use cache_lens.Drain.{Drained}
use cache_lens.Session.{Both}
use cache_lens.System.{
  PerfEventAttr, PerfNumbers, Call, opened, mapped, opens, closes, maps, unmaps, is_at, done,
  behind, ◌>>=◌,
}
use cache_lens.System.Post.{Post, Post-bind}
use cache_lens.Launch.{Errnos, RingAnswer, Ring, sampling_attr, map_ring, open_sampling, open_cpus}

abbrev pub no_drained : Drained
no_drained = record { tail = 0; samples = []; hist = no_records }

-- The rings of an event, from CPU `cpu` on, each with its answer.
abbrev pub AreFresh : ℕ → ℕ → List RingAnswer → List Ring → Type 0
AreFresh period cpu [] [] = Unit
AreFresh period cpu [] (r ∷ rs) = ⊥
AreFresh period cpu (a ∷ answers) [] = ⊥
AreFresh period cpu (a ∷ answers) (r ∷ rs) =
    (r.event.cpu ≡ cpu)
    × (r.event.requested_period ≡ period)
    × (r.event.data_size ≡ a.data_size)
    × (r.event.drained ≡ no_drained)
    × AreFresh period (cpu + 1) answers rs

-- An event of the user's code, with its children, that is off until the exec and then samples with this
-- period.
pub record SamplesOnExec (hw_config period : ℕ) (attr : PerfEventAttr) : Type 0 where
  pub config_asked : attr.config ≡ hw_config
  pub period_asked : attr.sample_period ≡ period
  pub off_at_first : attr.disabled ≡ 1
  pub on_by_exec : attr.enable_on_exec ≡ 1
  pub of_children : attr.inherit ≡ 1
  pub no_kernel : (attr.exclude_kernel ≡ 1) × (attr.exclude_hv ≡ 1)

-- A call that opens a descriptor opens it for this process and with such an event.
abbrev pub OpensAs : ℕ → ℕ → ℕ → Call → Type 0
OpensAs hw_config period child (opened attr pid cpu fd) =
    SamplesOnExec hw_config period attr × (pid ≡ child)
OpensAs hw_config period child (mapped fd base len) = Unit
OpensAs hw_config period child _ = ⊥

sampling_attr-SamplesOnExec :
    (k : PerfNumbers) (hw_config period : ℕ)
    → SamplesOnExec hw_config period (sampling_attr k hw_config period)
unfolding sampling_attr
sampling_attr-SamplesOnExec k hw_config period = record {
  config_asked = refl;
  period_asked = refl;
  off_at_first = refl;
  on_by_exec = refl;
  of_children = refl;
  no_kernel = (refl, refl);
}

-- The calls of opening some rings: what was opened and mapped is what the rings hold.
pub record Holding (rs : List Ring) (calls : List Call) : Type 0 where
  pub opened_once : (fd : ℕ) → weight (opens fd) calls ≡ weight (λ r. is_at fd r.fd) rs
  pub mapped_once : (base : ℕ) → weight (maps base) calls ≡ weight (λ r. is_at base r.mmap_base) rs
  pub none_closed : (fd : ℕ) → weight (closes fd) calls ≡ 0
  pub none_unmapped : (base : ℕ) → weight (unmaps base) calls ≡ 0

module _ (k : PerfNumbers) (e : Errnos) (hw_config period child : ℕ) where
  -- One ring, with the two calls that open it.
  abbrev IsOpened : ℕ → RingAnswer → Ring → List Call → Type 0
  IsOpened cpu a r calls =
      (calls
        ≡ opened (sampling_attr k hw_config period) child (pos cpu) r.fd
          ∷ mapped r.fd r.mmap_base r.mmap_len
          ∷ [])
      × (r.event.cpu ≡ cpu)
      × (r.event.requested_period ≡ period)
      × (r.event.data_size ≡ a.data_size)
      × (r.event.drained ≡ no_drained)

  map_ring-IsOpened :
      (cpu fd : ℕ) (a : RingAnswer) (z : ℤ) (b : Option ℕ)
      → Post (IsOpened cpu a) (
          behind
            (opened (sampling_attr k hw_config period) child (pos cpu) fd ∷ [])
            (map_ring k period cpu fd a z b))
  unfolding map_ring
  map_ring-IsOpened cpu fd a (negsuc n) b = tt
  map_ring-IsOpened cpu fd a (pos zero) b = tt
  map_ring-IsOpened cpu fd a (pos (suc n)) none = tt
  map_ring-IsOpened cpu fd a (pos (suc n)) (some base) = (refl, refl, refl, refl, refl)

  open_sampling-IsOpened :
      (cpu : ℕ) (a : RingAnswer) (r : Result ℕ ℕ)
      → Post (IsOpened cpu a) (open_sampling k e hw_config period child cpu a r)
  unfolding open_sampling
  open_sampling-IsOpened cpu a (err errno) = tt
  open_sampling-IsOpened cpu a (ok fd) = map_ring-IsOpened cpu fd a a.page_size a.base

  -- The rings of an event, with all the calls that open them.
  pub record AreOpened (cpu : ℕ) (answers : List RingAnswer) (rs : List Ring) (calls : List Call)
      : Type 0 where
    pub fresh : AreFresh period cpu answers rs
    pub opens_as : All (OpensAs hw_config period child) calls
    pub holding : Holding rs calls

  AreOpened-more :
      (cpu : ℕ) (a : RingAnswer) (answers : List RingAnswer) (r : Ring) (rs : List Ring)
      (first later : List Call)
      → IsOpened cpu a r first
      → AreOpened (cpu + 1) answers rs later
      → AreOpened cpu (a ∷ answers) (r ∷ rs) (first ++ (later ++ []))
  AreOpened-more cpu a answers r rs first later o h =
      let open_call = opened (sampling_attr k hw_config period) child (pos cpu) r.fd in
      let map_call = mapped r.fd r.mmap_base r.mmap_len in
      let same : open_call ∷ map_call ∷ later ≡ first ++ (later ++ []) =
        ap (λ l. open_call ∷ map_call ∷ l) (sym (append-nil later))
        ∙ ap (λ c. c ++ (later ++ [])) (sym o.0) in
      subst (AreOpened cpu (a ∷ answers) (r ∷ rs)) same (record {
        fresh = (o.1, o.2, o.3, o.4, h.fresh);
        opens_as = ((sampling_attr-SamplesOnExec k hw_config period, refl), (tt, h.opens_as));
        holding = record {
          opened_once = λ fd. omega (arith, Holding.opened_once h.holding fd);
          mapped_once = λ base. omega (arith, Holding.mapped_once h.holding base);
          none_closed = λ fd. omega (arith, Holding.none_closed h.holding fd);
          none_unmapped = λ base. omega (arith, Holding.none_unmapped h.holding base);
        };
      })

  pub open_cpus-AreOpened :
      (cpu : ℕ) (answers : List RingAnswer)
      → Post (AreOpened cpu answers) (open_cpus k e hw_config period child cpu answers)
  unfolding open_cpus
  open_cpus-AreOpened cpu [] = record {
    fresh = tt;
    opens_as = tt;
    holding = record {
      opened_once = λ fd. refl;
      mapped_once = λ base. refl;
      none_closed = λ fd. refl;
      none_unmapped = λ base. refl;
    };
  }
  open_cpus-AreOpened cpu (a ∷ answers) =
      Post-bind (IsOpened cpu a) (AreOpened cpu (a ∷ answers))
        (open_sampling k e hw_config period child cpu a a.descriptor)
        (λ r. open_cpus k e hw_config period child (cpu + 1) answers >>= λ rs. done (r ∷ rs))
        (open_sampling-IsOpened cpu a a.descriptor)
        (λ r first o.
          Post-bind (AreOpened (cpu + 1) answers)
            (λ rs later. AreOpened cpu (a ∷ answers) rs (first ++ later))
            (open_cpus k e hw_config period child (cpu + 1) answers) (λ rs. done (r ∷ rs))
            (open_cpus-AreOpened (cpu + 1) answers)
            (λ rs later h. AreOpened-more cpu a answers r rs first later o h))

-- What `launch` hands on: fresh rings of both events.
abbrev pub BothFresh : Both ℕ → Both (List RingAnswer) → Both (List Ring) → Type 0
BothFresh period answers ev =
    AreFresh period.miss 0 answers.miss ev.miss × AreFresh period.access 0 answers.access ev.access
