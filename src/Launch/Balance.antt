-- ===== src/Launch/Balance.antt =====
-- What a run takes of the system, and that it gives it back.
use cache_lens.Prelude.{
  ℕ, ◌+◌, ◌≡◌, refl, sym, subst, ◌∙◌, ap, append-nil, Option, none, some, List, [], ◌∷◌, ◌++◌,
  arith, weight, weight-append, map,
}
use cache_lens.Session.{Both, CountReadFormat}
use cache_lens.System.{
  PerfNumbers, Call, forked, saw_stop, resumed, counts_read, unmapped, closed, opens, closes, maps,
  unmaps, is_at, done, ◌>>=◌,
}
use cache_lens.System.Post.{Post, Post-bind}
use cache_lens.Checks.{finish_rings}
use cache_lens.Launch.{Errnos, RingAnswer, Ring, finish_sampling, finish_cpus, finish_both}
use cache_lens.Launch.Rings.{Holding}
use cache_lens.Launch.Order.{all_rings, Launched}

-- The calls of finishing some rings: what they hold is given back.
pub record Released (rs : List Ring) (calls : List Call) : Type 0 where
  pub closed_once : (fd : ℕ) → weight (closes fd) calls ≡ weight (λ r. is_at fd r.fd) rs
  pub unmapped_once :
      (base : ℕ) → weight (unmaps base) calls ≡ weight (λ r. is_at base r.mmap_base) rs
  pub none_opened : (fd : ℕ) → weight (opens fd) calls ≡ 0
  pub none_mapped : (base : ℕ) → weight (maps base) calls ≡ 0

-- Finished rings, with the counts that `finish_rings` of the checks gives.
pub record Finished (cs : List (Option CountReadFormat)) (rs rs' : List Ring) (calls : List Call)
    : Type 0 where
  pub released : Released rs calls
  pub counted : finish_rings cs (map (λ r. r.event) rs) ≡ some (map (λ r. r.event) rs')

finish_cpus-Finished :
    (cs : List (Option CountReadFormat)) (rs : List Ring)
    → Post (Finished cs rs) (finish_cpus cs rs)
unfolding finish_cpus finish_sampling finish_rings
finish_cpus-Finished cs [] = record {
  released = record {
    closed_once = λ fd. refl;
    unmapped_once = λ base. refl;
    none_opened = λ fd. refl;
    none_mapped = λ base. refl;
  };
  counted = refl;
}
finish_cpus-Finished [] (r ∷ rs) = tt
finish_cpus-Finished (none ∷ cs) (r ∷ rs) = tt
finish_cpus-Finished (some c ∷ cs) (r ∷ rs) =
    let r' : Ring = record r { event = record (r.event) { counts = c } } in
    Post-bind
      (λ q calls.
        (q ≡ r') × (calls ≡ counts_read r.fd ∷ unmapped r.mmap_base r.mmap_len ∷ closed r.fd ∷ []))
      (Finished (some c ∷ cs) (r ∷ rs)) (finish_sampling r (some c))
      (λ q. finish_cpus cs rs >>= λ rs'. done (q ∷ rs')) (refl, refl)
      (λ q first e.
        Post-bind (Finished cs rs) (λ qs later. Finished (some c ∷ cs) (r ∷ rs) qs (first ++ later))
          (finish_cpus cs rs) (λ rs'. done (q ∷ rs')) (finish_cpus-Finished cs rs)
          (λ rs' later f. more q first e rs' later f))
  where
    more :
        (q : Ring) (first : List Call)
        → (q ≡ record r { event = record (r.event) { counts = c } })
          × (first ≡ counts_read r.fd ∷ unmapped r.mmap_base r.mmap_len ∷ closed r.fd ∷ [])
        → (rs' : List Ring) (later : List Call) → Finished cs rs rs' later
        → Finished (some c ∷ cs) (r ∷ rs) (q ∷ rs') (first ++ (later ++ []))
    more q first e rs' later f =
        subst (Finished (some c ∷ cs) (r ∷ rs) (q ∷ rs'))
          (ap (λ l. counts_read r.fd ∷ unmapped r.mmap_base r.mmap_len ∷ closed r.fd ∷ l)
              (sym (append-nil later))
            ∙ ap (λ l. l ++ (later ++ [])) (sym e.1))
          (record {
            released = record {
              closed_once = λ fd. omega (arith, Released.closed_once (Finished.released f) fd);
              unmapped_once =
                  λ base. omega (arith, Released.unmapped_once (Finished.released f) base);
              none_opened = λ fd. omega (arith, Released.none_opened (Finished.released f) fd);
              none_mapped = λ base. omega (arith, Released.none_mapped (Finished.released f) base);
            };
            counted = rw (Finished.counted f, e.0);
          })

abbrev BothCounted :
    Both (List (Option CountReadFormat)) → Both (List Ring) → Both (List Ring) → Type 0
BothCounted reads ev ev' =
    (finish_rings reads.miss (map (λ r. r.event) ev.miss) ≡ some (map (λ r. r.event) ev'.miss))
    × (finish_rings reads.access (map (λ r. r.event) ev.access)
        ≡ some (map (λ r. r.event) ev'.access))

pub record BothFinished (reads : Both (List (Option CountReadFormat))) (ev ev' : Both (List Ring))
    (calls : List Call) : Type 0 where
  pub released : Released (all_rings ev) calls
  pub counted : BothCounted reads ev ev'

Released-append :
    (xs ys : List Ring) (cs ds : List Call)
    → Released xs cs
    → Released ys ds
    → Released (xs ++ ys) (cs ++ ds)
Released-append xs ys cs ds h g = record {
  closed_once = λ fd. omega (
    arith,
    weight-append (closes fd) cs ds,
    weight-append (λ r. is_at fd r.fd) xs ys,
    Released.closed_once h fd,
    Released.closed_once g fd,
  );
  unmapped_once = λ base. omega (
    arith,
    weight-append (unmaps base) cs ds,
    weight-append (λ r. is_at base r.mmap_base) xs ys,
    Released.unmapped_once h base,
    Released.unmapped_once g base,
  );
  none_opened = λ fd.
      omega (
        arith,
        weight-append (opens fd) cs ds,
        Released.none_opened h fd,
        Released.none_opened g fd,
      );
  none_mapped = λ base. omega (
    arith,
    weight-append (maps base) cs ds,
    Released.none_mapped h base,
    Released.none_mapped g base,
  );
}

pub finish_both-BothFinished :
    (reads : Both (List (Option CountReadFormat))) (ev : Both (List Ring))
    → Post (BothFinished reads ev) (finish_both reads ev)
unfolding finish_both
finish_both-BothFinished reads ev =
    Post-bind (Finished reads.miss ev.miss) (BothFinished reads ev) (finish_cpus reads.miss ev.miss)
      (λ miss. finish_cpus reads.access ev.access >>= λ access.
        done (record { miss = miss; access = access }))
      (finish_cpus-Finished reads.miss ev.miss)
      (λ miss before m.
        Post-bind (Finished reads.access ev.access)
          (λ ev' later. BothFinished reads ev ev' (before ++ later))
          (finish_cpus reads.access ev.access)
          (λ access. done (record { miss = miss; access = access }))
          (finish_cpus-Finished reads.access ev.access)
          (λ access later a. record {
            released =
                subst (λ l. Released (all_rings ev) (before ++ l)) (sym (append-nil later))
                  (Released-append ev.miss ev.access before later (Finished.released m)
                    (Finished.released a));
            counted = (Finished.counted m, Finished.counted a);
          }))

-- Launched and finished with the same handles, nothing stays open and nothing mapped.
pub balance :
    (k : PerfNumbers) (e : Errnos) (period : Both ℕ) (answers : Both (List RingAnswer))
    (l : ℕ × Both (List Ring)) (ev : Both (List Ring)) (before later : List Call)
    → Launched k e period answers l before
    → Released (all_rings ev) later
    → ((fd : ℕ)
        → weight (λ r. is_at fd r.fd) (all_rings ev) ≡ weight (λ r. is_at fd r.fd) (all_rings l.1))
    → ((base : ℕ)
        → weight (λ r. is_at base r.mmap_base) (all_rings ev)
          ≡ weight (λ r. is_at base r.mmap_base) (all_rings l.1))
    → ((fd : ℕ) → weight (opens fd) (before ++ later) ≡ weight (closes fd) (before ++ later))
      × ((base : ℕ) → weight (maps base) (before ++ later) ≡ weight (unmaps base) (before ++ later))
balance k e period answers l ev before later h g fds bases = (
  λ fd. omega (
    arith,
    weight-append (opens fd) before later,
    weight-append (closes fd) before later,
    split (opens fd),
    split (closes fd),
    fds fd,
    Released.closed_once g fd,
    Released.none_opened g fd,
    Holding.opened_once (Launched.holding h) fd,
    Holding.none_closed (Launched.holding h) fd,
  ),
  λ base. omega (
    arith,
    weight-append (maps base) before later,
    weight-append (unmaps base) before later,
    split (maps base),
    split (unmaps base),
    bases base,
    Released.unmapped_once g base,
    Released.none_mapped g base,
    Holding.mapped_once (Launched.holding h) base,
    Holding.none_unmapped (Launched.holding h) base,
  ),
)
  where
    split :
        (w : Call → ℕ)
        → weight w before
          ≡ w (forked l.0)
            + (w (saw_stop l.0)
                + (weight w (Launched.for_miss h ++ Launched.for_access h) + w (resumed l.0)))
    split w =
        ap (weight w) (Launched.in_order h)
        ∙ omega (
          arith,
          weight-append w (Launched.for_miss h) (Launched.for_access h ++ resumed l.0 ∷ []),
          weight-append w (Launched.for_access h) (resumed l.0 ∷ []),
          weight-append w (Launched.for_miss h) (Launched.for_access h),
        )
