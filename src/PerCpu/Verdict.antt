-- ===== src/PerCpu/Verdict.antt =====
-- The probe's verdict, and what it leaves open.
use cache_lens.Prelude.{
  ℕ, zero, suc, ◌+◌, ◌≤◌, ◌<◌, ◌≡◌, ◌↔◌, ◌⊎◌, inl, inr, ◌==◌, ==_iff, Option-cases, Bool-cases,
  refl, sym, ◌∙◌, ap, subst, Bool, true, false, none, some, List, [], ◌++◌, arith, Result, ok, err,
  weight, weight-append, if◌then◌else◌,
}
use cache_lens.Keys.Order.{ℤ}
use cache_lens.Setup.{positive}
use cache_lens.System.{PerfNumbers, Call, opens, closes, maps, unmaps}
use cache_lens.PerCpu.{Answer, probe_cpu, probe_cpus, main, status}

-- Each descriptor is closed as often as it was opened, and each mapping taken away.
abbrev pub LeavesNothing : List Call → Type 0
LeavesNothing calls =
    ((fd : ℕ) → weight (opens fd) calls ≡ weight (closes fd) calls)
    × ((base : ℕ) → weight (maps base) calls ≡ weight (unmaps base) calls)

pub LeavesNothing-append :
    (xs ys : List Call) → LeavesNothing xs → LeavesNothing ys → LeavesNothing (xs ++ ys)
LeavesNothing-append xs ys a b = (
  λ fd.
      omega
        (arith, weight-append (opens fd) xs ys, weight-append (closes fd) xs ys, a.0 fd, b.0 fd),
  λ base. omega (
    arith,
    weight-append (maps base) xs ys,
    weight-append (unmaps base) xs ys,
    a.1 base,
    b.1 base,
  ),
)

abbrev IsDone : Answer → Type 0
IsDone a = ((fd : ℕ) × (a.descriptor ≡ ok fd)) × ((base : ℕ) × (a.base ≡ ok base))

-- The kernel lets a counter be opened and mapped on every CPU from `from` to below `end`.
abbrev pub AllOpen : (ℕ → Answer) → ℕ → ℕ → Type 0
AllOpen answers from end = (cpu : ℕ) → from ≤ cpu → cpu < end → IsDone (answers cpu)

module _ (k : PerfNumbers) (pid page_size : ℕ) where
  probe_cpu-LeavesNothing :
      (b : Bool) (cpu : ℕ) (fd base : Result ℕ ℕ)
      → LeavesNothing (probe_cpu k pid page_size b cpu fd base).calls
  unfolding probe_cpu
  probe_cpu-LeavesNothing b cpu (err errno) base = (λ _. refl, λ _. refl)
  probe_cpu-LeavesNothing b cpu (ok fd) (err errno) = (λ f. omega arith, λ _. refl)
  probe_cpu-LeavesNothing b cpu (ok fd) (ok base) = (λ f. omega arith, λ a. omega arith)

  probe_cpus-LeavesNothing :
      (answers : ℕ → Answer) (rounds cpu : ℕ) (b : Bool)
      → LeavesNothing (probe_cpus k pid page_size answers rounds cpu b).calls
  unfolding probe_cpus
  probe_cpus-LeavesNothing answers zero cpu b = (λ _. refl, λ _. refl)
  probe_cpus-LeavesNothing answers (suc rounds) cpu b =
      let here = probe_cpu k pid page_size b cpu (answers cpu).descriptor (answers cpu).base in
      LeavesNothing-append here.calls
        (probe_cpus k pid page_size answers rounds (cpu + 1) here.all_ok).calls
        (probe_cpu-LeavesNothing b cpu (answers cpu).descriptor (answers cpu).base)
        (probe_cpus-LeavesNothing answers rounds (cpu + 1) here.all_ok)

  probe_cpu-ok :
      (b : Bool) (cpu : ℕ) (d base : Result ℕ ℕ)
      → ((probe_cpu k pid page_size b cpu d base).all_ok ≡ true)
        ↔ ((b ≡ true) × ((fd : ℕ) × (d ≡ ok fd)) × ((a : ℕ) × (base ≡ ok a)))
  unfolding probe_cpu
  probe_cpu-ok b cpu (err errno) base = (λ h. absurd cc, λ h. absurd (let (fd, e) = h.1 in cc))
  probe_cpu-ok b cpu (ok fd) (err errno) = (λ h. absurd cc, λ h. absurd (let (a, e) = h.2 in cc))
  probe_cpu-ok b cpu (ok fd) (ok base) = (λ h. (h, (fd, refl), (base, refl)), λ h. h.0)

  probe_cpus-ok :
      (answers : ℕ → Answer) (rounds cpu : ℕ) (b : Bool)
      → ((probe_cpus k pid page_size answers rounds cpu b).all_ok ≡ true)
        ↔ ((b ≡ true) × AllOpen answers cpu (cpu + rounds))
  unfolding probe_cpus
  probe_cpus-ok answers zero cpu b = (λ h. (h, λ c lo hi. absurd (omega arith)), λ h. h.0)
  probe_cpus-ok answers (suc rounds) cpu b =
      let here = probe_cpu k pid page_size b cpu (answers cpu).descriptor (answers cpu).base in
      let now = probe_cpu-ok b cpu (answers cpu).descriptor (answers cpu).base in
      let rest = probe_cpus-ok answers rounds (cpu + 1) here.all_ok in
      (
        λ h.
            let later = rest.0 h in
            let first = now.0 later.0 in
            (first.0, λ c lo hi. at c lo hi (first.1, first.2) later.1 (Bool-cases (c == cpu))),
        λ h.
            let mine = h.1 cpu (omega arith) (omega arith) in
            rest.1 (now.1 (h.0, mine.0, mine.1), λ c lo hi. h.1 c (omega arith) (omega arith)),
      )
    where
      at :
          (c : ℕ)
          → cpu ≤ c
          → c < cpu + suc rounds
          → IsDone (answers cpu)
          → AllOpen answers (cpu + 1) (cpu + 1 + rounds)
          → ((c == cpu) ≡ true) ⊎ ((c == cpu) ≡ false)
          → IsDone (answers c)
      at c lo hi first later (inl e) =
          subst (λ x. IsDone (answers x)) (sym ((==_iff c cpu).0 e)) first
      at c lo hi first later (inr ne) = later c (ground arith) (omega arith)

  main-of_none :
      (nproc : ℤ) (answers : ℕ → Answer)
      → positive nproc ≡ none
      → main k pid page_size nproc answers ≡ record { calls = []; lines = []; all_ok = false }
  unfolding main
  main-of_none nproc answers e = rw (e, main) refl

  main-of_some :
      (nproc : ℤ) (answers : ℕ → Answer) (n : ℕ)
      → positive nproc ≡ some n
      → main k pid page_size nproc answers ≡ probe_cpus k pid page_size answers n 0 true
  unfolding main
  main-of_some nproc answers n e = rw (e, main) refl

  main-LeavesNothing :
      (nproc : ℤ) (answers : ℕ → Answer) → LeavesNothing (main k pid page_size nproc answers).calls
  main-LeavesNothing nproc answers = elim (Option-cases (positive nproc)) [
    | inl e ↦
        subst (λ r. LeavesNothing r.calls) (sym (main-of_none nproc answers e))
          (λ _. refl, λ _. refl)
    | inr (n, e) ↦
        subst (λ r. LeavesNothing r.calls) (sym (main-of_some nproc answers n e))
          (probe_cpus-LeavesNothing answers n 0 true)
  ]

  status-ok :
      (nproc : ℤ) (answers : ℕ → Answer)
      → (status k pid page_size nproc answers ≡ 0)
        ↔ ((main k pid page_size nproc answers).all_ok ≡ true)
  unfolding status
  status-ok nproc answers = of_flag (main k pid page_size nproc answers).all_ok
    where
      code : Bool → ℕ
      code b = if b then 0 else 1

      of_flag : (b : Bool) → (code b ≡ 0) ↔ (b ≡ true)
      of_flag true = (λ _. refl, λ _. refl)
      of_flag false = (λ h. absurd (omega arith), λ h. absurd cc)

  status-AllOpen :
      (nproc : ℤ) (answers : ℕ → Answer)
      → (status k pid page_size nproc answers ≡ 0)
        ↔ ((n : ℕ) × (positive nproc ≡ some n) × AllOpen answers 0 n)
  status-AllOpen nproc answers = elim (Option-cases (positive nproc)) [
    | inl e ↦ (
      λ h.
          absurd
            (let t = (status-ok nproc answers).0 h in let u = main-of_none nproc answers e in cc),
      λ h. absurd (let f = h.1 in cc),
    )
    | inr (n, e) ↦
        let flag = probe_cpus-ok answers n 0 true in
        let same = ap (λ r. r.all_ok) (main-of_some nproc answers n e) in
        (
          λ h. (
            n,
            e,
            λ c lo hi. (flag.0 (sym same ∙ (status-ok nproc answers).0 h)).1 c lo (omega arith),
          ),
          λ h.
              (status-ok nproc answers).1
                (same ∙ flag.1 (refl, λ c lo hi. h.2 c lo (below h.0 n h.1 e c hi))),
        )
  ]
    where
      below :
          (m n : ℕ)
          → positive nproc ≡ some m
          → positive nproc ≡ some n
          → (c : ℕ) → c < 0 + n
          → c < m
      below m n f e c hi = omega (arith, some_inj f e)
        where
          some_inj : positive nproc ≡ some m → positive nproc ≡ some n → m ≡ n
          some_inj f e = cc

  -- The probe ends with 0 just where the number of CPUs is known and not 0 and the kernel lets a counter be
  -- opened and its ring be mapped on every one of them. Whatever it ends with, each descriptor has
  -- been closed as often as it was opened, and each mapping taken away as often as it was made.
  pub probe_right :
      (nproc : ℤ) (answers : ℕ → Answer)
      → ((status k pid page_size nproc answers ≡ 0)
          ↔ ((n : ℕ) × (positive nproc ≡ some n) × AllOpen answers 0 n))
        × LeavesNothing (main k pid page_size nproc answers).calls
  probe_right nproc answers = (status-AllOpen nproc answers, main-LeavesNothing nproc answers)
