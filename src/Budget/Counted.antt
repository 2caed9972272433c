-- ===== src/Budget/Counted.antt =====
-- What a round's line says of the kernel's answers.
use cache_lens.Prelude.{
  ℕ, zero, suc, ◌+◌, ◌%◌, ◌<◌, ◌≤◌, ◌≡◌, ◌⊎◌, inl, inr, refl, sym, subst, ◌==◌, ==_iff, Bool-cases,
  true, false, Option, none, some, arith, Result, ok, err, length,
}
use cache_lens.Keys.Order.{ℤ}
use cache_lens.System.{PerfNumbers}
use cache_lens.Budget.{
  Answer, Fail, open_failed, map_failed, Line, all_rings, before_open_failed, before_map_failed,
  open_and_map_one, Opened, then_rings, open_rings, line_of, want, cpus, run_size,
}

abbrev IsDone : Answer → Type 0
IsDone a = ((fd : ℕ) × (a.descriptor ≡ ok fd)) × ((base : ℕ) × (a.base ≡ ok base))

-- The kernel grants the rings from `from` to below `end`.
abbrev pub Granted : (ℕ → Answer) → ℕ → ℕ → Type 0
Granted answers from end = (i : ℕ) → from ≤ i → i < end → IsDone (answers i)

-- The line is right: so many rings were granted, and the next one, if it is not the last, was not.
abbrev pub LineRight : (ℕ → Answer) → ℕ → Line → Type 0
LineRight answers rounds (all_rings n) = (n ≡ rounds) × Granted answers 0 n
LineRight answers rounds (before_open_failed n errno) =
    (n < rounds) × Granted answers 0 n × ((answers n).descriptor ≡ err errno)
LineRight answers rounds (before_map_failed n errno) =
    (n < rounds)
    × Granted answers 0 n
    × ((fd : ℕ) × ((answers n).descriptor ≡ ok fd))
    × ((answers n).base ≡ err errno)

abbrev EndsAs : Answer → Fail → Type 0
EndsAs a (open_failed errno) = a.descriptor ≡ err errno
EndsAs a (map_failed fd errno) = (a.descriptor ≡ ok fd) × (a.base ≡ err errno)

abbrev Ends : (ℕ → Answer) → ℕ → ℕ → ℕ → Option Fail → Type 0
Ends answers from rounds n none = n ≡ rounds
Ends answers from rounds n (some f) = (n < rounds) × EndsAs (answers (from + n)) f

abbrev Right : (ℕ → Answer) → ℕ → ℕ → Opened → Type 0
Right answers from rounds o =
    Granted answers from (from + length o.rings) × Ends answers from rounds (length o.rings) o.fail

EndsAs-at :
    (answers : ℕ → Answer) (f : Fail) (i j : ℕ)
    → i ≡ j
    → EndsAs (answers i) f
    → EndsAs (answers j) f
EndsAs-at answers f i j e h = subst (λ i. EndsAs (answers i) f) e h

Ends-suc :
    (answers : ℕ → Answer) (from rounds n : ℕ) (fail : Option Fail)
    → Ends answers (from + 1) rounds n fail
    → Ends answers from (suc rounds) (suc n) fail
Ends-suc answers from rounds n none h = omega arith
Ends-suc answers from rounds n (some f) h =
    (omega arith, EndsAs-at answers f (from + 1 + n) (from + suc n) (omega arith) h.1)

Granted-first :
    (answers : ℕ → Answer) (from n : ℕ)
    → IsDone (answers from)
    → Granted answers (from + 1) (from + 1 + n)
    → Granted answers from (from + suc n)
Granted-first answers from n first later i lo hi = at (Bool-cases (i == from))
  where
    at : ((i == from) ≡ true) ⊎ ((i == from) ≡ false) → IsDone (answers i)
    at (inl e) = subst (λ x. IsDone (answers x)) (sym ((==_iff i from).0 e)) first
    at (inr ne) = later i (ground arith) (omega arith)

module _ (k : PerfNumbers) (pid page_size : ℕ) where
  then_rings-Right :
      (answers : ℕ → Answer) (cpu pages from rounds : ℕ) (d base : Result ℕ ℕ) (rest : Opened)
      → (answers from).descriptor ≡ d
      → (answers from).base ≡ base
      → Right answers (from + 1) rounds rest
      → Right answers from
          (suc rounds)
          (then_rings (open_and_map_one k pid page_size cpu pages d base) rest)
  unfolding then_rings open_and_map_one
  then_rings-Right answers cpu pages from rounds (err errno) base rest ed eb h = (
    λ i lo hi. absurd (omega arith),
    (omega arith, EndsAs-at answers (open_failed errno) from (from + 0) (omega arith) ed),
  )
  then_rings-Right answers cpu pages from rounds (ok fd) (err errno) rest ed eb h = (
    λ i lo hi. absurd (omega arith),
    (omega arith, EndsAs-at answers (map_failed fd errno) from (from + 0) (omega arith) (ed, eb)),
  )
  then_rings-Right answers cpu pages from rounds (ok fd) (ok base) rest ed eb h = (
    Granted-first answers from (length rest.rings) ((fd, ed), (base, eb)) h.0,
    Ends-suc answers from rounds (length rest.rings) rest.fail h.1,
  )

  open_rings-Right :
      (nproc pages : ℕ) (answers : ℕ → Answer) (rounds from : ℕ)
      → Right answers from rounds (open_rings k pid page_size nproc pages answers rounds from)
  unfolding open_rings
  open_rings-Right nproc pages answers zero from = (λ i lo hi. absurd (omega arith), refl)
  open_rings-Right nproc pages answers (suc rounds) from =
      then_rings-Right answers (from % nproc) pages from rounds (answers from).descriptor
        (answers from).base (open_rings k pid page_size nproc pages answers rounds (from + 1)) refl
        refl (open_rings-Right nproc pages answers rounds (from + 1))

  Right-LineRight :
      (answers : ℕ → Answer) (rounds n : ℕ) (fail : Option Fail)
      → Granted answers 0 (0 + n)
      → Ends answers 0 rounds n fail
      → LineRight answers rounds (line_of n fail)
  unfolding line_of
  Right-LineRight answers rounds n none g h = (h, λ i lo hi. g i lo (omega arith))
  Right-LineRight answers rounds n (some (open_failed errno)) g h = (
    h.0,
    λ i lo hi. g i lo (omega arith),
    EndsAs-at answers (open_failed errno) (0 + n) n (omega arith) h.1,
  )
  Right-LineRight answers rounds n (some (map_failed fd errno)) g h =
      let e = EndsAs-at answers (map_failed fd errno) (0 + n) n (omega arith) h.1 in
      (h.0, λ i lo hi. g i lo (omega arith), (fd, e.0), e.1)

  -- The line for a size is right for any machine and any answers: with all rings, two for each CPU, every
  -- one was granted; with fewer, those before were granted and the next one failed where it says,
  -- with the errno.
  pub run_size-LineRight :
      (nproc : ℤ) (pages : ℕ) (answers : ℕ → Answer)
      → LineRight answers (want nproc) (run_size k pid page_size nproc pages answers).1
  unfolding run_size
  run_size-LineRight nproc pages answers =
      let o = open_rings k pid page_size (cpus nproc) pages answers (want nproc) 0 in
      let h = open_rings-Right (cpus nproc) pages answers (want nproc) 0 in
      Right-LineRight answers (want nproc) (length o.rings) o.fail h.0 h.1
