-- ===== src/Budget/Balance.antt =====
-- What a round over a size opens and closes, and what its line says.
use cache_lens.Prelude.{
  ℕ, zero, suc, ◌+◌, ◌%◌, ◌*◌, ◌≡◌, ◌≢◌, refl, ◌==◌, ==-false_of_ne, true, false, Bool,
  if◌then◌else◌, Option, some, List, [], ◌∷◌, ◌++◌, arith, Result, ok, err, weight, weight-append,
}
use cache_lens.Prelude.Words.{u64}
use cache_lens.Keys.Order.{ℤ, pos, negsuc}
use cache_lens.System.{PerfNumbers, Call, unmapped, closed, opens, closes, maps, unmaps, is_at}
use cache_lens.Budget.{
  Answer, Ring, Fail, map_failed, open_and_map_one, close_fd, close_ring, Opened, then_rings,
  open_rings, close_rings, want, cpus, run_size,
}

-- The descriptor that is left open: of the ring that could not be mapped.
abbrev pub leaked : Option Fail → ℕ → ℕ
leaked (some (map_failed fd' errno)) fd = is_at fd fd'
leaked _ fd = 0

-- mmap, with no address asked for, does not give the null pointer.
abbrev pub NonNull : (ℕ → Answer) → Type 0
NonNull answers = (i base : ℕ) → (answers i).base ≡ ok base → base ≢ 0

-- What the loop opens is what is closed behind it, but for what is left open.
record Holds (o : Opened) : Type 0 where
  opened_once :
      (fd : ℕ)
      → weight (opens fd) o.calls ≡ weight (closes fd) (close_rings o.rings) + leaked o.fail fd
  mapped_once : (base : ℕ) → weight (maps base) o.calls ≡ weight (unmaps base) (close_rings o.rings)
  none_closed : (fd : ℕ) → weight (closes fd) o.calls ≡ 0
  none_unmapped : (base : ℕ) → weight (unmaps base) o.calls ≡ 0

close_ring-of :
    (fd base len : ℕ)
    → base ≢ 0
    → close_ring (record { fd = pos fd; base = base; len = len })
      ≡ unmapped base len ∷ closed fd ∷ []
unfolding close_ring close_fd
close_ring-of fd base len n = rw (==-false_of_ne base 0 n) refl

-- Closing opens nothing.
close_ring-none :
    (w : Call → ℕ)
    → ((base len : ℕ) → w (unmapped base len) ≡ 0)
    → ((fd : ℕ) → w (closed fd) ≡ 0)
    → (base len : ℕ) (fd : ℤ) (null : Bool)
    → weight w ((if null then [] else unmapped base len ∷ []) ++ close_fd fd) ≡ 0
unfolding close_fd
close_ring-none w u c base len (pos fd) true = omega (arith, c fd)
close_ring-none w u c base len (pos fd) false = omega (arith, c fd, u base len)
close_ring-none w u c base len (negsuc fd) true = refl
close_ring-none w u c base len (negsuc fd) false = omega (arith, u base len)

close_rings-none :
    (w : Call → ℕ)
    → ((base len : ℕ) → w (unmapped base len) ≡ 0)
    → ((fd : ℕ) → w (closed fd) ≡ 0)
    → (rs : List Ring) → weight w (close_rings rs) ≡ 0
unfolding close_rings close_ring
close_rings-none w u c [] = refl
close_rings-none w u c (r ∷ rs) = omega (
  arith,
  weight-append w (close_ring r) (close_rings rs),
  close_ring-none w u c r.base r.len r.fd (r.base == 0),
  close_rings-none w u c rs,
)

close_rings-opens : (fd : ℕ) (rs : List Ring) → weight (opens fd) (close_rings rs) ≡ 0
close_rings-opens fd rs = close_rings-none (opens fd) (λ b l. refl) (λ f. refl) rs

close_rings-maps : (base : ℕ) (rs : List Ring) → weight (maps base) (close_rings rs) ≡ 0
close_rings-maps base rs = close_rings-none (maps base) (λ b l. refl) (λ f. refl) rs

module _ (k : PerfNumbers) (pid page_size : ℕ) where
  then_rings-Holds :
      (cpu pages : ℕ) (d base : Result ℕ ℕ) (rest : Opened)
      → ((b : ℕ) → base ≡ ok b → b ≢ 0)
      → Holds rest
      → Holds (then_rings (open_and_map_one k pid page_size cpu pages d base) rest)
  unfolding then_rings open_and_map_one close_rings
  then_rings-Holds cpu pages (err errno) base rest n h = record {
    opened_once = λ f. refl;
    mapped_once = λ a. refl;
    none_closed = λ f. refl;
    none_unmapped = λ a. refl;
  }
  then_rings-Holds cpu pages (ok fd) (err errno) rest n h = record {
    opened_once = λ f. omega arith;
    mapped_once = λ a. refl;
    none_closed = λ f. refl;
    none_unmapped = λ a. refl;
  }
  then_rings-Holds cpu pages (ok fd) (ok base) rest n h =
      let e = close_ring-of fd base (u64 ((1 + pages) * page_size)) (n base refl) in
      record {
        opened_once = λ f. rw (e) (omega (arith, Holds.opened_once h f));
        mapped_once = λ a. rw (e) (omega (arith, Holds.mapped_once h a));
        none_closed = λ f. omega (arith, Holds.none_closed h f);
        none_unmapped = λ a. omega (arith, Holds.none_unmapped h a);
      }

  open_rings-Holds :
      (nproc pages : ℕ) (answers : ℕ → Answer)
      → NonNull answers
      → (rounds i : ℕ) → Holds (open_rings k pid page_size nproc pages answers rounds i)
  unfolding open_rings close_rings
  open_rings-Holds nproc pages answers n zero i = record {
    opened_once = λ f. refl;
    mapped_once = λ a. refl;
    none_closed = λ f. refl;
    none_unmapped = λ a. refl;
  }
  open_rings-Holds nproc pages answers n (suc rounds) i =
      then_rings-Holds (i % nproc) pages (answers i).descriptor (answers i).base
        (open_rings k pid page_size nproc pages answers rounds (i + 1)) (n i)
        (open_rings-Holds nproc pages answers n rounds (i + 1))

  -- In a round over a size, on a kernel that maps nothing at the null pointer, each mapping is taken away as
  -- often as it was made, and each descriptor closed as often as it was opened, but for the one of the
  -- ring that could not be mapped: that one is closed once too little.
  pub run_size_leaks :
      (nproc : ℤ) (pages : ℕ) (answers : ℕ → Answer)
      → NonNull answers
      → ((fd : ℕ)
          → weight (opens fd) (run_size k pid page_size nproc pages answers).0
            ≡ weight (closes fd) (run_size k pid page_size nproc pages answers).0
              + leaked
                  (open_rings k pid page_size (cpus nproc) pages answers (want nproc) 0).fail
                  fd)
        × ((base : ℕ)
            → weight (maps base) (run_size k pid page_size nproc pages answers).0
              ≡ weight (unmaps base) (run_size k pid page_size nproc pages answers).0)
  unfolding run_size
  run_size_leaks nproc pages answers n =
      let o = open_rings k pid page_size (cpus nproc) pages answers (want nproc) 0 in
      let h = open_rings-Holds (cpus nproc) pages answers n (want nproc) 0 in
      (
        λ fd. omega (
          arith,
          weight-append (opens fd) o.calls (close_rings o.rings),
          weight-append (closes fd) o.calls (close_rings o.rings),
          Holds.opened_once h fd,
          Holds.none_closed h fd,
          close_rings-opens fd o.rings,
        ),
        λ base. omega (
          arith,
          weight-append (maps base) o.calls (close_rings o.rings),
          weight-append (unmaps base) o.calls (close_rings o.rings),
          Holds.mapped_once h base,
          Holds.none_unmapped h base,
          close_rings-maps base o.rings,
        ),
      )
