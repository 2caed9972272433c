-- ===== src/Mpmc/Apart.antt =====
-- No position is taken twice, by producers or by consumers, however they race for it.
use cache_lens.Prelude.{
  ℕ, suc, ◌+◌, ◌^◌, ◌≤◌, ◌<◌, ◌≡◌, ◌≢◌, refl, sym, subst, ◌∙◌, ap, Option, none, some, arith,
}
use cache_lens.Prelude.Words.{u64}
use cache_lens.Mpmc.{
  Push, Pop, State, Work, start, update, Step, begin, load, find_free, look_again, claim, lose,
  write_item, publish, begin_pop, load_pop, find_ready, look_again_pop, claim_pop, lose_pop,
  read_item, free, Run, here, next, queue_init,
}
use cache_lens.Mpmc.Claims.{Distinct, Distinct-kept, Distinct-taken}

-- The position that a thread has taken and not yet given on.
abbrev pub taken : Push → Option ℕ
taken (Push.writing pos) = some pos
taken (Push.publishing pos) = some pos
taken _ = none

abbrev pub taken_pop : Pop → Option ℕ
taken_pop (Pop.reading pos) = some pos
taken_pop (Pop.freeing pos value) = some pos
taken_pop _ = none

abbrev AllTaken : (ℕ → Push) → ℕ → Type 0
AllTaken push bound = Distinct (λ t. taken (push t)) bound

abbrev AllTakenPop : (ℕ → Pop) → ℕ → Type 0
AllTakenPop pop bound = Distinct (λ t. taken_pop (pop t)) bound

record Inv (n : ℕ) (s : State) : Type 0 where
  enqueue_small : s.queue.enqueue_pos ≤ n
  dequeue_small : s.queue.dequeue_pos ≤ n
  pushes : AllTaken s.push s.queue.enqueue_pos
  pops : AllTakenPop s.pop s.queue.dequeue_pos

-- A step that leaves both positions and the consumers alone, or both and the producers.
module _ {n : ℕ} {s : State} (inv : Inv n s) where
  push_moves :
      (t : ℕ) (x : Push)
      → ((p : ℕ) → taken x ≡ some p → taken (s.push t) ≡ some p)
      → AllTaken (update s.push t x) s.queue.enqueue_pos
  push_moves t x same = Distinct-kept taken s.push t x s.queue.enqueue_pos same inv.pushes

  pop_moves :
      (t : ℕ) (x : Pop)
      → ((p : ℕ) → taken_pop x ≡ some p → taken_pop (s.pop t) ≡ some p)
      → AllTakenPop (update s.pop t x) s.queue.dequeue_pos
  pop_moves t x same = Distinct-kept taken_pop s.pop t x s.queue.dequeue_pos same inv.pops

  push_Inv :
      (s' : State)
      → s'.queue.enqueue_pos ≡ s.queue.enqueue_pos
      → s'.queue.dequeue_pos ≡ s.queue.dequeue_pos
      → s'.pop ≡ s.pop
      → AllTaken s'.push s.queue.enqueue_pos
      → Inv (suc n) s'
  push_Inv s' e d p a = record {
    enqueue_small = omega (arith, e, inv.enqueue_small);
    dequeue_small = omega (arith, d, inv.dequeue_small);
    pushes = subst (AllTaken s'.push) (sym e) a;
    pops =
        subst (λ f. AllTakenPop f s'.queue.dequeue_pos) (sym p)
          (subst (AllTakenPop s.pop) (sym d) inv.pops);
  }

  pop_Inv :
      (s' : State)
      → s'.queue.enqueue_pos ≡ s.queue.enqueue_pos
      → s'.queue.dequeue_pos ≡ s.queue.dequeue_pos
      → s'.push ≡ s.push
      → AllTakenPop s'.pop s.queue.dequeue_pos
      → Inv (suc n) s'
  pop_Inv s' e d p a = record {
    enqueue_small = omega (arith, e, inv.enqueue_small);
    dequeue_small = omega (arith, d, inv.dequeue_small);
    pushes =
        subst (λ f. AllTaken f s'.queue.enqueue_pos) (sym p)
          (subst (AllTaken s.push) (sym e) inv.pushes);
    pops = subst (AllTakenPop s'.pop) (sym d) a;
  }

-- Which threads are looked at, the position that one of them has taken, and the position in the queue
-- that they race for.
pub data Side : Type 0 where
  pushing popping : Side

abbrev pub taken_by : State → Side → ℕ → Option ℕ
taken_by s pushing t = taken (s.push t)
taken_by s popping t = taken_pop (s.pop t)

abbrev pub next_pos : State → Side → ℕ
next_pos s pushing = s.queue.enqueue_pos
next_pos s popping = s.queue.dequeue_pos

not_taken : {A : Type 0} (p : ℕ) → none ≡ some p → A
not_taken p e = absurd (ground arith)

Step-Inv : (w : Work) (n : ℕ) {s t : State} → suc n < 2 ^ 64 → Inv n s → Step w s t → Inv (suc n) t
Step-Inv w n small inv (begin {t} i e m) =
    push_Inv inv _ refl refl refl (push_moves inv t Push.loading (λ p h. not_taken p h))
Step-Inv w n small inv (load {t} e) =
    push_Inv inv _ refl refl refl (push_moves inv t (Push.looking _) (λ p h. not_taken p h))
Step-Inv w n small inv (find_free {t} {pos} e q) =
    push_Inv inv _ refl refl refl (push_moves inv t (Push.claiming pos) (λ p h. not_taken p h))
Step-Inv w n small inv (look_again {t} e q) =
    push_Inv inv _ refl refl refl (push_moves inv t Push.loading (λ p h. not_taken p h))
Step-Inv w n small inv (lose {t} e) =
    push_Inv inv _ refl refl refl (push_moves inv t (Push.looking _) (λ p h. not_taken p h))
Step-Inv w n small inv (write_item {t} {pos} e) =
    push_Inv inv _ refl refl refl (push_moves inv t (Push.publishing pos) (λ p h. ap taken e ∙ h))
Step-Inv w n small inv (publish {t} e) =
    push_Inv inv _ refl refl refl (push_moves inv t Push.idle (λ p h. not_taken p h))
Step-Inv w n {s} small inv (claim {t} {pos} e at) =
    let bound : s.queue.enqueue_pos + 1 ≡ u64 (pos + 1) =
      omega (arith, Inv.enqueue_small inv, at) in
    record {
      enqueue_small = omega (arith, Inv.enqueue_small inv, at);
      dequeue_small = omega (arith, Inv.dequeue_small inv);
      pushes = subst (AllTaken (update s.push t (Push.writing pos))) bound (
          Distinct-taken taken s.push t (Push.writing pos) s.queue.enqueue_pos (ap some (sym at))
            (Inv.pushes inv));
      pops = Inv.pops inv;
    }
Step-Inv w n small inv (begin_pop {t} i e m) =
    pop_Inv inv _ refl refl refl (pop_moves inv t Pop.loading (λ p h. not_taken p h))
Step-Inv w n small inv (load_pop {t} e) =
    pop_Inv inv _ refl refl refl (pop_moves inv t (Pop.looking _) (λ p h. not_taken p h))
Step-Inv w n small inv (find_ready {t} {pos} e q) =
    pop_Inv inv _ refl refl refl (pop_moves inv t (Pop.claiming pos) (λ p h. not_taken p h))
Step-Inv w n small inv (look_again_pop {t} e q) =
    pop_Inv inv _ refl refl refl (pop_moves inv t Pop.loading (λ p h. not_taken p h))
Step-Inv w n small inv (lose_pop {t} e) =
    pop_Inv inv _ refl refl refl (pop_moves inv t (Pop.looking _) (λ p h. not_taken p h))
Step-Inv w n {s} small inv (read_item {t} {pos} e) =
    pop_Inv inv _ refl refl refl (pop_moves inv t (Pop.freeing pos _) (λ p h. ap taken_pop e ∙ h))
Step-Inv w n small inv (free {t} e) =
    pop_Inv inv _ refl refl refl (pop_moves inv t Pop.idle (λ p h. not_taken p h))
Step-Inv w n {s} small inv (claim_pop {t} {pos} e at) =
    let bound : s.queue.dequeue_pos + 1 ≡ u64 (pos + 1) =
      omega (arith, Inv.dequeue_small inv, at) in
    record {
      enqueue_small = omega (arith, Inv.enqueue_small inv);
      dequeue_small = omega (arith, Inv.dequeue_small inv, at);
      pushes = Inv.pushes inv;
      pops = subst (AllTakenPop (update s.pop t (Pop.reading pos))) bound (
          Distinct-taken taken_pop s.pop t (Pop.reading pos) s.queue.dequeue_pos (ap some (sym at))
            (Inv.pops inv));
    }

Run-Inv : (w : Work) (n : ℕ) (s : State) → n < 2 ^ 64 → Run w n s → Inv n s
unfolding start queue_init
Run-Inv w _ _ small here = record {
  enqueue_small = omega arith;
  dequeue_small = omega arith;
  pushes = (λ t p h. not_taken p h, λ t u p h k. not_taken p h);
  pops = (λ t p h. not_taken p h, λ t u p h k. not_taken p h);
}
Run-Inv w _ _ small (next {n} {s} r step) = Step-Inv w n small (Run-Inv w n s (omega arith) r) step

Distinct-of_Inv :
    (n : ℕ) (s : State) (side : Side) → Inv n s → Distinct (taken_by s side) (next_pos s side)
Distinct-of_Inv n s pushing inv = Inv.pushes inv
Distinct-of_Inv n s popping inv = Inv.pops inv

-- In every state that fewer than 2 ^ 64 accesses lead to, two producers that have taken a position, and
-- write or publish it, have taken two positions, both below `enqueue_pos`; and so have two consumers
-- that read or free, both below `dequeue_pos`: however many threads race for a position, and whichever
-- exchanges fail, no position goes to two of them.
pub taken_once :
    (w : Work) (n : ℕ) (s : State) (side : Side) (t u p q : ℕ)
    → n < 2 ^ 64
    → Run w n s
    → t ≢ u
    → taken_by s side t ≡ some p
    → taken_by s side u ≡ some q
    → (p ≢ q) × (p < next_pos s side) × (q < next_pos s side)
taken_once w n s side t u p q small r other h k =
    let d = Distinct-of_Inv n s side (Run-Inv w n s small r) in
    (λ same. other (d.1 t u p h (k ∙ ap some (sym same))), d.0 t p h, d.0 u q k)
