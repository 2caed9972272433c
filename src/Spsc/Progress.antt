-- ===== src/Spsc/Progress.antt =====
-- The producer and the consumer never block each other for good.
use cache_lens.Prelude.{
  ℕ, zero, suc, ◌+◌, ◌*◌, ◌%◌, ◌^◌, ◌≤◌, ◌<◌, ◌≡◌, refl, sym, ap, ◌∙◌, arith, ◌⊎◌, inl, inr,
  Bool-cases, ltb, ltb→lt, ltb-false,
}
use cache_lens.Prelude.Words.{u64}
use cache_lens.Prelude.Bits.{bit_and-mask}
use cache_lens.Spsc.Right.{checksum_right}
use cache_lens.Spsc.{
  main_status, next, slot, Push, Pop, State, Step, load_tail, find_free, write_item, publish,
  store_tail, load_head, find_ready, read_item, free, store_head, Reach,
}
use cache_lens.Spsc.Invariant.{Inv, PushKnows, PopKnows, extra_push, extra_pop, published, freed}
use cache_lens.Spsc.Moves.{push_at, pop_at}
use cache_lens.Spsc.Steps.{Reach-Inv, Step-Inv}

-- The accesses done so far, ten for each value, rounds of waiting not counted.
abbrev stage_push : Push → ℕ
stage_push Push.idle = 0
stage_push (Push.waiting pos) = 1
stage_push (Push.writing pos) = 2
stage_push (Push.publishing pos) = 3
stage_push (Push.storing_tail pos) = 4

abbrev stage_pop : Pop → ℕ
stage_pop Pop.idle = 0
stage_pop (Pop.waiting pos) = 1
stage_pop (Pop.reading pos) = 2
stage_pop (Pop.freeing pos value) = 3
stage_pop (Pop.storing_head pos value) = 4

abbrev done : State → ℕ
done s = 5 * s.sent + stage_push s.push + (5 * s.received + stage_pop s.pop)

-- Some thread can do an access that counts.
abbrev Advance : ℕ → State → Type 0
Advance total s = (t : State) × Step total s t × (done t ≡ suc (done s))

-- The producer can go on, or it is through, or it waits for room.
push_advances :
    (total : ℕ) (s : State) (p : Push)
    → Inv total s
    → s.push ≡ p
    → Advance total s ⊎ ((extra_push s.push ≡ 0) × ((s.sent ≡ total) ⊎ (freed s + 1024 ≤ s.sent)))
push_advances total s Push.idle inv e =
    let stage : stage_push s.push ≡ 0 = ap stage_push e in
    elim (Bool-cases (ltb s.sent total)) [
      | inl more ↦ inl (
        record s { push = Push.waiting s.queue.tail },
        load_tail e (ltb→lt s.sent total more),
        omega arith,
      )
      | inr through ↦
          inr (ap extra_push e, inl (omega (arith, ltb-false s.sent total through, inv.within)))
    ]
push_advances total s (Push.waiting pos) inv e =
    let stage : stage_push s.push ≡ 1 = ap stage_push e in
    let here : pos ≡ s.sent = (push_at inv e).0 in
    let count : extra_push s.push ≡ 0 = ap extra_push e in
    elim (Bool-cases (ltb s.sent (freed s + 1024))) [
      | inl room ↦
          let at : slot pos ≡ s.sent % 1024 = omega (arith, bit_and-mask pos) in
          let free_slot : s.queue.sequence (slot pos) ≡ pos =
            ap s.queue.sequence at
            ∙ inv.empty s.sent (omega arith) (ltb→lt s.sent (freed s + 1024) room)
            ∙ sym here in
          inl (record s { push = Push.writing pos }, find_free e free_slot, omega arith)
      | inr none_free ↦ inr (count, inr (ltb-false s.sent (freed s + 1024) none_free))
    ]
push_advances total s (Push.writing pos) inv e =
    let stage : stage_push s.push ≡ 2 = ap stage_push e in inl (_, write_item e, omega arith)
push_advances total s (Push.publishing pos) inv e =
    let stage : stage_push s.push ≡ 3 = ap stage_push e in inl (_, publish e, omega arith)
push_advances total s (Push.storing_tail pos) inv e =
    let stage : stage_push s.push ≡ 4 = ap stage_push e in
    let more : s.sent < total = (push_at inv e).1 in inl (_, store_tail e, omega (arith, inv.small))

-- The consumer can go on, or it is through, or it waits for a value.
pop_advances :
    (total : ℕ) (s : State) (p : Pop)
    → Inv total s
    → s.pop ≡ p
    → Advance total s
      ⊎ ((extra_pop s.pop ≡ 0)
          × ((s.received ≡ total) ⊎ ((published s ≤ s.received) × (s.received < total))))
pop_advances total s Pop.idle inv e =
    let stage : stage_pop s.pop ≡ 0 = ap stage_pop e in
    let count : extra_pop s.pop ≡ 0 = ap extra_pop e in
    elim (Bool-cases (ltb s.received total)) [
      | inl more ↦ inl (
        record s { pop = Pop.waiting s.queue.head },
        load_head e (ltb→lt s.received total more),
        omega arith,
      )
      | inr through ↦
          inr (
            count,
            inl (omega (arith, ltb-false s.received total through, inv.within, inv.ordered)),
          )
    ]
pop_advances total s (Pop.waiting pos) inv e =
    let stage : stage_pop s.pop ≡ 1 = ap stage_pop e in
    let here : pos ≡ s.received = (pop_at inv e).0 in
    let more : s.received < total = (pop_at inv e).1 in
    let count : extra_pop s.pop ≡ 0 = ap extra_pop e in
    elim (Bool-cases (ltb s.received (published s))) [
      | inl out ↦
          let at : slot pos ≡ s.received % 1024 = omega (arith, bit_and-mask pos) in
          let full_slot : s.queue.sequence (slot pos) ≡ u64 (pos + 1) =
            ap s.queue.sequence at
            ∙ inv.full s.received (omega arith) (ltb→lt s.received (published s) out)
            ∙ omega (arith, inv.small) in
          inl (record s { pop = Pop.reading pos }, find_ready e full_slot, omega arith)
      | inr none_out ↦ inr (count, inr (ltb-false s.received (published s) none_out, more))
    ]
pop_advances total s (Pop.reading pos) inv e =
    let stage : stage_pop s.pop ≡ 2 = ap stage_pop e in inl (_, read_item e, omega arith)
pop_advances total s (Pop.freeing pos value) inv e =
    let stage : stage_pop s.pop ≡ 3 = ap stage_pop e in inl (_, free e, omega arith)
pop_advances total s (Pop.storing_head pos value) inv e =
    let stage : stage_pop s.pop ≡ 4 = ap stage_pop e in
    let more : s.received < total = (pop_at inv e).2 in
    inl (_, store_head e, omega (arith, inv.small))

advances :
    (total : ℕ) (s : State)
    → Inv total s
    → ((s.received ≡ total) × (s.sent ≡ total)) ⊎ Advance total s
advances total s inv = elim (push_advances total s s.push inv refl) [
  | inl step ↦ inr step
  | inr (pushed, producer) ↦ elim (pop_advances total s s.pop inv refl) [
    | inl step ↦ inr step
    | inr (popped, consumer) ↦
        inl (ground (arith, pushed, popped, producer, consumer, inv.within, inv.ordered))
  ]
]

push_stages :
    (total sent gone item : ℕ) (p : Push)
    → PushKnows total sent gone item p
    → (stage_push p ≡ 0) ⊎ ((stage_push p ≤ 4) × (sent < total))
push_stages total sent gone item Push.idle k = inl refl
push_stages total sent gone item (Push.waiting pos) (a, b) = inr (omega arith, b)
push_stages total sent gone item (Push.writing pos) (a, b, c) = inr (omega arith, b)
push_stages total sent gone item (Push.publishing pos) (a, b, c, d) = inr (omega arith, b)
push_stages total sent gone item (Push.storing_tail pos) (a, b) = inr (omega arith, b)

pop_stages :
    (total received out : ℕ) (p : Pop)
    → out ≤ total
    → PopKnows total received out p
    → (stage_pop p ≡ 0) ⊎ ((stage_pop p ≤ 4) × (received < total))
pop_stages total received out Pop.idle le k = inl refl
pop_stages total received out (Pop.waiting pos) le (a, b) = inr (omega arith, b)
pop_stages total received out (Pop.reading pos) le (a, b) = inr (omega arith, omega arith)
pop_stages total received out (Pop.freeing pos value) le (a, b, c) = inr (omega arith, omega arith)
pop_stages total received out (Pop.storing_head pos value) le (a, b, c) = inr (omega arith, c)

done-bounded : (total : ℕ) (s : State) → Inv total s → done s ≤ 10 * total
done-bounded total s inv = omega (
  arith,
  inv.within,
  inv.ordered,
  push_stages total s.sent (freed s) (s.queue.item (s.sent % 1024)) s.push inv.push_knows,
  pop_stages total s.received (published s) s.pop inv.within inv.pop_knows,
)

-- `n` accesses, one after the other, lead from the one state to the other.
pub data Leads (total : ℕ) : ℕ → State → State → Type 0 where
  stay : {s : State} → Leads total 0 s s
  go : {n : ℕ} {s t u : State} → Step total s t → Leads total n t u → Leads total (suc n) s u

abbrev pub Finishes : ℕ → ℕ → State → Type 0
Finishes total fuel s =
    (n : ℕ) × (t : State) × Leads total n s t × (n ≤ fuel) × (t.sent ≡ total) × (t.received ≡ total)

Finishes-within :
    (total : ℕ) (s : State) (fuel : ℕ)
    → Inv total s
    → 10 * total ≤ done s + fuel
    → Finishes total fuel s
Finishes-within total s zero inv enough = elim (advances total s inv) [
  | inl all ↦ (0, s, stay, omega arith, all.1, all.0)
  | inr (t, step, more) ↦ absurd (omega (arith, done-bounded total t (Step-Inv inv step)))
]
Finishes-within total s (suc fuel) inv enough = elim (advances total s inv) [
  | inl all ↦ (0, s, stay, omega arith, all.1, all.0)
  | inr (t, step, more) ↦
      let (n, u, leads, few, sent, received) =
        Finishes-within total t fuel (Step-Inv inv step) (omega arith) in
      (suc n, u, go step leads, omega arith, sent, received)
]

Leads-Reach : {total n : ℕ} {s t : State} → Reach total s → Leads total n s t → Reach total t
Leads-Reach r stay = r
Leads-Reach r (go step leads) = Leads-Reach (next r step) leads

-- From every reachable state some further accesses, at most `10 * total`, lead to a state where all
-- `total` values, fewer than 2 ^ 32, are sent and received, and there `main` returns 0: the two
-- threads never wait for each other for good.
pub can_finish :
    (total : ℕ) (s : State)
    → total < 2 ^ 32
    → Reach total s
    → (n : ℕ) × (t : State) × Leads total n s t
      × (n ≤ 10 * total)
      × (t.sent ≡ total)
      × (t.received ≡ total)
      × (main_status total t ≡ 0)
can_finish total s small r =
    let (n, t, leads, few, sent, received) =
      Finishes-within total s (10 * total) (Reach-Inv (omega arith) r) (omega arith) in
    let right = checksum_right total t small (Leads-Reach r leads) received in
    (n, t, leads, few, sent, received, right.1)
