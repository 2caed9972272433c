-- ===== src/Spsc/Moves.antt =====
-- Accesses that move one thread only, and what the waiting loops have seen when they end.
use mathlib.Core.Path.{subst}
use cache_lens.Prelude.{
  Bool-cases, ltb, ltb→lt, ltb-false, ℕ, ◌+◌, ◌%◌, ◌≤◌, ◌<◌, ◌≡◌, sym, ap, ◌∙◌, arith, inl, inr,
}
use cache_lens.Prelude.Words.{u64}
use cache_lens.Prelude.Bits.{bit_and-mask}
use cache_lens.Spsc.{slot, Push, Pop, State}
use cache_lens.Spsc.Invariant.{Inv, PushKnows, PopKnows, extra_push, extra_pop, published, freed}

-- More room, or more that is published, keeps what a thread knows.
PushKnows-later :
    (total sent gone gone' item : ℕ) (p : Push)
    → gone ≤ gone'
    → PushKnows total sent gone item p
    → PushKnows total sent gone' item p
PushKnows-later total sent gone gone' item Push.idle le k = tt
PushKnows-later total sent gone gone' item (Push.waiting pos) le k = k
PushKnows-later total sent gone gone' item (Push.writing pos) le (a, b, c) = (a, b, omega arith)
PushKnows-later total sent gone gone' item (Push.publishing pos) le (a, b, c, d) =
    (a, b, omega arith, d)
PushKnows-later total sent gone gone' item (Push.storing_tail pos) le k = k

PopKnows-later :
    (total received out out' : ℕ) (p : Pop)
    → out ≤ out'
    → PopKnows total received out p
    → PopKnows total received out' p
PopKnows-later total received out out' Pop.idle le k = tt
PopKnows-later total received out out' (Pop.waiting pos) le k = k
PopKnows-later total received out out' (Pop.reading pos) le (a, b) = (a, omega arith)
PopKnows-later total received out out' (Pop.freeing pos value) le (a, b, c) = (a, omega arith, c)
PopKnows-later total received out out' (Pop.storing_head pos value) le k = k

module _ {total : ℕ} {s : State} (inv : Inv total s) where
  pub push_at :
      {p : Push} → s.push ≡ p → PushKnows total s.sent (freed s) (s.queue.item (s.sent % 1024)) p
  push_at e =
      subst (λ p. PushKnows total s.sent (freed s) (s.queue.item (s.sent % 1024)) p) e
        inv.push_knows

  pub pop_at : {p : Pop} → s.pop ≡ p → PopKnows total s.received (published s) p
  pop_at e = subst (λ p. PopKnows total s.received (published s) p) e inv.pop_knows

  pub pop_later : (out : ℕ) → published s ≤ out → PopKnows total s.received out s.pop
  pop_later out le = PopKnows-later total s.received (published s) out s.pop le inv.pop_knows

  pub push_later :
      (gone : ℕ)
      → freed s ≤ gone
      → PushKnows total s.sent gone (s.queue.item (s.sent % 1024)) s.push
  push_later gone le =
      PushKnows-later total s.sent (freed s) gone (s.queue.item (s.sent % 1024)) s.push le
        inv.push_knows

  -- A step that moves the producer only.
  pub push_moves :
      (p : Push)
      → extra_push p ≡ extra_push s.push
      → PushKnows total s.sent (freed s) (s.queue.item (s.sent % 1024)) p
      → Inv total (record s { push = p })
  push_moves p same knows = record {
    small = inv.small;
    tail_sent = inv.tail_sent;
    head_received = inv.head_received;
    push_knows = knows;
    pop_knows = pop_later (s.sent + extra_push p) (omega arith);
    within = omega (arith, inv.within);
    ordered = omega (arith, inv.ordered);
    bounded = omega (arith, inv.bounded);
    full = λ q h k. inv.full q h (omega arith);
    held = λ q h k. inv.held q h (omega arith);
    empty = λ q h k. inv.empty q (omega arith) k;
    summed = inv.summed;
  }

  pub pop_moves :
      (p : Pop)
      → extra_pop p ≡ extra_pop s.pop
      → PopKnows total s.received (published s) p
      → Inv total (record s { pop = p })
  pop_moves p same knows = record {
    small = inv.small;
    tail_sent = inv.tail_sent;
    head_received = inv.head_received;
    push_knows = push_later (s.received + extra_pop p) (omega arith);
    pop_knows = knows;
    within = inv.within;
    ordered = omega (arith, inv.ordered);
    bounded = omega (arith, inv.bounded);
    full = λ q h k. inv.full q (omega arith) k;
    held = λ q h k. inv.held q (omega arith) k;
    empty = λ q h k. inv.empty q h (omega arith);
    summed = inv.summed;
  }

  -- The slot of the position is free only if the consumer has freed it.
  pub room_for :
      (pos : ℕ)
      → s.push ≡ Push.waiting pos
      → s.queue.sequence (slot pos) ≡ pos
      → s.sent < freed s + 1024
  room_for pos e free_slot =
      let count : extra_push s.push ≡ 0 = ap extra_push e in
      let here : pos ≡ s.sent = (push_at e).0 in
      elim (Bool-cases (ltb s.sent (freed s + 1024))) [
        | inl under ↦ ltb→lt s.sent (freed s + 1024) under
        | inr over ↦
            let le : freed s + 1024 ≤ s.sent = ltb-false s.sent (freed s + 1024) over in
            let same : slot pos ≡ freed s % 1024 = omega (arith, bit_and-mask pos, inv.bounded) in
            let seen : s.queue.sequence (freed s % 1024) ≡ pos =
              ap s.queue.sequence (sym same) ∙ free_slot in
            absurd (omega (arith, inv.full (freed s) (omega arith) (omega arith)))
      ]

  -- The slot of the position shows it only if the producer has published it.
  pub ready_for :
      (pos : ℕ)
      → s.pop ≡ Pop.waiting pos
      → s.queue.sequence (slot pos) ≡ u64 (pos + 1)
      → s.received < published s
  ready_for pos e full_slot =
      let count : extra_pop s.pop ≡ 0 = ap extra_pop e in
      let here : pos ≡ s.received = (pop_at e).0 in
      let more : s.received < total = (pop_at e).1 in
      elim (Bool-cases (ltb s.received (published s))) [
        | inl under ↦ ltb→lt s.received (published s) under
        | inr over ↦
            let le : published s ≤ s.received = ltb-false s.received (published s) over in
            let same : slot pos ≡ s.received % 1024 = omega (arith, bit_and-mask pos) in
            let seen : s.queue.sequence (s.received % 1024) ≡ u64 (pos + 1) =
              ap s.queue.sequence (sym same) ∙ full_slot in
            absurd (omega (arith, inv.small, inv.empty s.received le (omega arith)))
      ]
