-- ===== src/Spsc/Stores.antt =====
-- Accesses that change the queue keep the invariant.
use mathlib.Core.Path.{subst}
use Prim.Native.Nat.{bit_and}
use cache_lens.Prelude.{
  Bool-cases, ltb, ltb→lt, ltb-false, ℕ, suc, ◌+◌, ◌%◌, ◌<◌, ◌≡◌, sym, ap, ◌∙◌, arith, inl, inr,
}
use cache_lens.Prelude.Words.{u64}
use cache_lens.Prelude.Bits.{bit_and-mask}
use cache_lens.Spsc.{capacity, slot, update, Push, Pop, State}
use cache_lens.Spsc.Invariant.{Inv, extra_push, extra_pop, published, freed}
use cache_lens.Spsc.Moves.{push_at, pop_at, pop_later, push_later, pop_moves}

module _ {total : ℕ} {s : State} (inv : Inv total s) where
  pub write_item-Inv :
      (pos : ℕ)
      → s.push ≡ Push.writing pos
      → Inv total (record s {
        push = Push.publishing pos;
        queue = record (s.queue) { item = update s.queue.item (slot pos) s.sent };
      })
  write_item-Inv pos e =
      let count : extra_push s.push ≡ 0 = ap extra_push e in
      let here : pos ≡ s.sent = (push_at inv e).0 in
      let room : s.sent < freed s + 1024 = (push_at inv e).2 in
      let at : bit_and pos 1023 ≡ s.sent % 1024 = omega (arith, bit_and-mask pos) in
      record {
        small = inv.small;
        tail_sent = inv.tail_sent;
        head_received = inv.head_received;
        push_knows = (here, (push_at inv e).1, room, ground arith);
        pop_knows = pop_later inv (s.sent + 0) (omega arith);
        within = omega (arith, inv.within);
        ordered = omega (arith, inv.ordered);
        bounded = omega (arith, inv.bounded);
        full = λ q h k. inv.full q h (omega arith);
        held = λ q h k. ground (arith, inv.held q h (omega arith));
        empty = λ q h k. inv.empty q (omega arith) k;
        summed = inv.summed;
      }

  pub publish-Inv :
      (pos : ℕ)
      → s.push ≡ Push.publishing pos
      → Inv total (record s {
        push = Push.storing_tail pos;
        queue = record (s.queue) { sequence = update s.queue.sequence (slot pos) (u64 (pos + 1)) };
      })
  publish-Inv pos e =
      let count : extra_push s.push ≡ 0 = ap extra_push e in
      let here : pos ≡ s.sent = (push_at inv e).0 in
      let more : s.sent < total = (push_at inv e).1 in
      let room : s.sent < freed s + 1024 = (push_at inv e).2 in
      let stored : s.queue.item (s.sent % 1024) ≡ s.sent = (push_at inv e).3 in
      let at : bit_and pos 1023 ≡ s.sent % 1024 = omega (arith, bit_and-mask pos) in
      record {
        small = inv.small;
        tail_sent = inv.tail_sent;
        head_received = inv.head_received;
        push_knows = (here, more);
        pop_knows = pop_later inv (s.sent + 1) (omega arith);
        within = omega arith;
        ordered = omega (arith, inv.ordered);
        bounded = omega arith;
        full = λ q h k. elim (Bool-cases (ltb q s.sent)) [
          | inl old ↦
              ground (arith, inv.full q h (omega (arith, ltb→lt q s.sent old)), ltb→lt q s.sent old)
          | inr new ↦
              let is : q ≡ s.sent = omega (arith, ltb-false q s.sent new) in
              ground (arith, inv.small)
        ];
        held = λ q h k. elim (Bool-cases (ltb q s.sent)) [
          | inl old ↦ inv.held q h (omega (arith, ltb→lt q s.sent old))
          | inr new ↦
              let is : s.sent ≡ q = omega (arith, ltb-false q s.sent new) in
              subst (λ q. s.queue.item (q % 1024) ≡ q) is stored
        ];
        empty = λ q h k. ground (arith, inv.empty q (omega arith) k);
        summed = inv.summed;
      }

  pub store_tail-Inv :
      (pos : ℕ)
      → s.push ≡ Push.storing_tail pos
      → Inv total (record s {
        push = Push.idle;
        sent = u64 (s.sent + 1);
        queue = record (s.queue) { tail = u64 (pos + 1) };
      })
  store_tail-Inv pos e =
      let count : extra_push s.push ≡ 1 = ap extra_push e in
      let here : pos ≡ s.sent = (push_at inv e).0 in
      let more : s.sent < total = (push_at inv e).1 in
      let exact : u64 (s.sent + 1) ≡ s.sent + 1 = omega (arith, inv.small) in
      record {
        small = inv.small;
        tail_sent = omega arith;
        head_received = inv.head_received;
        push_knows = tt;
        pop_knows = pop_later inv (u64 (s.sent + 1) + 0) (omega arith);
        within = omega (arith, inv.within);
        ordered = omega (arith, inv.ordered);
        bounded = omega (arith, inv.bounded);
        full = λ q h k. inv.full q h (omega arith);
        held = λ q h k. inv.held q h (omega arith);
        empty = λ q h k. inv.empty q (omega arith) k;
        summed = inv.summed;
      }

  pub free-Inv :
      (pos value : ℕ)
      → s.pop ≡ Pop.freeing pos value
      → Inv total (record s {
        pop = Pop.storing_head pos value;
        queue = record (s.queue) {
          sequence = update s.queue.sequence (slot pos) (u64 (pos + capacity));
        };
      })
  free-Inv pos value e =
      let count : extra_pop s.pop ≡ 0 = ap extra_pop e in
      let here : pos ≡ s.received = (pop_at inv e).0 in
      let out : s.received < published s = (pop_at inv e).1 in
      let at : bit_and pos 1023 ≡ s.received % 1024 = omega (arith, bit_and-mask pos) in
      let exact : u64 (pos + capacity) ≡ s.received + 1024 = omega (arith, inv.small, inv.within) in
      record {
        small = inv.small;
        tail_sent = inv.tail_sent;
        head_received = inv.head_received;
        push_knows = push_later inv (s.received + 1) (omega arith);
        pop_knows = (here, (pop_at inv e).2, omega (arith, inv.within));
        within = inv.within;
        ordered = omega arith;
        bounded = omega (arith, inv.bounded);
        full = λ q h k. ground (arith, inv.full q (omega arith) k, inv.bounded);
        held = λ q h k. inv.held q (omega arith) k;
        empty = λ q h k. elim (Bool-cases (ltb q (s.received + 1024))) [
          | inl old ↦ ground (
            arith,
            inv.empty q h (omega (arith, ltb→lt q (s.received + 1024) old)),
            ltb→lt q (s.received + 1024) old,
          )
          | inr new ↦
              let is : q ≡ s.received + 1024 = omega (arith, ltb-false q (s.received + 1024) new) in
              ground arith
        ];
        summed = inv.summed;
      }

  pub store_head-Inv :
      (pos value : ℕ)
      → s.pop ≡ Pop.storing_head pos value
      → Inv total (record s {
        pop = Pop.idle;
        received = u64 (s.received + 1);
        checksum = u64 (s.checksum + value);
        queue = record (s.queue) { head = u64 (pos + 1) };
      })
  store_head-Inv pos value e =
      let count : extra_pop s.pop ≡ 1 = ap extra_pop e in
      let here : pos ≡ s.received = (pop_at inv e).0 in
      let is : value ≡ s.received = (pop_at inv e).1 in
      let more : s.received < total = (pop_at inv e).2 in
      let exact : u64 (s.received + 1) ≡ suc s.received = omega (arith, inv.small) in
      record {
        small = inv.small;
        tail_sent = inv.tail_sent;
        head_received = omega arith;
        push_knows = push_later inv (u64 (s.received + 1) + 0) (omega arith);
        pop_knows = tt;
        within = inv.within;
        ordered = omega (arith, inv.ordered);
        bounded = omega (arith, inv.bounded);
        full = λ q h k. inv.full q (omega arith) k;
        held = λ q h k. inv.held q (omega arith) k;
        empty = λ q h k. inv.empty q h (omega arith);
        summed = rw exact (omega (arith, inv.summed));
      }

  pub read_item-Inv :
      (pos : ℕ)
      → s.pop ≡ Pop.reading pos
      → Inv total (record s { pop = Pop.freeing pos (s.queue.item (slot pos)) })
  read_item-Inv pos e =
      let count : extra_pop s.pop ≡ 0 = ap extra_pop e in
      let here : pos ≡ s.received = (pop_at inv e).0 in
      let out : s.received < published s = (pop_at inv e).1 in
      let at : slot pos ≡ s.received % 1024 = omega (arith, bit_and-mask pos) in
      pop_moves inv (Pop.freeing pos (s.queue.item (slot pos))) (sym count)
        (here, out, ap s.queue.item at ∙ inv.held s.received (omega arith) out)
