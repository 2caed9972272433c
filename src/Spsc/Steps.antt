-- ===== src/Spsc/Steps.antt =====
-- Each access of the producer or the consumer keeps the invariant.
use cache_lens.Prelude.{ℕ, ◌+◌, ◌^◌, ◌<◌, sym, ap}
use cache_lens.Spsc.{
  Push, Pop, State, Step, load_tail, spin, find_free, write_item, publish, store_tail, load_head,
  spin_pop, find_ready, read_item, free, store_head, Reach, here, next,
}
use cache_lens.Spsc.Invariant.{Inv, extra_push, extra_pop, start-Inv}
use cache_lens.Spsc.Moves.{push_at, pop_at, push_moves, pop_moves, room_for, ready_for}
use cache_lens.Spsc.Stores.{
  write_item-Inv, publish-Inv, store_tail-Inv, free-Inv, store_head-Inv, read_item-Inv,
}

pub Step-Inv : {total : ℕ} {s t : State} → Inv total s → Step total s t → Inv total t
Step-Inv {s = s} inv (load_tail e room) =
    push_moves inv (Push.waiting s.queue.tail) (sym (ap extra_push e)) (inv.tail_sent, room)
Step-Inv inv (spin e full) = inv
Step-Inv inv (find_free {pos} e free_slot) =
    push_moves inv (Push.writing pos) (sym (ap extra_push e))
      ((push_at inv e).0, (push_at inv e).1, room_for inv pos e free_slot)
Step-Inv inv (write_item {pos} e) = write_item-Inv inv pos e
Step-Inv inv (publish {pos} e) = publish-Inv inv pos e
Step-Inv inv (store_tail {pos} e) = store_tail-Inv inv pos e
Step-Inv {s = s} inv (load_head e more) =
    pop_moves inv (Pop.waiting s.queue.head) (sym (ap extra_pop e)) (inv.head_received, more)
Step-Inv inv (spin_pop e empty) = inv
Step-Inv inv (find_ready {pos} e full) =
    pop_moves inv (Pop.reading pos) (sym (ap extra_pop e))
      ((pop_at inv e).0, ready_for inv pos e full)
Step-Inv inv (read_item {pos} e) = read_item-Inv inv pos e
Step-Inv inv (free {pos} {value} e) = free-Inv inv pos value e
Step-Inv inv (store_head {pos} {value} e) = store_head-Inv inv pos value e

pub Reach-Inv : {total : ℕ} {s : State} → total + 1024 < 2 ^ 64 → Reach total s → Inv total s
Reach-Inv {total} small here = start-Inv total small
Reach-Inv small (next r step) = Step-Inv (Reach-Inv small r) step
