-- ===== src/Spsc/Tests.antt =====
-- The queue on short runs.
use cache_lens.Prelude.{ℕ, ◌+◌, ◌≤◌, ◌≡◌, ◌≢◌, refl, arith, inr}
use cache_lens.Spsc.{
  main_status, capacity, slot, State, start, load_tail, find_free, write_item, publish, store_tail,
  load_head, find_ready, read_item, free, store_head, Reach, here, next, expected, queue_init,
  init_from,
}
use cache_lens.Spsc.Invariant.{published, freed}
use cache_lens.Spsc.Right.{Holds, fifo, no_race, checksum_right}
use cache_lens.Spsc.Progress.{Leads, can_finish}

-- The producer has pushed one value of two.
abbrev one_sent : (s : State) × Reach 2 s
unfolding start queue_init init_from
one_sent = (
  _,
  next
      (next
        (next (next (next here (load_tail refl (omega arith))) (find_free refl refl))
          (write_item refl))
        (publish refl))
      (store_tail refl),
)

-- The producer is about to publish the second, and the consumer to free the first one's slot.
abbrev both_busy : (s : State) × Reach 2 s
unfolding start queue_init init_from
both_busy =
    let producer =
      next (next (next one_sent.1 (load_tail refl (omega arith))) (find_free refl refl))
        (write_item refl) in
    (
      _,
      next (next (next producer (load_head refl (omega arith))) (find_ready refl refl))
          (read_item refl),
    )

-- One value, sent and received.
abbrev all_received : (s : State) × Reach 1 s
unfolding start queue_init init_from
all_received =
    let producer =
      next
        (next
          (next (next (next here (load_tail refl (omega arith))) (find_free refl refl))
            (write_item refl))
          (publish refl))
        (store_tail refl) in
    let reader =
      next (next (next producer (load_head refl (omega arith))) (find_ready refl refl))
        (read_item refl) in
    (_, next (next reader (free refl)) (store_head refl))

fifo_example :
    Holds (both_busy.0).pop (both_busy.0).received
    × (freed both_busy.0 ≤ published both_busy.0)
    × (published both_busy.0 ≤ freed both_busy.0 + capacity)
fifo_example = fifo 2 both_busy.0 (omega arith) both_busy.1

no_race_example : slot 1 ≢ slot 0
unfolding start queue_init init_from
no_race_example = no_race 2 both_busy.0 1 0 (omega arith) both_busy.1 (inr refl) (inr (0, refl))

checksum_right_example :
    ((all_received.0).checksum ≡ expected 1) × (main_status 1 all_received.0 ≡ 0)
unfolding start queue_init init_from
checksum_right_example = checksum_right 1 all_received.0 (omega arith) all_received.1 refl

can_finish_example :
    (n : ℕ) × (t : State) × Leads 2 n both_busy.0 t
    × (n ≤ 20)
    × (t.sent ≡ 2)
    × (t.received ≡ 2)
    × (main_status 2 t ≡ 0)
can_finish_example = can_finish 2 both_busy.0 (omega arith) both_busy.1
