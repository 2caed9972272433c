-- ===== src/Mpmc/Tests.antt =====
-- Two producers race for the first position.
use cache_lens.Prelude.{ℕ, ◌<◌, ◌≢◌, refl, arith}
use cache_lens.Mpmc.{
  State, Work, start, queue_init, init_from, begin, load, find_free, claim, lose, Run, here, next,
}
use cache_lens.Mpmc.Apart.{pushing, taken_once}

abbrev two_and_two : Work
two_and_two = record { total = 4; producers = 2; consumers = 2 }

-- Both see the first position free; the second producer gets it, and the first one the next position.
abbrev raced : (s : State) × Run two_and_two 10 s
unfolding start queue_init init_from
raced =
    let both_loaded =
      next
        (next
          (next (next here (begin {t = 0} (omega arith) refl (omega arith)))
            (begin {t = 1} (omega arith) refl (omega arith)))
          (load {t = 0} refl))
        (load {t = 1} refl) in
    let both_found =
      next (next both_loaded (find_free {t = 0} refl refl)) (find_free {t = 1} refl refl) in
    let second_won = next (next both_found (claim {t = 1} refl refl)) (lose {t = 0} refl) in
    (_, next (next second_won (find_free {t = 0} refl refl)) (claim {t = 0} refl refl))

abbrev first_pos : ℕ
first_pos = 0

abbrev second_pos : ℕ
second_pos = 1

taken_once_example :
    (second_pos ≢ first_pos)
    × (second_pos < (raced.0).queue.enqueue_pos)
    × (first_pos < (raced.0).queue.enqueue_pos)
unfolding raced
taken_once_example =
    taken_once two_and_two 10 raced.0 pushing 0 1 1 0 (omega arith) raced.1 (omega arith) refl refl
