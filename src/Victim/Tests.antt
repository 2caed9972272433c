-- ===== src/Victim/Tests.antt =====
-- A buffer of four words.
use cache_lens.Prelude.{◌≡◌, true, some, arith}
use cache_lens.Victim.{fill, chase, run_passes, done_at, walk}
use cache_lens.Victim.Walk.{walk_around}

walk_around_example :
    (chase (fill 4 4 0) 3 0 ≡ some 3)
    × (run_passes (fill 4 4 0) 4 2 0 ≡ some 0)
    × (walk 4 true ≡ done_at 0)
walk_around_example = walk_around 4 3 2 (omega arith)
