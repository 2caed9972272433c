-- ===== src/Drain/Tests.antt =====
-- A ring in which a sample runs over the end, and the theorems on `drain` at it.
use cache_lens.Prelude.{ℕ, ◌≡◌, refl, List, [], ◌∷◌, ◌++◌, arith, take, drop, ok, err}
use cache_lens.Perf.{throttled, no_records}
use cache_lens.Drain.{Drained, read_bytes, copy_wrapped, drain}
use cache_lens.Drain.Linux.{linux, label, hit, sampled, dropped, slowed}
use cache_lens.Drain.Records.{stream, counted}
use cache_lens.Drain.Refine.{drain_calm, drain_throttled}
use cache_lens.Drain.Safe.{IsSound, drain-IsSound}

-- The bytes of the records at the positions 48 to 103 of a ring of 64 bytes.
abbrev laid : List ℕ → List ℕ
laid s = drop 16 s ++ (0 ∷ 0 ∷ 0 ∷ 0 ∷ 0 ∷ 0 ∷ 0 ∷ 0 ∷ take 16 s)

abbrev calm_ring : List ℕ
calm_ring = laid (stream linux (sampled ∷ dropped ∷ []))

abbrev slow_ring : List ℕ
slow_ring = laid (stream linux (sampled ∷ slowed ∷ []))

abbrev before : Drained
before = record { tail = 48; samples = []; hist = no_records }

copy_past_end : copy_wrapped (1 ∷ 2 ∷ 3 ∷ 4 ∷ []) 4 3 2 ≡ ok (4 ∷ 1 ∷ [])
unfolding copy_wrapped read_bytes
copy_past_end = refl

drain_calm_example :
    drain linux label calm_ring 64 104 before
    ≡ ok (
      record { tail = 104; samples = hit ∷ []; hist = counted (sampled ∷ dropped ∷ []) no_records },
      104,
    )
drain_calm_example =
    drain_calm linux label calm_ring 64 refl (omega arith) (sampled ∷ dropped ∷ []) 104 before
      (omega arith) (tt, (tt, tt)) (omega arith) refl (omega arith) refl (omega arith)

drain_throttled_example : drain linux label slow_ring 64 104 before ≡ err (throttled label)
drain_throttled_example =
    drain_throttled linux label slow_ring 64 refl (omega arith) (sampled ∷ []) slowed [] 104 before
      (omega arith) (tt, tt) (λ b. b) refl (omega arith) refl (omega arith)

drain-IsSound_example : IsSound label 104 before (drain linux label slow_ring 64 104 before)
drain-IsSound_example =
    drain-IsSound linux label slow_ring 64 refl (omega arith) (omega arith) 104 before (omega arith)
      (omega arith) (λ raw. omega arith)
