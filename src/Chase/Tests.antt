-- ===== src/Chase/Tests.antt =====
-- A list of three nodes.
use cache_lens.Prelude.{ℕ, ◌+◌, ◌*◌, ◌≡◌, some, none, [], ◌∷◌, arith}
use cache_lens.Chase.{Heap, chase}
use cache_lens.Chase.Walk.{chase_sums}

chase_sums_example :
    (t : ℕ) × (h' : Heap) × (chase 3 (2 ∷ 0 ∷ 1 ∷ []) ≡ some (t, h'))
    × (t * 2 + 5 * 3 ≡ 5 * (3 * 3))
    × ((q : ℕ) → h' q ≡ none)
chase_sums_example = chase_sums 3 (2 ∷ 0 ∷ 1 ∷ []) (λ w. omega arith)
