-- ===== src/Latency/Ranks.antt =====
-- The rank of each percentile among the latencies.
use Prim.Native.Nat.{lt, gt}
use cache_lens.Prelude.{
  ℕ, zero, suc, ◌+◌, ◌-◌, ◌^◌, ◌≤◌, ◌<◌, ◌≡◌, refl, sym, ◌∙◌, ap, subst, Option, none, some, List,
  [], ◌∷◌, length, weight, arith,
}
use cache_lens.Keys.Order.{ℤ, compare_int, int_order, compare_int_self, compare_int_unflip}
use cache_lens.Keys.Sort.{put, sort, NotBelow, InOrder, sort-InOrder}
use cache_lens.Doubles.{Doubles}
use cache_lens.Latency.{element_at, back, index_of, compute_percentiles}

abbrev pub is_less : ℤ → ℤ → ℕ
is_less v x = elim (compare_int x v) [ lt ↦ 1 | _ ↦ 0 ]

abbrev pub is_more : ℤ → ℤ → ℕ
is_more v x = elim (compare_int x v) [ gt ↦ 1 | _ ↦ 0 ]

-- A latency of which at most `i` are smaller, and at most those behind `i` larger.
abbrev pub HasRank : List ℤ → ℕ → Option ℤ → Type 0
HasRank xs i none = ⊥
HasRank xs i (some v) = (weight (is_less v) xs ≤ i) × (weight (is_more v) xs + i < length xs)

weight-put : (w : ℤ → ℕ) (x : ℤ) (xs : List ℤ) → weight w (put int_order x xs) ≡ w x + weight w xs
unfolding put
weight-put w x [] = refl
weight-put w x (y ∷ ys) = ground (arith, weight-put w x ys)

weight-sort : (w : ℤ → ℕ) (xs : List ℤ) → weight w (sort int_order xs) ≡ weight w xs
unfolding sort
weight-sort w [] = refl
weight-sort w (x ∷ xs) = weight-put w x (sort int_order xs) ∙ ap (λ n. w x + n) (weight-sort w xs)

length_of_weight : (xs : List ℤ) → weight (λ x. 1) xs ≡ length xs
length_of_weight [] = refl
length_of_weight (x ∷ xs) = omega (arith, length_of_weight xs)

length-sort : (xs : List ℤ) → length (sort int_order xs) ≡ length xs
length-sort xs =
    sym (length_of_weight (sort int_order xs)) ∙ weight-sort (λ x. 1) xs ∙ length_of_weight xs

none_less : (v : ℤ) (xs : List ℤ) → NotBelow int_order v xs → weight (is_less v) xs ≡ 0
none_less v [] h = refl
none_less v (x ∷ xs) h = ground (arith, none_less v xs h.1, h.0)

weight_at_most : (v : ℤ) (xs : List ℤ) → weight (is_more v) xs ≤ length xs
weight_at_most v [] = omega arith
weight_at_most v (x ∷ xs) = ground (arith, weight_at_most v xs)

-- What a later element of an ordered list is, seen from its head.
not_above_head :
    (x v : ℤ) (xs : List ℤ) (i : ℕ)
    → NotBelow int_order x xs
    → element_at xs i ≡ some v
    → is_more v x ≡ 0
unfolding element_at
not_above_head x v [] i h e = absurd (ground arith)
not_above_head x v (y ∷ ys) zero h e =
    let same : y ≡ v = ap (λ o. elim o [ none ↦ y | some z ↦ z ]) e in
    subst (λ z. is_more z x ≡ 0) same (ground (arith, h.0, compare_int_unflip x y))
not_above_head x v (y ∷ ys) (suc i) h e = not_above_head x v ys i h.1 e

element-HasRank :
    (xs : List ℤ) (i : ℕ) → InOrder int_order xs → i < length xs → HasRank xs i (element_at xs i)
unfolding element_at
element-HasRank [] i ordered inside = absurd (omega arith)
element-HasRank (x ∷ xs) zero ordered inside = (
  ground (arith, compare_int_self x, none_less x xs ordered.0),
  ground (arith, compare_int_self x, weight_at_most x xs),
)
element-HasRank (x ∷ xs) (suc i) ordered inside =
    behind (element_at xs i) refl (element-HasRank xs i ordered.1 (omega arith))
  where
    behind : (o : Option ℤ) → element_at xs i ≡ o → HasRank xs i o → HasRank (x ∷ xs) (suc i) o
    behind none e h = h
    behind (some v) e h =
        (ground (arith, h.0), omega (arith, h.1, not_above_head x v xs i ordered.0 e))

back_lem : (xs : List ℤ) → back xs ≡ element_at xs (length xs - 1)
unfolding back element_at
back_lem [] = refl
back_lem (x ∷ []) = refl
back_lem (x ∷ y ∷ xs) =
    let last : suc (length (y ∷ xs) - 1) ≡ length (x ∷ y ∷ xs) - 1 = omega arith in
    back_lem (y ∷ xs) ∙ ap (element_at (x ∷ y ∷ xs)) last

-- An element of the sorted list, as one of the list.
sorted-HasRank :
    (xs : List ℤ) (i : ℕ) → i < length xs → HasRank xs i (element_at (sort int_order xs) i)
sorted-HasRank xs i inside = before (element_at (sort int_order xs) i) (
    element-HasRank (sort int_order xs) i (sort-InOrder int_order xs)
      (omega (arith, length-sort xs)))
  where
    before : (o : Option ℤ) → HasRank (sort int_order xs) i o → HasRank xs i o
    before none h = h
    before (some v) h = (
      omega (arith, h.0, weight-sort (is_less v) xs),
      omega (arith, h.1, weight-sort (is_more v) xs, length-sort xs),
    )

-- The percentiles of at least one latency and fewer than 2 ^ 64: each is there, and has the rank of its
-- index, which is below the number of latencies: at most so many latencies are smaller, and at most
-- those that are left larger. The maximum has the last rank, so that no latency is larger.
pub percentiles_rank :
    (d : Doubles) (xs : List ℤ)
    → 0 < length xs
    → length xs < 2 ^ 64
    → let p = compute_percentiles d xs in
      HasRank xs (index_of d (d.decimal 50 2) (length xs)) p.p50
      × HasRank xs (index_of d (d.decimal 99 2) (length xs)) p.p99
      × HasRank xs (index_of d (d.decimal 999 3) (length xs)) p.p999
      × HasRank xs (index_of d (d.decimal 9999 4) (length xs)) p.p9999
      × HasRank xs (length xs - 1) p.max_latency
unfolding compute_percentiles index_of
percentiles_rank d xs filled small =
    (at (d.decimal 50 2), at (d.decimal 99 2), at (d.decimal 999 3), at (d.decimal 9999 4), last)
  where
    at :
        (q : d.Double)
        → HasRank xs
            (index_of d q (length xs))
            (element_at (sort int_order xs) (index_of d q (length (sort int_order xs))))
    at q = rw (length-sort xs) (sorted-HasRank xs (index_of d q (length xs)) (below q))
      where
        below : (q : d.Double) → index_of d q (length xs) < length xs
        below q = omega arith

    last : HasRank xs (length xs - 1) (back (sort int_order xs))
    last =
        rw (back_lem (sort int_order xs), length-sort xs)
          (sorted-HasRank xs (length xs - 1) (omega arith))
