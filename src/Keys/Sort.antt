-- ===== src/Keys/Sort.antt =====
-- std::sort by the keys' own order, and std::unique with erase.
use Prim.Native.Nat.{lt, eq, gt}
use cache_lens.Prelude.{◌≡◌, ◌∙◌, refl, Bool, true, false, List, [], ◌∷◌, arith}
use cache_lens.Keys.Order.{KeyOrder}
use cache_lens.Keys.SortedMap.{IsSorted, Above-trans}

module _ {K : Type 0} (o : KeyOrder K) where
  unfoldable pub put : K → List K → List K
  put k [] = k ∷ []
  put k (j ∷ js) = elim (o.cmp k j) [ gt ↦ j ∷ put k js | _ ↦ k ∷ j ∷ js ]

  -- Keys that compare equal are equal, so that there is one sorted list and any sort gives it.
  unfoldable pub sort : List K → List K
  sort [] = []
  sort (k ∷ ks) = put k (sort ks)

  -- The rest of a run behind `k`: of neighbours that are equal only the first is kept.
  unfoldable pub unique_after : K → List K → List K
  unique_after k [] = []
  unique_after k (j ∷ js) = elim (o.cmp k j) [ eq ↦ unique_after k js | _ ↦ j ∷ unique_after j js ]

  unfoldable pub unique : List K → List K
  unique [] = []
  unique (k ∷ ks) = k ∷ unique_after k ks

  -- Whether a key is in the list.
  unfoldable pub has : K → List K → Bool
  has k [] = false
  has k (j ∷ js) = elim (o.cmp k j) [ eq ↦ true | _ ↦ has k js ]

  -- No key of the list comes before `k`.
  abbrev pub NotBelow : K → List K → Type 0
  NotBelow k [] = Unit
  NotBelow k (j ∷ js) = (o.cmp j k ≡ lt → ⊥) × NotBelow k js

  abbrev pub InOrder : List K → Type 0
  InOrder [] = Unit
  InOrder (k ∷ ks) = NotBelow k ks × InOrder ks

  not_lt_trans : (a b c : K) → (o.cmp b a ≡ lt → ⊥) → (o.cmp c b ≡ lt → ⊥) → o.cmp c a ≡ lt → ⊥
  not_lt_trans a b c h k l =
      ground (arith, h, k, o.cmp_trans b c a, o.eq_of_cmp b c, o.cmp_unflip b c)

  NotBelow-put :
      (i k : K) (ks : List K) → (o.cmp k i ≡ lt → ⊥) → NotBelow i ks → NotBelow i (put k ks)
  unfolding put
  NotBelow-put i k [] h n = (h, tt)
  NotBelow-put i k (j ∷ js) h n = ground (arith, NotBelow-put i k js)

  NotBelow-trans : (i j : K) (js : List K) → (o.cmp j i ≡ lt → ⊥) → NotBelow j js → NotBelow i js
  NotBelow-trans i j [] h n = tt
  NotBelow-trans i j (k ∷ ks) h n = (not_lt_trans i j k h n.0, NotBelow-trans i j ks h n.1)

  put-InOrder : (k : K) (ks : List K) → InOrder ks → InOrder (put k ks)
  unfolding put
  put-InOrder k [] s = (tt, tt)
  put-InOrder k (j ∷ js) s = ground (
    arith,
    NotBelow-put j k js,
    put-InOrder k js,
    NotBelow-trans k j js,
    o.cmp_flip k j,
    o.eq_of_cmp k j,
    o.cmp_self j,
  )

  pub sort-InOrder : (ks : List K) → InOrder (sort ks)
  unfolding sort
  sort-InOrder [] = tt
  sort-InOrder (k ∷ ks) = put-InOrder k (sort ks) (sort-InOrder ks)

  has-put : (i k : K) (ks : List K) → has i (put k ks) ≡ has i (k ∷ ks)
  unfolding has put
  has-put i k [] = refl
  has-put i k (j ∷ js) = ground (arith, has-put i k js)

  has-sort : (i : K) (ks : List K) → has i (sort ks) ≡ has i ks
  unfolding has sort
  has-sort i [] = refl
  has-sort i (k ∷ ks) = ground (arith, has-put i k (sort ks), has-sort i ks)

  has-unique_after : (i k : K) (ks : List K) → has i (k ∷ unique_after k ks) ≡ has i (k ∷ ks)
  unfolding has unique_after
  has-unique_after i k [] = refl
  has-unique_after i k (j ∷ js) =
      ground (arith, has-unique_after i k js, has-unique_after i j js, o.eq_of_cmp k j)

  unique_after-IsSorted :
      (k : K) (ks : List K) → InOrder (k ∷ ks) → IsSorted o (k ∷ unique_after k ks)
  unfolding unique_after
  unique_after-IsSorted k [] s = (tt, tt)
  unique_after-IsSorted k (j ∷ js) s = ground (
    arith,
    unique_after-IsSorted k js (s.0.1, s.1.1),
    unique_after-IsSorted j js s.1,
    Above-trans o k j (unique_after j js),
    o.cmp_unflip k j,
    s.0.0,
  )

  -- Sorting and dropping the repetitions leaves each key once, in order, and loses none.
  pub unique-sort :
      (ks : List K)
      → IsSorted o (unique (sort ks)) × ((i : K) → has i (unique (sort ks)) ≡ has i ks)
  unfolding unique has
  unique-sort ks = (sorted (sort ks) (sort-InOrder ks), λ i. kept i (sort ks) ∙ has-sort i ks)
    where
      sorted : (l : List K) → InOrder l → IsSorted o (unique l)
      sorted [] s = tt
      sorted (k ∷ l) s = unique_after-IsSorted k l s

      kept : (i : K) (l : List K) → has i (unique l) ≡ has i l
      kept i [] = refl
      kept i (k ∷ l) = has-unique_after i k l
