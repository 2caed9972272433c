-- ===== src/Keys/SortedMap.antt =====
-- std::map as the list of its entries in key order.
use Prim.Native.Nat.{Ordering, lt, eq, gt}
use cache_lens.Prelude.{◌≡◌, refl, Bool, true, false, Option, none, some, List, [], ◌∷◌, arith}
use cache_lens.Keys.Order.{KeyOrder}

abbrev pub is_eq : Ordering → Bool
is_eq eq = true
is_eq _ = false

module _ {K : Type 0} (o : KeyOrder K) where
  -- Every key of the list comes after `k`.
  abbrev pub Above : K → List K → Type 0
  Above k [] = Unit
  Above k (j ∷ js) = (o.cmp k j ≡ lt) × Above k js

  abbrev pub IsSorted : List K → Type 0
  IsSorted [] = Unit
  IsSorted (k ∷ ks) = Above k ks × IsSorted ks

  pub Above-trans : (k j : K) (ks : List K) → o.cmp k j ≡ lt → Above j ks → Above k ks
  Above-trans k j [] h a = tt
  Above-trans k j (i ∷ is) h a = (o.cmp_trans k j i h a.0, Above-trans k j is h a.1)

module _ {K V : Type 0} (o : KeyOrder K) where
  abbrev pub keys : List (K × V) → List K
  keys [] = []
  keys ((k, v) ∷ m) = k ∷ keys m

  unfoldable pub find : K → List (K × V) → Option V
  find k [] = none
  find k ((j, v) ∷ m) = elim (o.cmp k j) [ lt ↦ none | eq ↦ some v | gt ↦ find k m ]

  -- `m[k] = f(…)`, where `f` is handed what `k` had before, if anything.
  unfoldable pub adjust : K → (Option V → V) → List (K × V) → List (K × V)
  adjust k f [] = (k, f none) ∷ []
  adjust k f ((j, v) ∷ m) = elim (o.cmp k j) [
    | lt ↦ (k, f none) ∷ (j, v) ∷ m
    | eq ↦ (j, f (some v)) ∷ m
    | gt ↦ (j, v) ∷ adjust k f m
  ]

  Above-adjust :
      (i k : K) (f : Option V → V) (m : List (K × V))
      → o.cmp i k ≡ lt
      → Above o i (keys m)
      → Above o i (keys (adjust k f m))
  unfolding adjust
  Above-adjust i k f [] h a = (h, tt)
  Above-adjust i k f ((j, v) ∷ m) h a = ground (arith, Above-adjust i k f m)

  pub adjust-IsSorted :
      (k : K) (f : Option V → V) (m : List (K × V))
      → IsSorted o (keys m)
      → IsSorted o (keys (adjust k f m))
  unfolding adjust
  adjust-IsSorted k f [] s = (tt, tt)
  adjust-IsSorted k f ((j, v) ∷ m) s = ground (
    arith,
    adjust-IsSorted k f m,
    Above-adjust j k f m,
    Above-trans o k j (keys m),
    o.cmp_unflip k j,
  )

  -- A key before all others is not in the map.
  pub find-Above : (k : K) (m : List (K × V)) → Above o k (keys m) → find k m ≡ none
  unfolding find
  find-Above k [] a = refl
  find-Above k ((j, v) ∷ m) a = rw (a.0, find)

  pub find-adjust :
      (j k : K) (f : Option V → V) (m : List (K × V))
      → IsSorted o (keys m)
      → find j (adjust k f m) ≡ elim (o.cmp j k) [ eq ↦ some (f (find k m)) | _ ↦ find j m ]
  unfolding find adjust
  find-adjust j k f [] s = ground arith
  find-adjust j k f ((i, v) ∷ m) s = ground (
    arith,
    find-adjust j k f m s.1,
    o.cmp_trans j k i,
    o.cmp_trans j i k,
    o.cmp_unflip k i,
    o.eq_of_cmp k i,
    o.eq_of_cmp j i,
    o.cmp_self i,
  )
