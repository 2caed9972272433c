-- ===== src/Ranking/Insertion.antt =====
-- An insertion sort by a comparator, as an example of std::sort.
use cache_lens.Prelude.{weight, ℕ, ◌+◌, ◌≡◌, refl, Bool, false, List, [], ◌∷◌, if◌then◌else◌, arith}
use cache_lens.Ranking.{NoneBefore, IsOrdered, IsWeakOrder, Sorting}

module _ {A : Type 0} (before : A → A → Bool) where
  put_by : A → List A → List A
  put_by a [] = a ∷ []
  put_by a (x ∷ xs) = if before x a then x ∷ put_by a xs else a ∷ x ∷ xs

  insertion : List A → List A
  insertion [] = []
  insertion (x ∷ xs) = put_by x (insertion xs)

  weight-put_by : (w : A → ℕ) (a : A) (xs : List A) → weight w (put_by a xs) ≡ w a + weight w xs
  unfolding put_by
  weight-put_by w a [] = refl
  weight-put_by w a (x ∷ xs) = ground (arith, weight-put_by w a xs)

  weight-insertion : (w : A → ℕ) (xs : List A) → weight w (insertion xs) ≡ weight w xs
  unfolding insertion
  weight-insertion w [] = refl
  weight-insertion w (x ∷ xs) =
      ground (arith, weight-put_by w x (insertion xs), weight-insertion w xs)

  NoneBefore-put_by :
      (x a : A) (xs : List A)
      → before a x ≡ false
      → NoneBefore before x xs
      → NoneBefore before x (put_by a xs)
  unfolding put_by
  NoneBefore-put_by x a [] h n = (h, tt)
  NoneBefore-put_by x a (y ∷ ys) h n = ground (arith, NoneBefore-put_by x a ys)

  NoneBefore-trans :
      (w : IsWeakOrder before) (a x : A) (xs : List A)
      → before x a ≡ false
      → NoneBefore before x xs
      → NoneBefore before a xs
  NoneBefore-trans w a x [] h n = tt
  NoneBefore-trans w a x (y ∷ ys) h n =
      (w.before_cotrans a x y h n.0, NoneBefore-trans w a x ys h n.1)

  put_by-IsOrdered :
      (w : IsWeakOrder before) (a : A) (xs : List A)
      → IsOrdered before xs
      → IsOrdered before (put_by a xs)
  unfolding put_by
  put_by-IsOrdered w a [] o = (tt, tt)
  put_by-IsOrdered w a (x ∷ xs) o = ground (
    arith,
    put_by-IsOrdered w a xs o.1,
    NoneBefore-put_by x a xs,
    w.before_asym x a,
    NoneBefore-trans w a x xs,
  )

  insertion-IsOrdered : (w : IsWeakOrder before) (xs : List A) → IsOrdered before (insertion xs)
  unfolding insertion
  insertion-IsOrdered w [] = tt
  insertion-IsOrdered w (x ∷ xs) = put_by-IsOrdered w x (insertion xs) (insertion-IsOrdered w xs)

pub insertion_sorting : Sorting
insertion_sorting = record {
  sort_by = λ before. insertion before;
  sort_by-weight = λ before w xs. weight-insertion before w xs;
  sort_by-IsOrdered = λ before xs o. insertion-IsOrdered before o xs;
}
