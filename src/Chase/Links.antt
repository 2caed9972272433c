-- ===== src/Chase/Links.antt =====
-- The list that the links make, in the shuffled order.
use cache_lens.Prelude.{
  ℕ, zero, suc, ◌+◌, ◌≤◌, ◌<◌, ◌≡◌, ◌≢◌, refl, sym, ◌∙◌, Option, none, some, List, [], ◌∷◌, ◌&&◌,
  leb, ltb, ◌==◌, ==_iff, ==-false_of_ne, if◌then◌else◌, All, All-map, All-of_weight, weight,
  length, arith,
}
use cache_lens.Chase.{Node, Heap, store, allocate, set_next, link, first_of_order}

-- std::iota from `first` on
abbrev pub count_up : ℕ → ℕ → List ℕ
count_up zero first = []
count_up (suc rounds) first = first ∷ count_up rounds (first + 1)

-- What std::shuffle leaves of 0, 1, …, n - 1: each number as often as before.
abbrev pub IsShuffle : ℕ → List ℕ → Type 0
IsShuffle n order = (w : ℕ → ℕ) → weight w order ≡ weight w (count_up n 0)

abbrev pub is_at : ℕ → ℕ → ℕ
is_at p q = if q == p then 1 else 0

abbrev pub NoneOf : ℕ → List ℕ → Type 0
NoneOf p order = All (λ q. q ≢ p) order

abbrev pub Distinct : List ℕ → Type 0
Distinct [] = Unit
Distinct (p ∷ order) = NoneOf p order × Distinct order

abbrev pub fresh : ℕ → Option Node
fresh p = some (record { value = p; next_node = none })

-- Each node of the order holds its number and points to the next.
abbrev pub Linked : Heap → List ℕ → Type 0
Linked h [] = Unit
Linked h (p ∷ order) =
    (h p ≡ some (record { value = p; next_node = first_of_order order })) × Linked h order

pub NoneOf-of_weight : (p : ℕ) (order : List ℕ) → weight (is_at p) order ≡ 0 → NoneOf p order
NoneOf-of_weight p order h =
    All-map (λ q. is_at p q ≡ 0) (λ q. q ≢ p) order (λ q e. ground arith)
      (All-of_weight (is_at p) order h)

pub weight-NoneOf : (p : ℕ) (order : List ℕ) → NoneOf p order → weight (is_at p) order ≡ 0
weight-NoneOf p [] a = refl
weight-NoneOf p (q ∷ order) a = ground (arith, weight-NoneOf p order a.1, a.0)

Distinct-of_weight : (order : List ℕ) → ((p : ℕ) → weight (is_at p) order ≤ 1) → Distinct order
Distinct-of_weight [] h = tt
Distinct-of_weight (p ∷ order) h = (
  NoneOf-of_weight p order (omega (arith, h p, itself)),
  Distinct-of_weight order (λ q. omega (arith, h q)),
)
  where
    itself : is_at p p ≡ 1
    itself = ground arith

weight-count_up :
    (p rounds first : ℕ)
    → weight (is_at p) (count_up rounds first)
      ≡ (if leb first p && ltb p (first + rounds) then 1 else 0)
weight-count_up p zero first = ground arith
weight-count_up p (suc rounds) first = ground (arith, weight-count_up p rounds (first + 1))

outside-count_up :
    (n rounds first : ℕ)
    → first + rounds ≤ n
    → weight (λ p. if ltb p n then 0 else 1) (count_up rounds first) ≡ 0
outside-count_up n zero first h = refl
outside-count_up n (suc rounds) first h = ground (arith, outside-count_up n rounds (first + 1))

length_of_weight : (xs : List ℕ) → weight (λ p. 1) xs ≡ length xs
length_of_weight [] = refl
length_of_weight (x ∷ xs) = omega (arith, length_of_weight xs)

length-count_up : (rounds first : ℕ) → length (count_up rounds first) ≡ rounds
length-count_up zero first = refl
length-count_up (suc rounds) first = omega (arith, length-count_up rounds (first + 1))

module _ (n : ℕ) (order : List ℕ) (shuffled : IsShuffle n order) where
  pub at_once : (p : ℕ) → weight (is_at p) order ≡ (if ltb p n then 1 else 0)
  at_once p = shuffled (is_at p) ∙ weight-count_up p n 0 ∙ ground arith

  pub shuffle-Distinct : Distinct order
  shuffle-Distinct = Distinct-of_weight order (λ p. ground (arith, at_once p))

  pub shuffle-below : All (λ p. p < n) order
  shuffle-below =
      All-map (λ p. (if ltb p n then 0 else 1) ≡ 0) (λ p. p < n) order (λ p e. ground arith)
        (All-of_weight (λ p. if ltb p n then 0 else 1) order
          (shuffled (λ p. if ltb p n then 0 else 1) ∙ outside-count_up n n 0 (omega arith)))

  pub length-shuffle : length order ≡ n
  length-shuffle =
      sym (length_of_weight order)
      ∙ shuffled (λ p. 1)
      ∙ length_of_weight (count_up n 0)
      ∙ length-count_up n 0

pub allocate_lem :
    (rounds i : ℕ) (h : Heap) (p : ℕ)
    → allocate rounds i h p ≡ (if leb i p && ltb p (i + rounds) then fresh p else h p)
unfolding allocate
allocate_lem zero i h p = ground arith
allocate_lem (suc rounds) i h p =
    ground (arith, allocate_lem rounds (i + 1) (store h i (fresh i)) p)

pub store_self : (h : Heap) (p : ℕ) (v : Option Node) → store h p v p ≡ v
store_self h p v = rw ((==_iff p p).1 refl)

pub store_other : (h : Heap) (p q : ℕ) (v : Option Node) → q ≢ p → store h p v q ≡ h q
store_other h p q v ne = rw (==-false_of_ne q p ne)

All-store :
    (h : Heap) (p : ℕ) (v : Option Node) (order : List ℕ)
    → NoneOf p order
    → All (λ r. h r ≡ fresh r) order
    → All (λ r. store h p v r ≡ fresh r) order
All-store h p v [] a f = tt
All-store h p v (q ∷ order) a f = (store_other h p q v a.0 ∙ f.0, All-store h p v order a.1 f.1)

set_next_lem :
    (h : Heap) (p : ℕ) (next : Option ℕ)
    → h p ≡ fresh p
    → set_next h p next ≡ some (store h p (some (record { value = p; next_node = next })))
unfolding set_next
set_next_lem h p next e = rw (e, set_next)

-- What linking makes of a heap.
abbrev pub LinksTo : List ℕ → Heap → Option Heap → Type 0
LinksTo order h o =
    (h' : Heap) × (o ≡ some h') × Linked h' order × ((q : ℕ) → NoneOf q order → h' q ≡ h q)

NoneOf-flip : (p : ℕ) (q : ℕ) → p ≢ q → q ≢ p
NoneOf-flip p q h e = h (sym e)

pub link-LinksTo :
    (order : List ℕ) (h : Heap)
    → Distinct order
    → All (λ p. h p ≡ fresh p) order
    → LinksTo order h (link order h)
unfolding link first_of_order
link-LinksTo [] h d f = (h, refl, tt, λ q a. refl)
link-LinksTo (p ∷ []) h d f = (
  store h p (fresh p),
  set_next_lem h p none f.0,
  (store_self h p (fresh p), tt),
  λ q a. store_other h p q (fresh p) (NoneOf-flip p q a.0),
)
link-LinksTo (p ∷ q ∷ order) h d f =
    let node : Option Node = some (record { value = p; next_node = some q }) in
    let (h', e, l, frame) =
      link-LinksTo (q ∷ order) (store h p node) d.1 (All-store h p node (q ∷ order) d.0 f.1) in
    (
      h',
      rw (set_next_lem h p (some q) f.0, link) e,
      (frame p d.0 ∙ store_self h p node, l),
      λ r a. frame r a.1 ∙ store_other h p r node (NoneOf-flip p r a.0),
    )
