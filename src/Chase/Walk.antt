-- ===== src/Chase/Walk.antt =====
-- Walks along the shuffled list: what they add up, and what they leave.
use cache_lens.Prelude.{
  ℕ, zero, suc, ◌+◌, ◌*◌, ◌≤◌, ◌<◌, ◌≡◌, ◌⊎◌, refl, sym, ◌∙◌, ap, inl, inr, Option, none, some,
  List, [], ◌∷◌, ◌==◌, ==-ne, lt→ltb, le→leb, Bool-cases, All-map, weight, length, arith,
}
use cache_lens.Chase.{
  Node, Heap, store, allocate, link, first_of_order, build_shuffled_list, traverse, traversals,
  delete_all, chase,
}
use cache_lens.Chase.Links.{
  count_up, IsShuffle, NoneOf, Distinct, fresh, Linked, weight-NoneOf, at_once, shuffle-Distinct,
  shuffle-below, length-shuffle, allocate_lem, store_other, link-LinksTo,
}

abbrev pub total : List ℕ → ℕ
total order = weight (λ p. p) order

traverse_lem :
    (order : List ℕ) (fuel : ℕ) (h : Heap) (sum : ℕ)
    → Linked h order
    → length order ≤ fuel
    → traverse fuel h (first_of_order order) sum ≡ some (sum + total order)
unfolding traverse first_of_order
traverse_lem [] zero h sum l enough = ap some (omega arith)
traverse_lem [] (suc fuel) h sum l enough = ap some (omega arith)
traverse_lem (p ∷ order) zero h sum l enough = absurd (omega arith)
traverse_lem (p ∷ order) (suc fuel) h sum l enough =
    rw (l.0, traverse)
      (traverse_lem order fuel h (sum + p) l.1 (omega arith) ∙ ap some (omega arith))

traversals_lem :
    (rounds : ℕ) (order : List ℕ) (fuel : ℕ) (h : Heap) (sum : ℕ)
    → Linked h order
    → length order ≤ fuel
    → traversals rounds fuel h (first_of_order order) sum ≡ some (sum + rounds * total order)
unfolding traversals
traversals_lem zero order fuel h sum l enough = ap some (omega arith)
traversals_lem (suc rounds) order fuel h sum l enough =
    rw (traverse_lem order fuel h 0 l enough, traversals)
      (traversals_lem rounds order fuel h (sum + (0 + total order)) l enough
        ∙ ap some (omega arith))

Linked-store :
    (order : List ℕ) (h : Heap) (p : ℕ) (v : Option Node)
    → NoneOf p order
    → Linked h order
    → Linked (store h p v) order
Linked-store [] h p v a l = tt
Linked-store (q ∷ order) h p v a l =
    (store_other h p q v a.0 ∙ l.0, Linked-store order h p v a.1 l.1)

-- Deleting frees the nodes of the list, and no others.
abbrev Frees : List ℕ → Heap → Option Heap → Type 0
Frees order h o =
    (h' : Heap) × (o ≡ some h') × ((q : ℕ) → (h' q ≡ none) ⊎ (NoneOf q order × (h' q ≡ h q)))

delete_all-Frees :
    (order : List ℕ) (fuel : ℕ) (h : Heap)
    → Distinct order
    → Linked h order
    → length order ≤ fuel
    → Frees order h (delete_all fuel h (first_of_order order))
unfolding delete_all first_of_order
delete_all-Frees [] zero h d l enough = (h, refl, λ q. inr (tt, refl))
delete_all-Frees [] (suc fuel) h d l enough = (h, refl, λ q. inr (tt, refl))
delete_all-Frees (p ∷ order) zero h d l enough = absurd (omega arith)
delete_all-Frees (p ∷ order) (suc fuel) h d l enough =
    let (h', e, frees) =
      delete_all-Frees order fuel (store h p none) d.1 (Linked-store order h p none d.0 l.1)
        (omega arith) in
    (h', rw (l.0, delete_all) e, λ q. freed h' q (frees q))
  where
    freed :
        (h' : Heap) (q : ℕ)
        → (h' q ≡ none) ⊎ (NoneOf q order × (h' q ≡ store h p none q))
        → (h' q ≡ none) ⊎ (NoneOf q (p ∷ order) × (h' q ≡ h q))
    freed h' q (inl e) = inl e
    freed h' q (inr (a, e)) = elim (Bool-cases (q == p)) [
      | inl same ↦ inl (e ∙ rw same)
      | inr other ↦
          let ne = ==-ne q p other in inr (((λ f. ne (sym f)), a), e ∙ store_other h p q none ne)
    ]

total-count_up :
    (rounds first : ℕ) → total (count_up rounds first) * 2 + rounds ≡ rounds * (rounds + 2 * first)
total-count_up zero first = omega arith
total-count_up (suc rounds) first = omega (arith, total-count_up rounds (first + 1))

chase_runs :
    (n : ℕ) (order : List ℕ) (h1 h2 : Heap) (t : ℕ)
    → link order (allocate n 0 (λ _. none)) ≡ some h1
    → traversals 5 n h1 (first_of_order order) 0 ≡ some t
    → delete_all n h1 (first_of_order order) ≡ some h2
    → chase n order ≡ some (t, h2)
unfolding chase build_shuffled_list
chase_runs n order h1 h2 t linked added deleted =
    rw (linked, added, deleted, chase, build_shuffled_list)

-- A run of pointer_chase.cpp on the order that std::shuffle has left of 0, 1, …, n - 1: no pointer to
-- no node is followed and no walk is longer than the list, the sum is five times that of the numbers
-- below n, whatever the order, and at the end every node has been deleted, each once.
pub chase_sums :
    (n : ℕ) (order : List ℕ)
    → IsShuffle n order
    → (t : ℕ) × (h' : Heap) × (chase n order ≡ some (t, h'))
      × (t * 2 + 5 * n ≡ 5 * (n * n))
      × ((q : ℕ) → h' q ≡ none)
chase_sums n order shuffled =
    let h : Heap = allocate n 0 (λ _. none) in
    let distinct = shuffle-Distinct n order shuffled in
    let enough : length order ≤ n = omega (arith, length-shuffle n order shuffled) in
    let (h1, linked, chain, frame) = link-LinksTo order h distinct (
      All-map (λ p. p < n) (λ p. h p ≡ fresh p) order
        (λ p below.
          allocate_lem n 0 (λ _. none) p
          ∙ rw (le→leb 0 p (omega arith), lt→ltb p (0 + n) (omega arith)) refl)
        (shuffle-below n order shuffled)) in
    let (h2, deleted, frees) = delete_all-Frees order n h1 distinct chain enough in
    (
      0 + 5 * total order,
      h2,
      chase_runs n order h1 h2 (0 + 5 * total order) linked
          (traversals_lem 5 order n h1 0 chain enough) deleted,
      omega (arith, shuffled (λ p. p), total-count_up n 0),
      λ q. gone h1 h2 q frame (frees q),
    )
  where
    gone :
        (h1 h2 : Heap) (q : ℕ)
        → ((q : ℕ) → NoneOf q order → h1 q ≡ allocate n 0 (λ _. none) q)
        → (h2 q ≡ none) ⊎ (NoneOf q order × (h2 q ≡ h1 q))
        → h2 q ≡ none
    gone h1 h2 q frame (inl e) = e
    gone h1 h2 q frame (inr (a, e)) =
        e
        ∙ frame q a
        ∙ allocate_lem n 0 (λ _. none) q
        ∙ ground (arith, at_once n order shuffled q, weight-NoneOf q order a)
