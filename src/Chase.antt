-- ===== src/Chase.antt =====
-- benchmarks/pointer_chase.cpp: a linked list in a shuffled order, its traversal and its end.
--
-- A pointer is the number of its allocation, and the heap a function of pointers: none where nothing is
-- allocated, or no longer. The order that std::shuffle leaves is the argument `order`. A `long` is a
-- natural number here: the sums stay far below 2 ^ 63.
pub mod Links
pub mod Walk
mod Tests
use cache_lens.Prelude.{
  ℕ, zero, suc, ◌+◌, Option, none, some, List, [], ◌∷◌, ◌++◌, ◌==◌, if◌then◌else◌,
}

pub record Node : Type 0 where
  pub value : ℕ
  pub next_node : Option ℕ

abbrev pub Heap : Type 0
Heap = ℕ → Option Node

abbrev pub store : Heap → ℕ → Option Node → Heap
store h p v q = if q == p then v else h q

-- `new Node{i, nullptr, {}}` for each i, with the rounds left.
pub allocate : ℕ → ℕ → Heap → Heap
allocate zero i h = h
allocate (suc rounds) i h =
    allocate rounds (i + 1) (store h i (some (record { value = i; next_node = none })))

-- `nodes[p]->next = …`; none where the node is not allocated.
pub set_next : Heap → ℕ → Option ℕ → Option Heap
set_next h p next = elim (h p) [
  | none ↦ none
  | some node ↦ some (store h p (some (record node { next_node = next })))
]

-- The loop that links the nodes, and the null pointer at the end.
pub link : List ℕ → Heap → Option Heap
link [] h = some h
link (p ∷ []) h = set_next h p none
link (p ∷ q ∷ order) h = elim (set_next h p (some q)) [
  | none ↦ none
  | some h' ↦ link (q ∷ order) h'
]

pub first_of_order : List ℕ → Option ℕ
first_of_order [] = none
first_of_order (p ∷ order) = some p

-- `build_shuffled_list`: the head, and the heap.
pub build_shuffled_list : ℕ → List ℕ → Option (Option ℕ × Heap)
build_shuffled_list num_nodes order = elim (link order (allocate num_nodes 0 (λ _. none))) [
  | none ↦ none
  | some h ↦ some (first_of_order order, h)
]

-- `traverse` with its `sum`: none for a pointer to no node, and where the fuel runs out.
pub traverse : ℕ → Heap → Option ℕ → ℕ → Option ℕ
traverse fuel h none sum = some sum
traverse zero h (some cur) sum = none
traverse (suc fuel) h (some cur) sum = elim (h cur) [
  | none ↦ none
  | some node ↦ traverse fuel h node.next_node (sum + node.value)
]

-- The loop of `main` over the traversals.
pub traversals : ℕ → ℕ → Heap → Option ℕ → ℕ → Option ℕ
traversals zero fuel h head total = some total
traversals (suc rounds) fuel h head total = elim (traverse fuel h head 0) [
  | none ↦ none
  | some sum ↦ traversals rounds fuel h head (total + sum)
]

-- The last loop of `main`: the node is read before it is deleted.
pub delete_all : ℕ → Heap → Option ℕ → Option Heap
delete_all fuel h none = some h
delete_all zero h (some cur) = none
delete_all (suc fuel) h (some cur) = elim (h cur) [
  | none ↦ none
  | some node ↦ delete_all fuel (store h cur none) node.next_node
]

abbrev pub iterations : ℕ
iterations = 5

-- `main`: the sum that it prints, and the heap that it leaves. The longest walk takes a round for each
-- node.
pub chase : ℕ → List ℕ → Option (ℕ × Heap)
chase num_nodes order = elim (build_shuffled_list num_nodes order) [
  | none ↦ none
  | some (head, h) ↦ elim (traversals iterations num_nodes h head 0) [
    | none ↦ none
    | some total ↦ elim (delete_all num_nodes h head) [ none ↦ none | some h' ↦ some (total, h') ]
  ]
]
