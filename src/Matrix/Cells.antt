-- ===== src/Matrix/Cells.antt =====
-- Loops that write one cell at a time, looked at cell by cell.
use cache_lens.Prelude.{
  ==-ne, ℕ, zero, suc, ◌+◌, ◌*◌, ◌≤◌, ◌<◌, ◌≡◌, ◌∙◌, inl, inr, ◌&&◌, ltb, ltb→lt, ltb-false, leb,
  ◌==◌, ==_iff, ==-false_of_ne, if◌then◌else◌, Bool-cases, arith,
}
use cache_lens.Matrix.{for_loop, Arithmetic, mat, set_mat}

rows_apart : (n i k : ℕ) → i < k → i * n + n ≤ k * n
rows_apart n i k h = grind arith

-- An index of an n * n array has one row and one column.
row_unique : (n i j k l : ℕ) → j < n → l < n → i * n + j ≡ k * n + l → i ≡ k
row_unique n i j k l hj hl e = elim (Bool-cases (ltb i k)) [
  | inl below ↦ absurd (omega (arith, rows_apart n i k (ltb→lt i k below)))
  | inr not_below ↦ elim (Bool-cases (ltb k i)) [
    | inl above ↦ absurd (omega (arith, rows_apart n k i (ltb→lt k i above)))
    | inr not_above ↦ omega (arith, ltb-false i k not_below, ltb-false k i not_above)
  ]
]

cell_unique :
    (n i j k l : ℕ) → j < n → l < n → ((k * n + l) == (i * n + j)) ≡ ((k == i) && (l == j))
cell_unique n i j k l hj hl = elim (Bool-cases (k == i)) [
  | inl row ↦ let e = (==_iff k i).0 row in rw (row, e) (ground arith)
  | inr rows ↦ rw (
    rows,
    ==-false_of_ne (k * n + l) (i * n + j) (λ e. ==-ne k i rows (row_unique n k l i j hl hj e)),
  )
]

module _ (a : Arithmetic) (n : ℕ) where
  open a use {Number}

  pub mat-set_mat :
      (m : ℕ → Number) (i j k l : ℕ) (v : Number)
      → j < n
      → l < n
      → mat a n (set_mat a n m i j v) k l ≡ (if (k == i) && (l == j) then v else mat a n m k l)
  unfolding mat set_mat
  mat-set_mat m i j k l v hj hl = rw (cell_unique n i j k l hj hl)

  -- A loop over the columns of row `i`, in which round `j` writes `f j` of what stands there.
  pub row_loop :
      (i : ℕ) (f : ℕ → Number → Number) (body : ℕ → (ℕ → Number) → ℕ → Number)
      → ((j : ℕ) (m : ℕ → Number) → body j m ≡ set_mat a n m i j (f j (mat a n m i j)))
      → (rounds first : ℕ) (m : ℕ → Number) (k l : ℕ) → first + rounds ≤ n
      → l < n
      → mat a n (for_loop rounds first body m) k l ≡ (
          if (k == i) && (leb first l && ltb l (first + rounds))
          then f l (mat a n m k l)
          else mat a n m k l)
  unfolding for_loop
  row_loop i f body writes zero first m k l fits hl = ground arith
  row_loop i f body writes (suc rounds) first m k l fits hl =
      row_loop i f body writes rounds (first + 1) (body first m) k l (omega arith) hl
      ∙ rw
          (writes first m, mat-set_mat m i first k l (f first (mat a n m i first)) (omega arith) hl)
          (ground arith)
