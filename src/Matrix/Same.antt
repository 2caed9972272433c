-- ===== src/Matrix/Same.antt =====
-- The two products are the same, to the last bit.
use cache_lens.Prelude.{
  ℕ, zero, suc, ◌+◌, ◌<◌, ◌≡◌, refl, ◌∙◌, ◌&&◌, ltb, leb, ◌==◌, if◌then◌else◌, lt→ltb, le→leb,
  arith,
}
use cache_lens.Matrix.{
  for_loop, Arithmetic, mat, set_mat, zeroed, dot, multiply_bad, add_row, multiply_good,
}
use cache_lens.Matrix.Cells.{row_loop}

module _ (a : Arithmetic) (n : ℕ) (A B : ℕ → a.Number) where
  open a use {Number, zero_number, add, mul}

  -- A loop over the rows, in which round `i` turns what stands at `i, l` into `g i l` of it and leaves
  -- the other rows alone.
  rows_loop :
      (g : ℕ → ℕ → Number → Number) (body : ℕ → (ℕ → Number) → ℕ → Number)
      → ((i : ℕ) (m : ℕ → Number) (k l : ℕ)
          → l < n
          → mat a n (body i m) k l ≡ (if k == i then g i l (mat a n m k l) else mat a n m k l))
      → (rounds first : ℕ) (m : ℕ → Number) (k l : ℕ) → l < n
      → mat a n (for_loop rounds first body m) k l
        ≡ (if leb first k && ltb k (first + rounds) then g k l (mat a n m k l) else mat a n m k l)
  unfolding for_loop
  rows_loop g body turns zero first m k l hl = ground arith
  rows_loop g body turns (suc rounds) first m k l hl =
      rows_loop g body turns rounds (first + 1) (body first m) k l hl
      ∙ rw (turns first m k l hl) (ground arith)

  -- One row of matrix_bad.cpp.
  bad_row :
      (i : ℕ) (m : ℕ → Number) (k l : ℕ)
      → l < n
      → mat a n (for_loop n 0 (λ j C. set_mat a n C i j (dot a n A B n 0 i j zero_number)) m) k l
        ≡ (if k == i then dot a n A B n 0 i l zero_number else mat a n m k l)
  bad_row i m k l hl =
      row_loop a n i (λ j _. dot a n A B n 0 i j zero_number) _ (λ j C. refl) n 0 m k l
        (omega arith) hl
      ∙ rw (lt→ltb l (0 + n) (omega arith), le→leb 0 l (omega arith)) (ground arith)

  -- One round of the loop over k of matrix_good.cpp.
  add_row_lem :
      (i r : ℕ) (m : ℕ → Number) (k l : ℕ)
      → l < n
      → mat a n (add_row a n A B i r m) k l ≡ (
          if k == i
          then add (mat a n m k l) (mul (mat a n A i r) (mat a n B r l))
          else mat a n m k l)
  unfolding add_row
  add_row_lem i r m k l hl =
      row_loop a n i (λ j v. add v (mul (mat a n A i r) (mat a n B r j))) _ (λ j C. refl) n 0 m k l
        (omega arith) hl
      ∙ rw (lt→ltb l (0 + n) (omega arith), le→leb 0 l (omega arith)) (ground arith)

  -- All of that loop adds up as the loop over k of matrix_bad.cpp does.
  good_row :
      (i : ℕ) (rounds first : ℕ) (m : ℕ → Number) (k l : ℕ)
      → l < n
      → mat a n (for_loop rounds first (add_row a n A B i) m) k l
        ≡ (if k == i then dot a n A B rounds first i l (mat a n m k l) else mat a n m k l)
  unfolding for_loop dot
  good_row i zero first m k l hl = ground arith
  good_row i (suc rounds) first m k l hl =
      good_row i rounds (first + 1) (add_row a n A B i first m) k l hl
      ∙ rw (add_row_lem i first m k l hl) (ground arith)

  -- Both products give, at each row and column, the sum of the products taken in the order of k from
  -- zero: they are the same number whatever the rounding of sums and products is. Only
  -- matrix_good.cpp needs that the result was zeroed before.
  pub same_product :
      (C : ℕ → Number) (i j : ℕ)
      → i < n
      → j < n
      → (mat a n (multiply_bad a n A B C) i j ≡ dot a n A B n 0 i j zero_number)
        × (mat a n (multiply_good a n A B (zeroed a n)) i j ≡ dot a n A B n 0 i j zero_number)
  unfolding multiply_bad multiply_good
  same_product C i j hi hj = (
    rows_loop (λ k l _. dot a n A B n 0 k l zero_number) _ bad_row n 0 C i j hj
        ∙ rw (lt→ltb i (0 + n) (omega arith), le→leb 0 i (omega arith)),
    rows_loop (λ k l v. dot a n A B n 0 k l v) _ (λ k m. good_row k n 0 m) n 0 (zeroed a n) i j hj
        ∙ rw (lt→ltb i (0 + n) (omega arith), le→leb 0 i (omega arith)) (zero_cell i j),
  )
    where
      zero_cell :
          (i j : ℕ)
          → dot a n A B n 0 i j (mat a n (zeroed a n) i j) ≡ dot a n A B n 0 i j zero_number
      zero_cell i j = unfold mat zeroed in refl
