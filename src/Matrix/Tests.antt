-- ===== src/Matrix/Tests.antt =====
-- Matrices of two rows.
use cache_lens.Prelude.{ℕ, ◌+◌, ◌*◌, ◌≡◌, refl, arith}
use cache_lens.Matrix.{
  for_loop, Arithmetic, mat, set_mat, zeroed, dot, multiply_bad, add_row, multiply_good,
}
use cache_lens.Matrix.Same.{same_product}

abbrev whole_numbers : Arithmetic
whole_numbers = record { Number = ℕ; zero_number = 0; add = λ x y. x + y; mul = λ x y. x * y }

abbrev left : ℕ → ℕ
left p = p + 1

abbrev right : ℕ → ℕ
right p = 2 * p

same_product_example :
    (mat whole_numbers 2 (multiply_bad whole_numbers 2 left right (λ p. 77)) 1 0
      ≡ dot whole_numbers 2 left right 2 0 1 0 0)
    × (mat whole_numbers 2 (multiply_good whole_numbers 2 left right (zeroed whole_numbers 2)) 1 0
        ≡ dot whole_numbers 2 left right 2 0 1 0 0)
same_product_example =
    same_product whole_numbers 2 left right (λ p. 77) 1 0 (omega arith) (omega arith)

bad_corner : mat whole_numbers 2 (multiply_bad whole_numbers 2 left right (λ p. 77)) 1 0 ≡ 16
unfolding multiply_bad dot for_loop mat set_mat
bad_corner = refl

good_corner :
    mat whole_numbers 2 (multiply_good whole_numbers 2 left right (zeroed whole_numbers 2)) 1 1 ≡ 30
unfolding multiply_good add_row for_loop mat set_mat zeroed
good_corner = refl
