-- ===== src/Matrix.antt =====
-- benchmarks/matrix_bad.cpp and benchmarks/matrix_good.cpp: the two products of matrices.
--
-- The program's `N` is the argument `n`, and its `double` any type with a zero, a sum and a product of
-- which no law is used. An array of n * n elements is a function of the index.
pub mod Cells
pub mod Same
mod Tests
use cache_lens.Prelude.{ℕ, zero, suc, ◌+◌, ◌*◌, ◌==◌, if◌then◌else◌}

-- `for (int i = first; …; ++i)` with the rounds left
pub for_loop : {S : Type 0} → ℕ → ℕ → (ℕ → S → S) → S → S
for_loop zero i body s = s
for_loop (suc rounds) i body s = for_loop rounds (i + 1) body (body i s)

pub record Arithmetic : Type 1 where
  pub Number : Type 0
  pub zero_number : Number
  pub add : Number → Number → Number
  pub mul : Number → Number → Number

module _ (a : Arithmetic) (n : ℕ) where
  open a use {Number, zero_number, add, mul}

  -- `mat(m, r, c)` as a value, and as the target of an assignment.
  pub mat : (ℕ → Number) → ℕ → ℕ → Number
  mat m r c = m (r * n + c)

  pub set_mat : (ℕ → Number) → ℕ → ℕ → Number → ℕ → Number
  set_mat m r c v p = if p == r * n + c then v else m p

  -- `std::memset(C, 0, …)`
  pub zeroed : ℕ → Number
  zeroed p = zero_number

  module _ (A B : ℕ → Number) where
    -- The loop over k of matrix_bad.cpp.
    pub dot : ℕ → ℕ → ℕ → ℕ → Number → Number
    dot rounds first i j sum =
        for_loop rounds first (λ k s. add s (mul (mat A i k) (mat B k j))) sum

    pub multiply_bad : (ℕ → Number) → ℕ → Number
    multiply_bad =
        for_loop n 0 (λ i C. for_loop n 0 (λ j C. set_mat C i j (dot n 0 i j zero_number)) C)

    -- The loop over j of matrix_good.cpp.
    pub add_row : ℕ → ℕ → (ℕ → Number) → ℕ → Number
    add_row i k =
        let a_ik = mat A i k in
        for_loop n 0 (λ j C. set_mat C i j (add (mat C i j) (mul a_ik (mat B k j))))

    pub multiply_good : (ℕ → Number) → ℕ → Number
    multiply_good = for_loop n 0 (λ i. for_loop n 0 (add_row i))
