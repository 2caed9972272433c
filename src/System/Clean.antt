-- ===== src/System/Clean.antt =====
-- Calls that leave no child and no descriptor behind.
use cache_lens.Prelude.{ℕ, ◌≡◌, List, ◌++◌, arith, weight, weight-append}
use cache_lens.System.{Call, opens, closes, forks, reaps}

-- Each child is waited for to its end as often as it was forked, and each descriptor closed as often as
-- it was opened.
abbrev pub Clean : List Call → Type 0
Clean calls =
    ((child : ℕ) → weight (forks child) calls ≡ weight (reaps child) calls)
    × ((fd : ℕ) → weight (opens fd) calls ≡ weight (closes fd) calls)

pub Clean-append : (xs ys : List Call) → Clean xs → Clean ys → Clean (xs ++ ys)
Clean-append xs ys a b = (
  λ child. omega (
    arith,
    weight-append (forks child) xs ys,
    weight-append (reaps child) xs ys,
    a.0 child,
    b.0 child,
  ),
  λ fd.
      omega
        (arith, weight-append (opens fd) xs ys, weight-append (closes fd) xs ys, a.1 fd, b.1 fd),
)
