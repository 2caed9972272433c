-- ===== src/Mpmc/Claims.antt =====
-- Threads that hold positions, each its own.
use cache_lens.Prelude.{
  ℕ, ◌+◌, ◌<◌, ◌≡◌, ◌⊎◌, refl, sym, ◌∙◌, ap, inl, inr, Option, none, some, ◌==◌, ==_iff, Bool-cases,
  arith,
}
use cache_lens.Mpmc.{update}

-- The positions held are below `bound`, and no two threads hold the same.
abbrev pub Distinct : (ℕ → Option ℕ) → ℕ → Type 0
Distinct held bound =
    ((t p : ℕ) → held t ≡ some p → p < bound)
    × ((t u p : ℕ) → held t ≡ some p → held u ≡ some p → t ≡ u)

some_eq : (a b : ℕ) → some a ≡ some b → a ≡ b
some_eq a b e = ap (λ o. elim o [ none ↦ a | some c ↦ c ]) e

module _ {A : Type 0} (held : A → Option ℕ) (f : ℕ → A) (t : ℕ) (x : A) where
  update-cases :
      (u p : ℕ)
      → held (update f t x u) ≡ some p
      → ((u ≡ t) × (held x ≡ some p)) ⊎ (held (f u) ≡ some p)
  update-cases u p h = elim (Bool-cases (u == t)) [
    | inl same ↦ inl ((==_iff u t).0 same, sym (rw same refl) ∙ h)
    | inr other ↦ inr (sym (rw other refl) ∙ h)
  ]

  -- A thread that goes on with its position, or without one.
  pub Distinct-kept :
      (bound : ℕ)
      → ((p : ℕ) → held x ≡ some p → held (f t) ≡ some p)
      → Distinct (λ u. held (f u)) bound
      → Distinct (λ u. held (update f t x u)) bound
  Distinct-kept bound same d = (
    λ u p h. d.0 u p (before u p (update-cases u p h)),
    λ u v p h k. d.1 u v p (before u p (update-cases u p h)) (before v p (update-cases v p k)),
  )
    where
      before :
          (u p : ℕ) → ((u ≡ t) × (held x ≡ some p)) ⊎ (held (f u) ≡ some p) → held (f u) ≡ some p
      before u p (inl (e, h)) = ap (λ v. held (f v)) e ∙ same p h
      before u p (inr h) = h

  -- A thread that takes the position `bound`.
  pub Distinct-taken :
      (bound : ℕ)
      → held x ≡ some bound
      → Distinct (λ u. held (f u)) bound
      → Distinct (λ u. held (update f t x u)) (bound + 1)
  Distinct-taken bound taken d = (
    λ u p h. below u p (update-cases u p h),
    λ u v p h k. apart u v p (update-cases u p h) (update-cases v p k),
  )
    where
      below : (u p : ℕ) → ((u ≡ t) × (held x ≡ some p)) ⊎ (held (f u) ≡ some p) → p < bound + 1
      below u p (inl (e, h)) = omega (arith, some_eq bound p (sym taken ∙ h))
      below u p (inr h) = omega (arith, d.0 u p h)

      apart :
          (u v p : ℕ)
          → ((u ≡ t) × (held x ≡ some p)) ⊎ (held (f u) ≡ some p)
          → ((v ≡ t) × (held x ≡ some p)) ⊎ (held (f v) ≡ some p)
          → u ≡ v
      apart u v p (inl (e, h)) (inl (e', k)) = e ∙ sym e'
      apart u v p (inl (e, h)) (inr k) =
          absurd (omega (arith, d.0 v p k, some_eq bound p (sym taken ∙ h)))
      apart u v p (inr h) (inl (e', k)) =
          absurd (omega (arith, d.0 u p h, some_eq bound p (sym taken ∙ k)))
      apart u v p (inr h) (inr k) = d.1 u v p h k
