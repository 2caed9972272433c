-- ===== src/Setup/Arguments.antt =====
-- The command line: the option, the target and what is wrong with others.
use cache_lens.Prelude.{
  ℕ, ◌<◌, ◌≡◌, ◌≢◌, refl, sym, ◌∙◌, ap, ap₂, inl, inr, true, false, Option, none, some, List, [],
  ◌∷◌, length, ◌==◌, ==_iff, ==-ne, Bool-cases, Result, ok, err, arith,
}
use cache_lens.Keys.Order.{ℤ, pos, negsuc}
use cache_lens.Setup.{
  Halt, period_needs_value, bad_period, usage, Text, Strtoll, period_flag, dashes, same_text,
  positive, period_value, take_period, take_command,
}

same_text_eq : (a b : Text) → same_text a b ≡ true → a ≡ b
unfolding same_text
same_text_eq [] [] h = refl
same_text_eq [] (y ∷ ys) h = ground arith
same_text_eq (x ∷ xs) [] h = ground arith
same_text_eq (x ∷ xs) (y ∷ ys) h = elim (Bool-cases (x == y)) [
  | inl here ↦
      ap₂ (λ c cs. c ∷ cs) ((==_iff x y).0 here) (same_text_eq xs ys (ground (arith, h, here)))
  | inr other ↦ ground (arith, h, other)
]

-- The whole text is the number n.
abbrev pub IsNumber : Strtoll → Text → ℕ → Type 0
IsNumber strtoll v n = (strtoll v ≡ (pos n, length v)) × (0 < n)

abbrev ValueOf : Strtoll → Text → Option ℕ → Type 0
ValueOf strtoll v none = (n : ℕ) → 0 < length v → ¬ IsNumber strtoll v n
ValueOf strtoll v (some n) = IsNumber strtoll v n

-- The number that a value above zero is.
abbrev pub PositiveOf : ℤ → Option ℕ → Type 0
PositiveOf z none = (n : ℕ) → 0 < n → z ≢ pos n
PositiveOf z (some n) = (z ≡ pos n) × (0 < n)

magnitude : ℤ → ℕ
magnitude (pos n) = n
magnitude (negsuc n) = 0

pub positive-PositiveOf : (z : ℤ) → PositiveOf z (positive z)
unfolding positive magnitude
positive-PositiveOf (negsuc n) = λ k above e. omega (arith, ap magnitude e)
positive-PositiveOf (pos n) = elim (Bool-cases (n == 0)) [
  | inl nothing ↦ rw nothing (λ k above e. omega (arith, ap magnitude e, (==_iff n 0).0 nothing))
  | inr some_value ↦ rw some_value (refl, omega (arith, ==-ne n 0 some_value))
]

period_value-ValueOf : (strtoll : Strtoll) (v : Text) → ValueOf strtoll v (period_value strtoll v)
unfolding period_value
period_value-ValueOf strtoll v = elim (Bool-cases (used == 0)) [
  | inl nothing ↦
      rw nothing (λ n filled h. omega (arith, (==_iff used 0).0 nothing, ap (λ p. p.1) h.0, filled))
  | inr moved ↦ elim (Bool-cases (used == length v)) [
    | inr rest ↦ rw (moved, rest) (λ n filled h. ==-ne used (length v) rest (ap (λ p. p.1) h.0))
    | inl whole ↦
        rw (moved, whole)
          (by_value (positive ((strtoll v).0)) (positive-PositiveOf ((strtoll v).0))
            ((==_iff used (length v)).0 whole))
  ]
]
  where
    used : ℕ
    used = (strtoll v).1

    by_value :
        (o : Option ℕ)
        → PositiveOf ((strtoll v).0) o
        → (strtoll v).1 ≡ length v
        → ValueOf strtoll v o
    by_value none p e = λ n filled h. p n h.1 (ap (λ q. q.0) h.0)
    by_value (some n) p e = (ap₂ (λ a b. (a, b)) p.0 e, p.1)

first_text : List Text → Text
first_text [] = []
first_text (a ∷ args) = a

pub first_text_eq : (a b : Text) (xs ys : List Text) → a ∷ xs ≡ b ∷ ys → a ≡ b
unfolding first_text
first_text_eq a b xs ys e = ap first_text e

text_differs : false ≡ true → ⊥
text_differs e = ground arith

not_flag :
    (a : Text) (xs : List Text)
    → same_text a period_flag ≡ false
    → (others : List Text) → a ∷ xs ≢ period_flag ∷ others
unfolding same_text
not_flag a xs other others e =
    text_differs
      (sym other ∙ ap (λ t. same_text t period_flag) (first_text_eq a period_flag xs others e))

-- The arguments behind the first two.
behind_two : List Text → List Text
behind_two [] = []
behind_two (a ∷ []) = []
behind_two (a ∷ b ∷ args) = args

pub behind_two_eq : (a b c d : Text) (xs ys : List Text) → a ∷ b ∷ xs ≡ c ∷ d ∷ ys → xs ≡ ys
unfolding behind_two
behind_two_eq a b c d xs ys e = ap behind_two e

-- The arguments with the option or without it.
abbrev pub TakenOf : Strtoll → List Text → Result Halt (Option ℕ × List Text) → Type 0
TakenOf strtoll args (ok (none, rest)) =
    (args ≡ rest) × ((others : List Text) → args ≢ period_flag ∷ others)
TakenOf strtoll args (ok (some n, rest)) =
    (v : Text) × (args ≡ period_flag ∷ v ∷ rest) × IsNumber strtoll v n
TakenOf strtoll args (err period_needs_value) = args ≡ period_flag ∷ []
TakenOf strtoll args (err bad_period) =
    (v : Text) × (rest : List Text) × (args ≡ period_flag ∷ v ∷ rest)
    × ((n : ℕ) → 0 < length v → ¬ IsNumber strtoll v n)
TakenOf strtoll args (err _) = ⊥

pub take_period-TakenOf :
    (strtoll : Strtoll) (args : List Text) → TakenOf strtoll args (take_period strtoll args)
unfolding take_period
take_period-TakenOf strtoll [] = (refl, λ others e. omega (arith, ap length e))
take_period-TakenOf strtoll (a ∷ []) = elim (Bool-cases (same_text a period_flag)) [
  | inl flag ↦ rw flag (ap (λ t. t ∷ []) (same_text_eq a period_flag flag))
  | inr other ↦ rw other (refl, not_flag a [] other)
]
take_period-TakenOf strtoll (a ∷ v ∷ rest) = elim (Bool-cases (same_text a period_flag)) [
  | inl flag ↦ rw flag (
      by_value (same_text_eq a period_flag flag) (period_value strtoll v)
        (period_value-ValueOf strtoll v))
  | inr other ↦ rw other (refl, not_flag a (v ∷ rest) other)
]
  where
    by_value :
        a ≡ period_flag
        → (o : Option ℕ) → ValueOf strtoll v o
        → TakenOf strtoll
            (a ∷ v ∷ rest)
            (elim o [ none ↦ err bad_period | some n ↦ ok (some n, rest) ])
    by_value e none h = (v, rest, ap (λ t. t ∷ v ∷ rest) e, h)
    by_value e (some n) h = (v, ap (λ t. t ∷ v ∷ rest) e, h)

-- The command behind the dashes.
abbrev pub CommandOf : List Text → Result Halt (List Text) → Type 0
CommandOf args (ok command) = (args ≡ dashes ∷ command) × (0 < length command)
CommandOf args (err usage) = (command : List Text) → 0 < length command → args ≢ dashes ∷ command
CommandOf args (err _) = ⊥

pub take_command-CommandOf : (args : List Text) → CommandOf args (take_command args)
unfolding take_command same_text
take_command-CommandOf [] = λ command filled e. omega (arith, ap length e)
take_command-CommandOf (a ∷ []) = λ command filled e. omega (arith, ap length e)
take_command-CommandOf (a ∷ c ∷ cs) = elim (Bool-cases (same_text a dashes)) [
  | inl here ↦ rw here (ap (λ t. t ∷ c ∷ cs) (same_text_eq a dashes here), omega arith)
  | inr other ↦ rw other (λ command filled e.
      text_differs
        (sym other ∙ ap (λ t. same_text t dashes) (first_text_eq a dashes (c ∷ cs) command e)))
]
