-- ===== src/Prelude/Lists.antt =====
-- Lists measured and indexed by native numbers, under the library's names.
use Prim.Native.Nat.{ℕ, zero, suc, ◌+◌, ◌≤◌, ◌<◌, min}
use mathlib.Core.Path.{◌≡◌, refl, ap}
use mathlib.Core.Logic.{◌⊎◌, inl, inr}
use mathlib.Core.List.{tail, List, [], ◌∷◌, ◌++◌}
use native.Mathlib.Omega.{arith}

module _ {ℓ} {A : Type ℓ} where
  abbrev pub length : List A → ℕ
  length [] = 0
  length (x ∷ xs) = suc (length xs)

  abbrev pub get_or : List A → ℕ → A → A
  get_or [] i d = d
  get_or (x ∷ xs) zero d = x
  get_or (x ∷ xs) (suc i) d = get_or xs i d

  abbrev pub take : ℕ → List A → List A
  take zero xs = []
  take (suc n) [] = []
  take (suc n) (x ∷ xs) = x ∷ take n xs

  abbrev pub drop : ℕ → List A → List A
  drop zero xs = xs
  drop (suc n) [] = []
  drop (suc n) (x ∷ xs) = drop n xs

  pub length-append : (xs ys : List A) → length (xs ++ ys) ≡ length xs + length ys
  length-append [] ys = omega arith
  length-append (x ∷ xs) ys = omega (arith, length-append xs ys)

  pub take-append : (xs ys : List A) (n : ℕ) → length xs ≡ n → take n (xs ++ ys) ≡ xs
  take-append [] ys zero h = refl
  take-append [] ys (suc n) h = absurd (omega arith)
  take-append (x ∷ xs) ys zero h = absurd (omega arith)
  take-append (x ∷ xs) ys (suc n) h = ap (λ l. x ∷ l) (take-append xs ys n (omega arith))

  pub drop-append : (xs ys : List A) (n : ℕ) → length xs ≡ n → drop n (xs ++ ys) ≡ ys
  drop-append [] ys zero h = refl
  drop-append [] ys (suc n) h = absurd (omega arith)
  drop-append (x ∷ xs) ys zero h = absurd (omega arith)
  drop-append (x ∷ xs) ys (suc n) h = drop-append xs ys n (omega arith)

  pub length-take : (n : ℕ) (xs : List A) → length (take n xs) ≡ min n (length xs)
  length-take zero xs = omega arith
  length-take (suc n) [] = omega arith
  length-take (suc n) (x ∷ xs) = omega (arith, length-take n xs)

  -- The first `suc n` items from `i` on, item by item.
  pub take-drop_step :
      (xs : List A) (i n : ℕ) (d : A)
      → i < length xs
      → take (suc n) (drop i xs) ≡ get_or xs i d ∷ take n (drop (suc i) xs)
  take-drop_step [] i n d h = absurd (omega arith)
  take-drop_step (x ∷ xs) zero n d h = refl
  take-drop_step (x ∷ xs) (suc i) n d h = take-drop_step xs i n d (omega arith)

-- A list that is shorter than `ys` and ends as it does is an end of `ys`.
pub append-suffix {ℓ} :
    {A : Type ℓ} (xs ys us vs : List A)
    → xs ++ ys ≡ us ++ vs
    → length vs ≤ length ys
    → (ws : List A) × (ys ≡ ws ++ vs) × (length us ≡ length xs + length ws)
append-suffix [] ys us vs e h = (us, e, omega arith)
append-suffix (x ∷ xs) ys [] vs e h = absurd (omega (arith, ap length e, length-append xs ys))
append-suffix (x ∷ xs) ys (u ∷ us) vs e h =
    let (ws, p, q) = append-suffix xs ys us vs (ap tail e) h in (ws, p, omega arith)

abbrev pub All {ℓ κ} : {A : Type ℓ} → (A → Type κ) → List A → Type κ
All P [] = Unit
All P (x ∷ xs) = P x × All P xs

abbrev pub Any {ℓ} : {A : Type ℓ} → (A → Type 0) → List A → Type 0
Any P [] = ⊥
Any P (x ∷ xs) = P x ⊎ Any P xs

-- What holds everywhere holds where something is found.
pub All-Any {ℓ} :
    {A : Type ℓ} (P Q : A → Type 0) (C : Type 0) (xs : List A)
    → All P xs
    → Any Q xs
    → ((x : A) → P x → Q x → C)
    → C
All-Any P Q C [] a h f = absurd h
All-Any P Q C (x ∷ xs) a (inl q) f = f x a.0 q
All-Any P Q C (x ∷ xs) a (inr h) f = All-Any P Q C xs a.1 h f

-- How much a list weighs, each element by `w`.
abbrev pub weight {ℓ} : {A : Type ℓ} → (A → ℕ) → List A → ℕ
weight w [] = 0
weight w (x ∷ xs) = w x + weight w xs

pub weight-append {ℓ} :
    {A : Type ℓ} (w : A → ℕ) (xs ys : List A) → weight w (xs ++ ys) ≡ weight w xs + weight w ys
weight-append w [] ys = omega arith
weight-append w (x ∷ xs) ys = omega (arith, weight-append w xs ys)

pub All-append {ℓ κ} :
    {A : Type ℓ} (P : A → Type κ) (xs ys : List A) → All P xs → All P ys → All P (xs ++ ys)
All-append P [] ys a b = b
All-append P (x ∷ xs) ys a b = (a.0, All-append P xs ys a.1 b)

pub All-of_weight {ℓ} :
    {A : Type ℓ} (w : A → ℕ) (xs : List A) → weight w xs ≡ 0 → All (λ x. w x ≡ 0) xs
All-of_weight w [] h = tt
All-of_weight w (x ∷ xs) h = (omega arith, All-of_weight w xs (omega arith))

pub All-map {ℓ κ μ} :
    {A : Type ℓ} (P : A → Type κ) (Q : A → Type μ) (xs : List A)
    → ((x : A) → P x → Q x)
    → All P xs
    → All Q xs
All-map P Q [] f a = tt
All-map P Q (x ∷ xs) f a = (f x a.0, All-map P Q xs f a.1)
