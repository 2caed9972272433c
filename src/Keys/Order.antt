-- ===== src/Keys/Order.antt =====
-- Three-way comparisons as std::string, int, uint64_t and std::pair have them.
use Prim.Native.Nat.{compare, Ordering, lt, eq, gt}
use cache_lens.Prelude.{ℕ, ◌≡◌, refl, List, [], ◌∷◌, arith}

pub record KeyOrder (K : Type 0) : Type 0 where
  pub cmp : K → K → Ordering
  pub cmp_self : (a : K) → cmp a a ≡ eq
  pub eq_of_cmp : (a b : K) → cmp a b ≡ eq → a ≡ b
  pub cmp_flip : (a b : K) → cmp a b ≡ lt → cmp b a ≡ gt
  pub cmp_unflip : (a b : K) → cmp a b ≡ gt → cmp b a ≡ lt
  pub cmp_trans : (a b c : K) → cmp a b ≡ lt → cmp b c ≡ lt → cmp a c ≡ lt

pub compare_self : (a : ℕ) → compare a a ≡ eq
compare_self a = ground arith

pub eq_of_compare : (a b : ℕ) → compare a b ≡ eq → a ≡ b
eq_of_compare a b h = ground arith

pub compare_flip : (a b : ℕ) → compare a b ≡ lt → compare b a ≡ gt
compare_flip a b h = ground arith

pub compare_unflip : (a b : ℕ) → compare a b ≡ gt → compare b a ≡ lt
compare_unflip a b h = ground arith

pub compare_trans : (a b c : ℕ) → compare a b ≡ lt → compare b c ≡ lt → compare a c ≡ lt
compare_trans a b c h k = ground arith

abbrev pub nat_order : KeyOrder ℕ
nat_order = record {
  cmp = compare;
  cmp_self = compare_self;
  eq_of_cmp = eq_of_compare;
  cmp_flip = compare_flip;
  cmp_unflip = compare_unflip;
  cmp_trans = compare_trans;
}

-- `int`, with `negsuc n` for -(n + 1).
pub data ℤ : Type 0 where
  pos : ℕ → ℤ
  negsuc : ℕ → ℤ

abbrev pub compare_int : ℤ → ℤ → Ordering
compare_int (pos a) (pos b) = compare a b
compare_int (pos a) (negsuc b) = gt
compare_int (negsuc a) (pos b) = lt
compare_int (negsuc a) (negsuc b) = compare b a

pub compare_int_self : (a : ℤ) → compare_int a a ≡ eq
compare_int_self a = ground arith

pub eq_of_compare_int : (a b : ℤ) → compare_int a b ≡ eq → a ≡ b
eq_of_compare_int a b h = ground arith

pub compare_int_flip : (a b : ℤ) → compare_int a b ≡ lt → compare_int b a ≡ gt
compare_int_flip a b h = ground arith

pub compare_int_unflip : (a b : ℤ) → compare_int a b ≡ gt → compare_int b a ≡ lt
compare_int_unflip a b h = ground arith

pub compare_int_trans :
    (a b c : ℤ) → compare_int a b ≡ lt → compare_int b c ≡ lt → compare_int a c ≡ lt
compare_int_trans a b c h k = ground arith

abbrev pub int_order : KeyOrder ℤ
int_order = record {
  cmp = compare_int;
  cmp_self = compare_int_self;
  eq_of_cmp = eq_of_compare_int;
  cmp_flip = compare_int_flip;
  cmp_unflip = compare_int_unflip;
  cmp_trans = compare_int_trans;
}

-- The bytes of a std::string, compared one by one.
abbrev pub compare_text : List ℕ → List ℕ → Ordering
compare_text [] [] = eq
compare_text [] (y ∷ ys) = lt
compare_text (x ∷ xs) [] = gt
compare_text (x ∷ xs) (y ∷ ys) = elim (compare x y) [ lt ↦ lt | eq ↦ compare_text xs ys | gt ↦ gt ]

pub compare_text_self : (a : List ℕ) → compare_text a a ≡ eq
compare_text_self [] = refl
compare_text_self (x ∷ xs) = ground (arith, compare_text_self xs)

pub eq_of_compare_text : (a b : List ℕ) → compare_text a b ≡ eq → a ≡ b
eq_of_compare_text [] [] h = refl
eq_of_compare_text [] (y ∷ ys) h = cc
eq_of_compare_text (x ∷ xs) [] h = cc
eq_of_compare_text (x ∷ xs) (y ∷ ys) h = ground (arith, eq_of_compare_text xs ys)

pub compare_text_flip : (a b : List ℕ) → compare_text a b ≡ lt → compare_text b a ≡ gt
compare_text_flip [] [] h = cc
compare_text_flip [] (y ∷ ys) h = refl
compare_text_flip (x ∷ xs) [] h = cc
compare_text_flip (x ∷ xs) (y ∷ ys) h = ground (arith, compare_text_flip xs ys)

pub compare_text_unflip : (a b : List ℕ) → compare_text a b ≡ gt → compare_text b a ≡ lt
compare_text_unflip [] [] h = cc
compare_text_unflip [] (y ∷ ys) h = cc
compare_text_unflip (x ∷ xs) [] h = refl
compare_text_unflip (x ∷ xs) (y ∷ ys) h = ground (arith, compare_text_unflip xs ys)

pub compare_text_trans :
    (a b c : List ℕ) → compare_text a b ≡ lt → compare_text b c ≡ lt → compare_text a c ≡ lt
compare_text_trans [] [] c h k = cc
compare_text_trans [] (y ∷ ys) [] h k = cc
compare_text_trans [] (y ∷ ys) (z ∷ zs) h k = refl
compare_text_trans (x ∷ xs) [] c h k = cc
compare_text_trans (x ∷ xs) (y ∷ ys) [] h k = cc
compare_text_trans (x ∷ xs) (y ∷ ys) (z ∷ zs) h k = ground (arith, compare_text_trans xs ys zs)

abbrev pub text_order : KeyOrder (List ℕ)
text_order = record {
  cmp = compare_text;
  cmp_self = compare_text_self;
  eq_of_cmp = eq_of_compare_text;
  cmp_flip = compare_text_flip;
  cmp_unflip = compare_text_unflip;
  cmp_trans = compare_text_trans;
}

module _ {A B : Type 0} (oa : KeyOrder A) (ob : KeyOrder B) where
  -- std::pair: the first parts decide, and then the second.
  abbrev pub compare_pair : A × B → A × B → Ordering
  compare_pair (a, b) (c, d) = elim (oa.cmp a c) [ lt ↦ lt | eq ↦ ob.cmp b d | gt ↦ gt ]

  pub compare_pair_self : (p : A × B) → compare_pair p p ≡ eq
  compare_pair_self (a, b) = ground (arith, oa.cmp_self a, ob.cmp_self b)

  pub eq_of_compare_pair : (p q : A × B) → compare_pair p q ≡ eq → p ≡ q
  eq_of_compare_pair (a, b) (c, d) h = ground (arith, oa.eq_of_cmp a c, ob.eq_of_cmp b d)

  pub compare_pair_flip : (p q : A × B) → compare_pair p q ≡ lt → compare_pair q p ≡ gt
  compare_pair_flip (a, b) (c, d) h =
      ground (arith, oa.cmp_flip a c, oa.eq_of_cmp a c, oa.cmp_self a, ob.cmp_flip b d)

  pub compare_pair_unflip : (p q : A × B) → compare_pair p q ≡ gt → compare_pair q p ≡ lt
  compare_pair_unflip (a, b) (c, d) h =
      ground (arith, oa.cmp_unflip a c, oa.eq_of_cmp a c, oa.cmp_self a, ob.cmp_unflip b d)

  pub compare_pair_trans :
      (p q r : A × B) → compare_pair p q ≡ lt → compare_pair q r ≡ lt → compare_pair p r ≡ lt
  compare_pair_trans (a, b) (c, d) (e, f) h k = ground (
    arith,
    oa.cmp_trans a c e,
    oa.eq_of_cmp a c,
    oa.eq_of_cmp c e,
    oa.cmp_self a,
    ob.cmp_trans b d f,
  )

  abbrev pub pair_order : KeyOrder (A × B)
  pair_order = record {
    cmp = compare_pair;
    cmp_self = compare_pair_self;
    eq_of_cmp = eq_of_compare_pair;
    cmp_flip = compare_pair_flip;
    cmp_unflip = compare_pair_unflip;
    cmp_trans = compare_pair_trans;
  }
