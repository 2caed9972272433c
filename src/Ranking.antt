-- ===== src/Ranking.antt =====
-- src/main.cpp: `wilson_lower_bound`, and the ranking of source lines in `main`.
--
-- std::sort with a comparator is outside: `Sorting` says what the ranking relies on of it.
pub mod Gate
pub mod Right
pub mod Insertion
mod Tests
use cache_lens.Prelude.{
  weight, ℕ, ◌+◌, ◌≡◌, Bool, true, false, List, [], ◌∷◌, ◌++◌, ltb, if◌then◌else◌, Option, none,
  some,
}
use cache_lens.Doubles.{Doubles}
use cache_lens.Keys.SortedMap.{find, keys}
use cache_lens.Keys.Sort.{sort, unique}
use cache_lens.Session.{Both}
use cache_lens.Attribution.{Site, site_order, or_else}

-- Nothing in the list has to stand before `a`.
abbrev pub NoneBefore : {A : Type 0} → (A → A → Bool) → A → List A → Type 0
NoneBefore before a [] = Unit
NoneBefore before a (x ∷ xs) = (before x a ≡ false) × NoneBefore before a xs

abbrev pub IsOrdered : {A : Type 0} → (A → A → Bool) → List A → Type 0
IsOrdered before [] = Unit
IsOrdered before (x ∷ xs) = NoneBefore before x xs × IsOrdered before xs

-- What std::sort demands of its comparator.
pub record IsWeakOrder {A : Type 0} (before : A → A → Bool) : Type 0 where
  pub before_asym : (a b : A) → before a b ≡ true → before b a ≡ false
  pub before_cotrans : (a b c : A) → before b a ≡ false → before c b ≡ false → before c a ≡ false

-- std::sort: the same elements, each as often, and in the comparator's order.
pub record Sorting : Type 1 where
  pub sort_by : {A : Type 0} → (A → A → Bool) → List A → List A
  pub sort_by-weight :
      {A : Type 0} (before : A → A → Bool) (w : A → ℕ) (xs : List A)
      → weight w (sort_by before xs) ≡ weight w xs
  pub sort_by-IsOrdered :
      {A : Type 0} (before : A → A → Bool) (xs : List A)
      → IsWeakOrder before
      → IsOrdered before (sort_by before xs)

abbrev pub min_access_samples : ℕ
min_access_samples = 30

-- `counts.count(site) ? counts[site] : 0`
pub count_of : List (Site × ℕ) → Site → ℕ
count_of counts site = or_else 0 (find site_order site counts)

pub all_sites : Both (List (Site × ℕ)) → List Site
all_sites counts =
    unique site_order
      (sort site_order (keys site_order counts.miss ++ keys site_order counts.access))

-- `n < kMinAccessSamples`
pub is_insufficient : Both (List (Site × ℕ)) → Site → Bool
is_insufficient counts site = ltb (count_of counts.access site) min_access_samples

-- The loop over `all_sites`: what it puts into `insufficient`.
pub insufficient_sites : Both (List (Site × ℕ)) → List Site → List Site
insufficient_sites counts [] = []
insufficient_sites counts (site ∷ sites) =
    if is_insufficient counts site
    then site ∷ insufficient_sites counts sites
    else insufficient_sites counts sites

pub raw_before : Site × ℕ → Site × ℕ → Bool
raw_before a b = ltb b.1 a.1

module _ (d : Doubles) where
  open d use {Double, of_nat, decimal, add, sub, mul, div, sqrt, less, leq}

  -- `std::max(0.0, x)`
  pub max_zero : Double → Double
  max_zero x = if less (decimal 0 0) x then x else decimal 0 0

  pub wilson_lower_bound : Double → Double → Double → Double
  wilson_lower_bound m n z =
      if leq n (decimal 0 0)
      then decimal 0 0
      else (let p = div m n in
          let z2 = mul z z in
          let denom = add (decimal 1 0) (div z2 n) in
          let center = add p (div z2 (mul (decimal 2 0) n)) in
          let variance_term =
            max_zero
              (add (div (mul p (sub (decimal 1 0) p)) n) (div z2 (mul (mul (decimal 4 0) n) n))) in
          let spread = mul z (sqrt variance_term) in div (sub center spread) denom)

  -- `struct Ranked`
  pub record Ranked : Type 0 where
    pub site : Site
    pub m : ℕ
    pub n : ℕ
    pub concentration : Double
    pub wilson_concentration : Double

  pub rank_site : Double → Both (List (Site × ℕ)) → Site → Ranked
  rank_site period_scale counts site =
      let m = count_of counts.miss site in
      let n = count_of counts.access site in
      record {
        site = site;
        m = m;
        n = n;
        concentration = mul (div (of_nat m) (of_nat n)) period_scale;
        wilson_concentration =
            mul (wilson_lower_bound (of_nat m) (of_nat n) (decimal 196 2)) period_scale;
      }

  -- The loop over `all_sites`: what it puts into `ranked`.
  pub rank_sites : Double → Both (List (Site × ℕ)) → List Site → List Ranked
  rank_sites period_scale counts [] = []
  rank_sites period_scale counts (site ∷ sites) =
      if is_insufficient counts site
      then rank_sites period_scale counts sites
      else rank_site period_scale counts site ∷ rank_sites period_scale counts sites

  -- The comparator: the larger bound stands first.
  pub ranks_before : Ranked → Ranked → Bool
  ranks_before a b = less b.wilson_concentration a.wilson_concentration

  pub record Ranking : Type 0 where
    pub ranked : List Ranked
    pub insufficient : List Site
    pub by_raw : List (Site × ℕ)

  -- The ranking, from the two periods and the counts per line.
  pub rank : Sorting → Both ℕ → Both (List (Site × ℕ)) → Ranking
  rank sorting period counts =
      let period_scale = div (of_nat period.miss) (of_nat period.access) in
      let sites = all_sites counts in
      record {
        ranked = sorting.sort_by ranks_before (rank_sites period_scale counts sites);
        insufficient = insufficient_sites counts sites;
        by_raw = sorting.sort_by raw_before counts.miss;
      }
