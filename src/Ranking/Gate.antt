-- ===== src/Ranking/Gate.antt =====
-- The support gate: which sites are ranked, and which are reported apart.
use Prim.Native.Nat.{eq}
use cache_lens.Prelude.{weight, ℕ, ◌+◌, ◌-◌, ◌≡◌, refl, List, [], ◌∷◌, if◌then◌else◌, arith}
use cache_lens.Doubles.{Doubles}
use cache_lens.Keys.Order.{KeyOrder}
use cache_lens.Keys.SortedMap.{Above, IsSorted}
use cache_lens.Keys.Sort.{has}
use cache_lens.Session.{Both}
use cache_lens.Attribution.{Site, site_order}
use cache_lens.Ranking.{
  Ranked, count_of, rank_site, is_insufficient, rank_sites, insufficient_sites,
}

-- 1 at the key itself
abbrev pub at : {K : Type 0} → KeyOrder K → K → K → ℕ
at o k j = elim (o.cmp k j) [ eq ↦ 1 | _ ↦ 0 ]

module _ {K : Type 0} (o : KeyOrder K) where
  weight-Above : (k : K) (ks : List K) → Above o k ks → weight (at o k) ks ≡ 0
  weight-Above k [] a = refl
  weight-Above k (j ∷ js) a = ground (arith, weight-Above k js)

  -- A key stands at most once in a sorted list.
  pub weight-IsSorted :
      (k : K) (ks : List K) → IsSorted o ks → weight (at o k) ks ≡ (if has o k ks then 1 else 0)
  unfolding has
  weight-IsSorted k [] s = refl
  weight-IsSorted k (j ∷ js) s =
      ground (arith, weight-IsSorted k js s.1, o.eq_of_cmp k j, weight-Above j js s.0)

pub weight-insufficient_sites :
    (counts : Both (List (Site × ℕ))) (site : Site) (sites : List Site)
    → weight (at site_order site) (insufficient_sites counts sites)
      ≡ (if is_insufficient counts site then weight (at site_order site) sites else 0)
unfolding insufficient_sites
weight-insufficient_sites counts site [] = ground arith
weight-insufficient_sites counts site (s ∷ sites) =
    ground (arith, weight-insufficient_sites counts site sites, site_order.eq_of_cmp site s)

module _ (d : Doubles) (counts : Both (List (Site × ℕ))) where
  -- How far an entry's numbers are from the counts of its site.
  abbrev pub off : Ranked d → ℕ
  off r =
      (r.m - count_of counts.miss r.site)
      + (count_of counts.miss r.site - r.m)
      + ((r.n - count_of counts.access r.site) + (count_of counts.access r.site - r.n))
      + (30 - r.n)

module _ (d : Doubles) (scale : d.Double) (counts : Both (List (Site × ℕ))) where
  pub weight-rank_sites :
      (site : Site) (sites : List Site)
      → weight (λ r. at site_order site r.site) (rank_sites d scale counts sites)
        ≡ (if is_insufficient counts site then 0 else weight (at site_order site) sites)
  unfolding rank_sites rank_site
  weight-rank_sites site [] = ground arith
  weight-rank_sites site (s ∷ sites) =
      ground (arith, weight-rank_sites site sites, site_order.eq_of_cmp site s)

  pub off-rank_sites :
      (sites : List Site) → weight (off d counts) (rank_sites d scale counts sites) ≡ 0
  unfolding rank_sites rank_site is_insufficient
  off-rank_sites [] = refl
  off-rank_sites (s ∷ sites) = ground (arith, off-rank_sites sites)
