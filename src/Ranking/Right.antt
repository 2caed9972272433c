-- ===== src/Ranking/Right.antt =====
-- The ranking names every site once, with its counts.
use cache_lens.Prelude.{
  weight, ℕ, ◌≤◌, ◌≡◌, ap, ◌∙◌, Bool, false, ◌&&◌, List, [], ◌∷◌, ◌++◌, ltb, ltb→lt, ltb-false,
  ltb_of_le, leb, if◌then◌else◌, All, arith,
}
use cache_lens.Doubles.{Doubles}
use cache_lens.Keys.SortedMap.{keys}
use cache_lens.Keys.Sort.{has, unique-sort}
use cache_lens.Session.{Both}
use cache_lens.Attribution.{Site, site_order}
use cache_lens.Ranking.{
  IsOrdered, NoneBefore, IsWeakOrder, Sorting, Ranked, count_of, all_sites, is_insufficient,
  rank_sites, raw_before, ranks_before, rank,
}
use cache_lens.Ranking.Gate.{at, weight-IsSorted, weight-rank_sites, weight-insufficient_sites}

raw_before-IsWeakOrder : IsWeakOrder raw_before
unfolding raw_before
raw_before-IsWeakOrder = record {
  before_asym = λ a b h. ltb_of_le a.1 b.1 (omega (arith, ltb→lt b.1 a.1 h));
  before_cotrans =
      λ a b c h k. ltb_of_le a.1 c.1 (omega (arith, ltb-false a.1 b.1 h, ltb-false b.1 c.1 k));
}

-- The counts fall along the list.
abbrev pub Falls : List (Site × ℕ) → Type 0
Falls [] = Unit
Falls (x ∷ xs) = All (λ y. y.1 ≤ x.1) xs × Falls xs

Falls-of_IsOrdered : (xs : List (Site × ℕ)) → IsOrdered raw_before xs → Falls xs
Falls-of_IsOrdered [] o = tt
Falls-of_IsOrdered (x ∷ xs) o = (below xs o.0, Falls-of_IsOrdered xs o.1)
  where
    below : (ys : List (Site × ℕ)) → NoneBefore raw_before x ys → All (λ y. y.1 ≤ x.1) ys
    below [] n = tt
    below (y ∷ ys) n = ((unfold raw_before in ltb-false x.1 y.1 n.0), below ys n.1)

-- 1 for a site of one of the two maps
abbrev pub in_counts : Both (List (Site × ℕ)) → Site → Bool
in_counts counts site =
    has site_order site (keys site_order counts.miss ++ keys site_order counts.access)

weight-all_sites :
    (counts : Both (List (Site × ℕ))) (site : Site)
    → weight (at site_order site) (all_sites counts) ≡ (if in_counts counts site then 1 else 0)
unfolding all_sites
weight-all_sites counts site =
    let u = unique-sort site_order (keys site_order counts.miss ++ keys site_order counts.access) in
    weight-IsSorted site_order site (all_sites counts) u.0
    ∙ ap (λ (b : Bool). if b then 1 else 0) (u.1 site)

module _ (d : Doubles) (sorting : Sorting) (period : Both ℕ) (counts : Both (List (Site × ℕ))) where
  -- Every site with a miss or an access sample stands in the ranking once if it has at least 30 access
  -- samples, and once among the insufficient ones if it has fewer; no other site stands in
  -- either.
  pub rank_once :
      (site : Site)
      → (weight (λ r. at site_order site r.site) (rank d sorting period counts).ranked
          ≡ (if in_counts counts site && leb 30 (count_of counts.access site) then 1 else 0))
        × (weight (at site_order site) (rank d sorting period counts).insufficient
            ≡ (if in_counts counts site && ltb (count_of counts.access site) 30 then 1 else 0))
  unfolding rank is_insufficient
  rank_once site =
      let scale = d.div (d.of_nat period.miss) (d.of_nat period.access) in
      let once = weight-all_sites counts site in
      (
        sorting.sort_by-weight (ranks_before d) (λ r. at site_order site r.site)
              (rank_sites d scale counts (all_sites counts))
            ∙ weight-rank_sites d scale counts site (all_sites counts)
            ∙ ground (arith, once),
        weight-insufficient_sites counts site (all_sites counts) ∙ ground (arith, once),
      )

  abbrev pub HasCounts : Ranked d → Type 0
  HasCounts r =
      (r.m ≡ count_of counts.miss r.site) × (r.n ≡ count_of counts.access r.site) × (30 ≤ r.n)

  -- No bound of a later line is greater.
  abbrev pub BoundsFall : List (Ranked d) → Type 0
  BoundsFall [] = Unit
  BoundsFall (r ∷ rs) =
      All (λ later. d.less r.wilson_concentration later.wilson_concentration ≡ false) rs
      × BoundsFall rs

  -- The raw ranking holds each entry of the miss counts, as often as they do, by falling count.
  pub raw_in_order :
      ((w : Site × ℕ → ℕ) → weight w (rank d sorting period counts).by_raw ≡ weight w counts.miss)
      × Falls (rank d sorting period counts).by_raw
  unfolding rank
  raw_in_order = (
    (λ w. sorting.sort_by-weight raw_before w counts.miss),
    Falls-of_IsOrdered _ (sorting.sort_by-IsOrdered raw_before counts.miss raw_before-IsWeakOrder),
  )
