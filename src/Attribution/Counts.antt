-- ===== src/Attribution/Counts.antt =====
-- The counts of an attribution are those of the samples.
use Prim.Native.Nat.{eq}
use cache_lens.Prelude.{
  ℕ, ◌+◌, ◌-◌, ◌*◌, ◌^◌, ◌≤◌, ◌<◌, ◌≡◌, ap, ◌∙◌, Bool, true, false, Option, none, some, List, [],
  ◌∷◌, arith, length,
}
use cache_lens.Prelude.Words.{u64}
use cache_lens.Keys.Order.{KeyOrder}
use cache_lens.Keys.SortedMap.{IsSorted, keys, find, adjust, find-adjust}
use cache_lens.Perf.{Sample}
use cache_lens.Elf.{TextRange, Bucket, target, other_user, kernel, unclassifiable, classify}
use cache_lens.Attribution.{Site, site_order, Attribution, or_else, count_line}
use cache_lens.Attribution.Cache.{IsCache, is_some}

-- How many of the samples a weight picks.
abbrev pub tally : (Sample → ℕ) → List Sample → ℕ
tally w [] = 0
tally w (s ∷ ss) = w s + tally w ss

abbrev pub is_target : Bucket → ℕ
is_target target = 1
is_target _ = 0

abbrev pub is_other_user : Bucket → ℕ
is_other_user other_user = 1
is_other_user _ = 0

abbrev pub is_kernel : Bucket → ℕ
is_kernel kernel = 1
is_kernel _ = 0

abbrev pub is_unclassifiable : Bucket → ℕ
is_unclassifiable unclassifiable = 1
is_unclassifiable _ = 0

abbrev pub one_if : Bool → ℕ
one_if true = 1
one_if false = 0

pub is_target-le : (b : Bucket) → is_target b ≤ 1
is_target-le target = omega arith
is_target-le _ = omega arith

-- 1 for the site that an address resolves to
abbrev pub at_site : Site → Option Site → ℕ
at_site site none = 0
at_site site (some l) = elim (site_order.cmp site l) [ eq ↦ 1 | _ ↦ 0 ]

bump_lem :
    {K : Type 0} (o : KeyOrder K) (j k : K) (m : List (K × ℕ))
    → IsSorted o (keys o m)
    → or_else 0 (find o k m) + 1 < 2 ^ 64
    → or_else 0 (find o j (adjust o k (λ n. u64 (or_else 0 n + 1)) m))
      ≡ elim (o.cmp j k) [ eq ↦ 1 | _ ↦ 0 ] + or_else 0 (find o j m)
bump_lem o j k m sorted word =
    ground (arith, find-adjust o j k (λ n. u64 (or_else 0 n + 1)) m sorted, o.eq_of_cmp j k)

module _ (resolve_ip : ℕ → Option Site) (range : TextRange) where
  -- The samples in the target that resolve to a site, to any, and to none.
  abbrev pub hits : Site → Sample → ℕ
  hits site s = is_target (classify s.ip range) * at_site site (resolve_ip s.ip)

  abbrev pub resolves : Sample → ℕ
  resolves s = is_target (classify s.ip range) * one_if (is_some (resolve_ip s.ip))

  abbrev pub resolves_not : Sample → ℕ
  resolves_not s = is_target (classify s.ip range) * (1 - one_if (is_some (resolve_ip s.ip)))

  abbrev pub in_bucket : (Bucket → ℕ) → Sample → ℕ
  in_bucket w s = w (classify s.ip range)

  -- What an attribution of the samples in `done` is.
  pub record IsCount (done : List Sample) (r : Attribution) : Type 0 where
    pub cache : IsCache resolve_ip r.resolve_loc r.resolve_ok
    pub lines_sorted : IsSorted site_order (keys site_order r.line_counts)
    pub lines :
        (site : Site) → or_else 0 (find site_order site r.line_counts) ≡ tally (hits site) done
    pub attributed : r.attributed ≡ tally resolves done
    pub unattributed : r.unattributed ≡ tally resolves_not done
    pub in_target : r.bucket_count.in_target ≡ tally (in_bucket is_target) done
    pub in_other_user : r.bucket_count.in_other_user ≡ tally (in_bucket is_other_user) done
    pub in_kernel : r.bucket_count.in_kernel ≡ tally (in_bucket is_kernel) done
    pub in_unclassifiable :
        r.bucket_count.in_unclassifiable ≡ tally (in_bucket is_unclassifiable) done

  pub tally-le :
      (w : Sample → ℕ) → ((s : Sample) → w s ≤ 1) → (l : List Sample) → tally w l ≤ length l
  tally-le w small [] = omega arith
  tally-le w small (s ∷ ss) = omega (arith, small s, tally-le w small ss)

  at_site-le : (site : Site) (o : Option Site) → at_site site o ≤ 1
  at_site-le site none = omega arith
  at_site-le site (some l) = ground arith

  pub hits-le : (site : Site) (s : Sample) → hits site s ≤ 1
  hits-le site s =
      grind (arith, at_site-le site (resolve_ip s.ip), is_target-le (classify s.ip range))

  -- `++line_counts[site]`
  pub count_line_lem :
      (site l : Site) (m : List (Site × ℕ)) (done : List Sample)
      → IsSorted site_order (keys site_order m)
      → length done + 1 < 2 ^ 64
      → ((i : Site) → or_else 0 (find site_order i m) ≡ tally (hits i) done)
      → or_else 0 (find site_order site (count_line l m))
        ≡ at_site site (some l) + tally (hits site) done
  unfolding count_line
  count_line_lem site l m done sorted word h =
      bump_lem site_order site l m sorted (omega (arith, h l, tally-le (hits l) (hits-le l) done))
      ∙ ap (λ (t : ℕ). at_site site (some l) + t) (h site)
