-- ===== src/Ranking/Tests.antt =====
-- Three sites, of which one has too few access samples.
use cache_lens.Doubles.{Doubles}
use cache_lens.Prelude.{
  weight, ◌+◌, ◌-◌, ◌*◌, ◌/◌, ◌^◌, ℕ, ◌≡◌, ◌&&◌, List, [], ◌∷◌, ltb, leb, if◌then◌else◌,
}
use cache_lens.Keys.Order.{pos}
use cache_lens.Doubles.Fractions.{fractions}
use cache_lens.Session.{Both}
use cache_lens.Attribution.{Site, site_order}
use cache_lens.Ranking.{count_of, rank}
use cache_lens.Ranking.Gate.{at}
use cache_lens.Ranking.Right.{in_counts, Falls, rank_once, raw_in_order}
use cache_lens.Ranking.Insertion.{insertion_sorting}

abbrev at_line : ℕ → Site
at_line n = (97 ∷ [], pos n)

abbrev periods : Both ℕ
periods = record { miss = 101; access = 211 }

abbrev counts : Both (List (Site × ℕ))
counts = record {
  miss = (at_line 7, 12) ∷ (at_line 9, 4) ∷ [];
  access = (at_line 7, 31) ∷ (at_line 8, 3) ∷ (at_line 9, 40) ∷ [];
}

rank_once_example :
    (weight
        (λ r. at site_order (at_line 8) r.site)
        (rank fractions insertion_sorting periods counts).ranked
      ≡ (if in_counts counts (at_line 8) && leb 30 (count_of counts.access (at_line 8))
          then 1
          else 0))
    × (weight
          (at site_order (at_line 8))
          (rank fractions insertion_sorting periods counts).insufficient
        ≡ (if in_counts counts (at_line 8) && ltb (count_of counts.access (at_line 8)) 30
            then 1
            else 0))
rank_once_example = rank_once fractions insertion_sorting periods counts (at_line 8)

-- Whole numbers in place of doubles, which compare as they should.
abbrev naturals : Doubles
naturals = record {
  Double = ℕ;
  of_nat = λ n. n;
  decimal = λ n k. n / 10 ^ k;
  to_nat = λ x. x;
  add = λ x y. x + y;
  sub = λ x y. x - y;
  mul = λ x y. x * y;
  div = λ x y. x / y;
  sqrt = λ x. x;
  less = ltb;
  leq = leb;
}

raw_in_order_example :
    ((w : Site × ℕ → ℕ)
      → weight w (rank fractions insertion_sorting periods counts).by_raw ≡ weight w counts.miss)
    × Falls (rank fractions insertion_sorting periods counts).by_raw
raw_in_order_example = raw_in_order fractions insertion_sorting periods counts
