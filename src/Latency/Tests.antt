-- ===== src/Latency/Tests.antt =====
-- Five latencies, out of order.
use cache_lens.Prelude.{◌≡◌, refl, some, List, [], ◌∷◌, arith}
use cache_lens.Keys.Order.{ℤ, pos}
use cache_lens.Keys.Sort.{put, sort}
use cache_lens.Doubles.Fractions.{fractions}
use cache_lens.Latency.{element_at, index_of, compute_percentiles}
use cache_lens.Latency.Ranks.{HasRank, percentiles_rank}

abbrev latencies : List ℤ
latencies = pos 30 ∷ pos 10 ∷ pos 50 ∷ pos 20 ∷ pos 40 ∷ []

median : (compute_percentiles fractions latencies).p50 ≡ some (pos 30)
unfolding compute_percentiles index_of element_at sort put
median = refl

percentiles_rank_example :
    let p = compute_percentiles fractions latencies in
    HasRank latencies (index_of fractions (50, 100) 5) p.p50
    × HasRank latencies (index_of fractions (99, 100) 5) p.p99
    × HasRank latencies (index_of fractions (999, 1000) 5) p.p999
    × HasRank latencies (index_of fractions (9999, 10000) 5) p.p9999
    × HasRank latencies 4 p.max_latency
percentiles_rank_example = percentiles_rank fractions latencies (omega arith) (omega arith)
