-- ===== src/Attribution/Right.antt =====
-- What `classify_and_attribute` returns, in terms of the samples.
use cache_lens.Prelude.{
  ℕ, ◌+◌, ◌-◌, ◌*◌, ◌^◌, ◌<◌, ◌≡◌, refl, Bool, true, false, Option, List, [], ◌∷◌, arith, length,
}
use cache_lens.Keys.SortedMap.{IsSorted, keys, find}
use cache_lens.Perf.{Sample}
use cache_lens.Elf.{TextRange, Bucket, target, other_user, kernel, unclassifiable, classify}
use cache_lens.Attribution.{
  Site, site_order, Attribution, no_attribution, or_else, attribute, attribute_all,
  classify_and_attribute,
}
use cache_lens.Attribution.Cache.{is_some}
use cache_lens.Attribution.Counts.{
  tally, is_target, is_other_user, is_kernel, is_unclassifiable, one_if, hits, resolves,
  resolves_not, in_bucket, IsCount,
}
use cache_lens.Attribution.Steps.{attribute-IsCount}

-- The samples seen, the last one first.
onto : List Sample → List Sample → List Sample
onto [] done = done
onto (s ∷ ss) done = onto ss (s ∷ done)

tally-onto :
    (w : Sample → ℕ) (ss done : List Sample) → tally w (onto ss done) ≡ tally w ss + tally w done
unfolding onto
tally-onto w [] done = omega arith
tally-onto w (s ∷ ss) done = omega (arith, tally-onto w ss (s ∷ done))

module _ (resolve_ip : ℕ → Option Site) (range : TextRange) where
  attribute_all-IsCount :
      (ss done : List Sample) (r : Attribution)
      → IsCount resolve_ip range done r
      → length done + length ss < 2 ^ 64
      → IsCount resolve_ip range (onto ss done) (attribute_all resolve_ip range ss r)
  unfolding onto attribute_all
  attribute_all-IsCount [] done r v word = v
  attribute_all-IsCount (s ∷ ss) done r v word =
      attribute_all-IsCount ss (s ∷ done) (attribute resolve_ip range s r)
        (attribute-IsCount resolve_ip range s done (omega arith) r v) (omega arith)

  start-IsCount :
      (lo hi : ℕ) → IsCount resolve_ip range [] (record no_attribution { ip_lo = lo; ip_hi = hi })
  unfolding find
  start-IsCount lo hi = record {
    cache = record {
      locs_sorted = tt;
      oks_sorted = tt;
      oks_right = λ ip b h. cc;
      locs_right = λ ip h. cc;
    };
    lines_sorted = tt;
    lines = λ site. refl;
    attributed = refl;
    unattributed = refl;
    in_target = refl;
    in_other_user = refl;
    in_kernel = refl;
    in_unclassifiable = refl;
  }

  classify_and_attribute-IsCount :
      (samples : List Sample)
      → length samples < 2 ^ 64
      → IsCount resolve_ip range (onto samples []) (classify_and_attribute resolve_ip samples range)
  unfolding classify_and_attribute onto
  classify_and_attribute-IsCount [] word = start-IsCount 0 0
  classify_and_attribute-IsCount (s ∷ ss) word =
      let v = attribute_all-IsCount (s ∷ ss) [] _ (start-IsCount s.ip s.ip) (omega arith) in
      record {
        cache = v.cache;
        lines_sorted = v.lines_sorted;
        lines = v.lines;
        attributed = v.attributed;
        unattributed = v.unattributed;
        in_target = v.in_target;
        in_other_user = v.in_other_user;
        in_kernel = v.in_kernel;
        in_unclassifiable = v.in_unclassifiable;
      }

  -- With fewer than 2 ^ 64 samples, the count of each site is the number of samples in the target's
  -- range whose address the resolver places there, though an address is resolved once and then
  -- remembered; and the sites stand in order.
  pub line_counts_right :
      (samples : List Sample)
      → length samples < 2 ^ 64
      → ((site : Site)
          → or_else 0
              (find site_order site (classify_and_attribute resolve_ip samples range).line_counts)
            ≡ tally (hits resolve_ip range site) samples)
        × IsSorted site_order
            (keys site_order (classify_and_attribute resolve_ip samples range).line_counts)
  line_counts_right samples word =
      let v = classify_and_attribute-IsCount samples word in
      (
        λ site. omega (arith, v.lines site, tally-onto (hits resolve_ip range site) samples []),
        v.lines_sorted,
      )

  one_bucket :
      (samples : List Sample)
      → tally (in_bucket resolve_ip range is_target) samples
          + tally (in_bucket resolve_ip range is_other_user) samples
          + tally (in_bucket resolve_ip range is_kernel) samples
          + tally (in_bucket resolve_ip range is_unclassifiable) samples
        ≡ length samples
  one_bucket [] = refl
  one_bucket (s ∷ ss) = omega (arith, one_bucket ss, one (classify s.ip range))
    where
      one : (b : Bucket) → is_target b + is_other_user b + is_kernel b + is_unclassifiable b ≡ 1
      one target = refl
      one other_user = refl
      one kernel = refl
      one unclassifiable = refl

  resolved_or_not :
      (samples : List Sample)
      → tally (resolves resolve_ip range) samples + tally (resolves_not resolve_ip range) samples
        ≡ tally (in_bucket resolve_ip range is_target) samples
  resolved_or_not [] = refl
  resolved_or_not (s ∷ ss) = omega (
    arith,
    resolved_or_not ss,
    split (is_target (classify s.ip range)) (is_some (resolve_ip s.ip)),
  )
    where
      split : (n : ℕ) (b : Bool) → n * one_if b + n * (1 - one_if b) ≡ n
      split n true = omega arith
      split n false = omega arith

  -- With fewer than 2 ^ 64 samples, each is counted in one bucket, those of the target are either
  -- attributed or unattributed, and the attributed ones are those that the resolver places.
  pub buckets_right :
      (samples : List Sample)
      → length samples < 2 ^ 64
      → let r = classify_and_attribute resolve_ip samples range in
        (r.bucket_count.in_target + r.bucket_count.in_other_user + r.bucket_count.in_kernel
            + r.bucket_count.in_unclassifiable
          ≡ length samples)
        × (r.attributed + r.unattributed ≡ r.bucket_count.in_target)
        × (r.attributed ≡ tally (resolves resolve_ip range) samples)
  buckets_right samples word =
      let v = classify_and_attribute-IsCount samples word in
      omega (
        arith,
        v.in_target,
        v.in_other_user,
        v.in_kernel,
        v.in_unclassifiable,
        v.attributed,
        v.unattributed,
        one_bucket samples,
        resolved_or_not samples,
        tally-onto (in_bucket resolve_ip range is_target) samples [],
        tally-onto (in_bucket resolve_ip range is_other_user) samples [],
        tally-onto (in_bucket resolve_ip range is_kernel) samples [],
        tally-onto (in_bucket resolve_ip range is_unclassifiable) samples [],
        tally-onto (resolves resolve_ip range) samples [],
        tally-onto (resolves_not resolve_ip range) samples [],
      )
