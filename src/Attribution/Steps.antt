-- ===== src/Attribution/Steps.antt =====
-- A round of the loop adds its sample to the counts.
use cache_lens.Prelude.{
  ℕ, ◌+◌, ◌^◌, ◌≤◌, ◌<◌, ◌≡◌, refl, ap, ◌∙◌, Bool, true, false, Option, some, inl, inr, List, ◌∷◌,
  arith, length, min, max, Option-cases,
}
use cache_lens.Keys.Order.{nat_order}
use cache_lens.Keys.SortedMap.{find, adjust-IsSorted}
use cache_lens.Perf.{Sample}
use cache_lens.Elf.{TextRange, Bucket, target, other_user, kernel, unclassifiable, classify}
use cache_lens.Attribution.{
  Site, site_order, BucketCount, Attribution, Resolved, bump_bucket, count_line, look_up,
  attribute_target, attribute_bucket, attribute,
}
use cache_lens.Attribution.Cache.{IsCache, look_up-IsCache, IsCache-touch, is_some}
use cache_lens.Attribution.Counts.{
  tally, is_target, is_other_user, is_kernel, is_unclassifiable, one_if, resolves, resolves_not,
  in_bucket, IsCount, tally-le, is_target-le, count_line_lem,
}

is_other_user-le : (b : Bucket) → is_other_user b ≤ 1
is_other_user-le target = omega arith
is_other_user-le _ = omega arith

one_if-le : (b : Bool) → one_if b ≤ 1
one_if-le true = omega arith
one_if-le false = omega arith

is_kernel-le : (b : Bucket) → is_kernel b ≤ 1
is_kernel-le target = omega arith
is_kernel-le _ = omega arith

is_unclassifiable-le : (b : Bucket) → is_unclassifiable b ≤ 1
is_unclassifiable-le target = omega arith
is_unclassifiable-le _ = omega arith

module _ (resolve_ip : ℕ → Option Site) (range : TextRange) (s : Sample) (done : List Sample)
    (word : length done + 1 < 2 ^ 64) where
  in_bucket-room :
      (w : Bucket → ℕ)
      → ((b : Bucket) → w b ≤ 1)
      → tally (in_bucket resolve_ip range w) done + 1 < 2 ^ 64
  in_bucket-room w small = omega (
    arith,
    tally-le resolve_ip range (in_bucket resolve_ip range w) (λ s. small (classify s.ip range))
        done,
  )

  -- The bucket counters with the sample counted.
  abbrev BucketsRight : Attribution → BucketCount → Type 0
  BucketsRight r c =
      (c.in_target ≡ tally (in_bucket resolve_ip range is_target) (s ∷ done))
      × (c.in_other_user ≡ tally (in_bucket resolve_ip range is_other_user) (s ∷ done))
      × (c.in_kernel ≡ tally (in_bucket resolve_ip range is_kernel) (s ∷ done))
      × (c.in_unclassifiable ≡ tally (in_bucket resolve_ip range is_unclassifiable) (s ∷ done))

  buckets_right :
      (r : Attribution)
      → IsCount resolve_ip range done r
      → BucketsRight r (bump_bucket (classify s.ip range) r.bucket_count)
  unfolding bump_bucket
  buckets_right r v = by_bucket (classify s.ip range)
    where
      by_bucket :
          (b : Bucket)
          → ((bump_bucket b r.bucket_count).in_target
              ≡ is_target b + tally (in_bucket resolve_ip range is_target) done)
            × ((bump_bucket b r.bucket_count).in_other_user
                ≡ is_other_user b + tally (in_bucket resolve_ip range is_other_user) done)
            × ((bump_bucket b r.bucket_count).in_kernel
                ≡ is_kernel b + tally (in_bucket resolve_ip range is_kernel) done)
            × ((bump_bucket b r.bucket_count).in_unclassifiable
                ≡ is_unclassifiable b + tally (in_bucket resolve_ip range is_unclassifiable) done)
      by_bucket target = omega (
        arith,
        v.in_target,
        v.in_other_user,
        v.in_kernel,
        v.in_unclassifiable,
        in_bucket-room is_target is_target-le,
      )
      by_bucket other_user = omega (
        arith,
        v.in_target,
        v.in_other_user,
        v.in_kernel,
        v.in_unclassifiable,
        in_bucket-room is_other_user is_other_user-le,
      )
      by_bucket kernel = omega (
        arith,
        v.in_target,
        v.in_other_user,
        v.in_kernel,
        v.in_unclassifiable,
        in_bucket-room is_kernel is_kernel-le,
      )
      by_bucket unclassifiable = omega (
        arith,
        v.in_target,
        v.in_other_user,
        v.in_kernel,
        v.in_unclassifiable,
        in_bucket-room is_unclassifiable is_unclassifiable-le,
      )

  -- A round from `r` leaves `attribute_bucket b s.ip (entered r)`, whatever the lowest and highest
  -- address seen.
  entered : Attribution → Attribution
  entered r = record r {
    ip_lo = min r.ip_lo s.ip;
    ip_hi = max r.ip_hi s.ip;
    bucket_count = bump_bucket (classify s.ip range) r.bucket_count;
  }

  -- Outside the target a round moves the bucket's counter alone.
  outside :
      (r : Attribution) (ips : List ℕ)
      → is_target (classify s.ip range) ≡ 0
      → IsCount resolve_ip range done r
      → IsCount resolve_ip range (s ∷ done) (record (entered r) { kernel_ips = ips })
  unfolding entered
  outside r ips out v = record {
    cache = v.cache;
    lines_sorted = v.lines_sorted;
    lines = λ site. rw out (omega (arith, v.lines site));
    attributed = rw out (omega (arith, v.attributed));
    unattributed = rw out (omega (arith, v.unattributed));
    in_target = b.0;
    in_other_user = b.1;
    in_kernel = b.2;
    in_unclassifiable = b.3;
  }
    where
      b : BucketsRight r (bump_bucket (classify s.ip range) r.bucket_count)
      b = buckets_right r v

  inside :
      (r : Attribution)
      → classify s.ip range ≡ target
      → IsCount resolve_ip range done r
      → IsCount resolve_ip range (s ∷ done) (attribute_target resolve_ip s.ip (entered r))
  unfolding entered attribute_target count_line
  inside r e v = elim (Option-cases (resolve_ip s.ip)) [
    | inl lost ↦
        rw (looked.1 ∙ ap is_some lost, attribute_target)
          (record {
            cache = looked.0;
            lines_sorted = v.lines_sorted;
            lines = λ site. rw (e, lost) (omega (arith, v.lines site));
            attributed = rw (e, lost) (omega (arith, v.attributed));
            unattributed = rw (e, lost) (omega (arith, v.unattributed, not_room));
            in_target = b.0;
            in_other_user = b.1;
            in_kernel = b.2;
            in_unclassifiable = b.3;
          })
    | inr (l, there) ↦
        let here : find nat_order s.ip c.loc ≡ some l =
          looked.2 (looked.1 ∙ ap is_some there) ∙ there in
        rw (looked.1 ∙ ap is_some there, here, attribute_target)
          (record {
            cache = IsCache-touch resolve_ip s.ip l c.loc c.ok looked.0 here;
            lines_sorted = adjust-IsSorted site_order l _ r.line_counts v.lines_sorted;
            lines = λ site.
                rw (e, there)
                  (omega (
                    arith,
                    count_line_lem resolve_ip range site l r.line_counts done v.lines_sorted word
                        v.lines,
                  ));
            attributed = rw (e, there) (omega (arith, v.attributed, room));
            unattributed = rw (e, there) (omega (arith, v.unattributed));
            in_target = b.0;
            in_other_user = b.1;
            in_kernel = b.2;
            in_unclassifiable = b.3;
          })
  ]
    where
      b : BucketsRight r (bump_bucket (classify s.ip range) r.bucket_count)
      b = buckets_right r v

      c : Resolved
      c = look_up resolve_ip s.ip r.resolve_loc r.resolve_ok

      looked :
          IsCache resolve_ip c.loc c.ok
          × (c.found ≡ is_some (resolve_ip s.ip))
          × (c.found ≡ true → find nat_order s.ip c.loc ≡ resolve_ip s.ip)
      looked = look_up-IsCache resolve_ip s.ip r.resolve_loc r.resolve_ok v.cache

      not_room : tally (resolves_not resolve_ip range) done + 1 < 2 ^ 64
      not_room = omega (
        arith,
        tally-le resolve_ip range (resolves_not resolve_ip range)
            (λ t. grind (arith, is_target-le (classify t.ip range))) done,
      )

      room : tally (resolves resolve_ip range) done + 1 < 2 ^ 64
      room = omega (
        arith,
        tally-le resolve_ip range (resolves resolve_ip range)
            (λ t.
              grind
                (arith, is_target-le (classify t.ip range), one_if-le (is_some (resolve_ip t.ip))))
            done,
      )

  pub attribute-IsCount :
      (r : Attribution)
      → IsCount resolve_ip range done r
      → IsCount resolve_ip range (s ∷ done) (attribute resolve_ip range s r)
  unfolding attribute attribute_bucket entered
  attribute-IsCount r v = go (classify s.ip range) refl
    where
      go :
          (b : Bucket)
          → classify s.ip range ≡ b
          → IsCount resolve_ip range (s ∷ done) (attribute_bucket resolve_ip b s.ip (entered r))
      go target e = inside r e v
      go other_user e = outside r r.kernel_ips (ap is_target e) v
      go kernel e = outside r _ (ap is_target e) v
      go unclassifiable e = outside r r.kernel_ips (ap is_target e) v
