-- ===== src/Attribution/Tests.antt =====
-- Five samples: two on one line, one that no line is known for, one in the kernel, one in a library.
use cache_lens.Prelude.{
  ℕ, ◌≡◌, ◌+◌, refl, Option, none, some, List, [], ◌∷◌, arith, ◌==◌, if◌then◌else◌,
}
use cache_lens.Keys.Order.{nat_order, pos}
use cache_lens.Keys.SortedMap.{IsSorted, keys, find, adjust}
use cache_lens.Keys.Sort.{has}
use cache_lens.Perf.{Sample}
use cache_lens.Elf.{TextRange}
use cache_lens.Attribution.{
  Site, site_order, or_else, classify_and_attribute, attribute_all, attribute, attribute_bucket,
  attribute_target, look_up, remember, count_line,
}
use cache_lens.Attribution.Counts.{tally, hits, resolves}
use cache_lens.Attribution.Right.{line_counts_right, buckets_right}
use cache_lens.Attribution.KernelIps.{kernel_addresses, kernel_ips_right}

abbrev range : TextRange
range = record { lo = 0x401000; hi = 0x402000 }

abbrev at_ip : ℕ → Sample
at_ip ip = record { ip = ip; pid = 7; tid = 7; period = 101 }

abbrev line_43 : Site
line_43 = (109 ∷ 97 ∷ [], pos 43)

abbrev table : ℕ → Option Site
table ip = if ip == 0x401ff0 then none else some line_43

abbrev samples : List Sample
samples =
    at_ip 0x401100
    ∷ at_ip 0x401104
    ∷ at_ip 0x401ff0
    ∷ at_ip 0xffff_8000_0000_1000
    ∷ at_ip 0x7f00_0000
    ∷ []

counted_lines : (classify_and_attribute table samples range).line_counts ≡ (line_43, 2) ∷ []
unfolding classify_and_attribute attribute_all attribute attribute_bucket attribute_target look_up
    remember count_line find adjust cache_lens.Elf.classify
counted_lines = refl

line_counts_right_example :
    ((site : Site)
      → or_else 0 (find site_order site (classify_and_attribute table samples range).line_counts)
        ≡ tally (hits table range site) samples)
    × IsSorted site_order (keys site_order (classify_and_attribute table samples range).line_counts)
line_counts_right_example = line_counts_right table range samples (omega arith)

buckets_right_example :
    let r = classify_and_attribute table samples range in
    (r.bucket_count.in_target + r.bucket_count.in_other_user + r.bucket_count.in_kernel
        + r.bucket_count.in_unclassifiable
      ≡ 5)
    × (r.attributed + r.unattributed ≡ r.bucket_count.in_target)
    × (r.attributed ≡ tally (resolves table range) samples)
buckets_right_example = buckets_right table range samples (omega arith)

kernel_ips_right_example :
    let ips = (classify_and_attribute table samples range).kernel_ips in
    IsSorted nat_order ips
    × ((ip : ℕ) → has nat_order ip ips ≡ has nat_order ip (kernel_addresses range samples))
kernel_ips_right_example = kernel_ips_right table range samples
