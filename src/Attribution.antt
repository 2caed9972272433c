-- ===== src/Attribution.antt =====
-- src/main.cpp: `DwarfResolver::resolve`, `AttributionResult` and `classify_and_attribute`.
--
-- libdw is outside: `getsrc` is `dwfl_module_getsrc` (none for a null pointer) and `lineinfo` is
-- `dwfl_lineinfo` (none where it returns no file name).
pub mod Cache
pub mod Counts
pub mod Steps
pub mod Right
pub mod KernelIps
mod Tests
use cache_lens.Prelude.{
  ℕ, ◌+◌, min, max, Bool, true, false, Option, none, some, List, [], ◌∷◌, ◌++◌,
}
use cache_lens.Prelude.Words.{u64}
use cache_lens.Keys.Order.{ℤ, pos, KeyOrder, nat_order, text_order, int_order, pair_order}
use cache_lens.Keys.SortedMap.{find, adjust}
use cache_lens.Keys.Sort.{sort, unique}
use cache_lens.Perf.{Sample}
use cache_lens.Elf.{TextRange, Bucket, target, other_user, kernel, unclassifiable, classify}

-- `SourceLoc` and the pair of a file and a line by which the counts are kept.
abbrev pub Site : Type 0
Site = List ℕ × ℤ

abbrev pub site_order : KeyOrder Site
site_order = pair_order text_order int_order

-- `DwarfResolver::resolve`: false is none, and what the out parameters get otherwise is some.
pub resolve : {Line : Type 0} → (ℕ → Option Line) → (Line → Option Site) → ℕ → Option Site
resolve getsrc lineinfo ip = elim (getsrc ip) [ none ↦ none | some line ↦ lineinfo line ]

-- `bucket_count[4]`, an element for each bucket
pub record BucketCount : Type 0 where
  pub in_target : ℕ
  pub in_other_user : ℕ
  pub in_kernel : ℕ
  pub in_unclassifiable : ℕ

pub record Attribution : Type 0 where
  pub bucket_count : BucketCount
  pub kernel_ips : List ℕ
  pub line_counts : List (Site × ℕ)
  pub attributed : ℕ
  pub unattributed : ℕ
  pub ip_lo : ℕ
  pub ip_hi : ℕ
  pub resolve_loc : List (ℕ × Site)
  pub resolve_ok : List (ℕ × Bool)

abbrev pub no_attribution : Attribution
no_attribution = record {
  bucket_count = record { in_target = 0; in_other_user = 0; in_kernel = 0; in_unclassifiable = 0 };
  kernel_ips = [];
  line_counts = [];
  attributed = 0;
  unattributed = 0;
  ip_lo = 0;
  ip_hi = 0;
  resolve_loc = [];
  resolve_ok = [];
}

pub bump_bucket : Bucket → BucketCount → BucketCount
bump_bucket target c = record c { in_target = u64 (c.in_target + 1) }
bump_bucket other_user c = record c { in_other_user = u64 (c.in_other_user + 1) }
bump_bucket kernel c = record c { in_kernel = u64 (c.in_kernel + 1) }
bump_bucket unclassifiable c = record c { in_unclassifiable = u64 (c.in_unclassifiable + 1) }

-- `SourceLoc{}`, which `operator[]` puts where a key is missing.
abbrev pub no_site : Site
no_site = ([], pos 0)

abbrev pub or_else {ℓ} : {A : Type ℓ} → A → Option A → A
or_else d none = d
or_else d (some a) = a

-- `++counts[site]`
pub count_line : Site → List (Site × ℕ) → List (Site × ℕ)
count_line site counts = adjust site_order site (λ n. u64 (or_else 0 n + 1)) counts

-- The two maps that remember what was resolved.
pub record Resolved : Type 0 where
  pub found : Bool
  pub loc : List (ℕ × Site)
  pub ok : List (ℕ × Bool)

module _ (resolve_ip : ℕ → Option Site) where
  pub remember : ℕ → Option Site → List (ℕ × Site) → List (ℕ × Bool) → Resolved
  remember ip none locs oks = record {
    found = false;
    loc = locs;
    ok = adjust nat_order ip (λ _. false) oks;
  }
  remember ip (some site) locs oks = record {
    found = true;
    loc = adjust nat_order ip (λ _. site) locs;
    ok = adjust nat_order ip (λ _. true) oks;
  }

  -- From `auto cached` to the end of the test on it.
  pub look_up : ℕ → List (ℕ × Site) → List (ℕ × Bool) → Resolved
  look_up ip locs oks = elim (find nat_order ip oks) [
    | none ↦ remember ip (resolve_ip ip) locs oks
    | some found ↦ record { found = found; loc = locs; ok = oks }
  ]

  -- The branch of a sample in the target. `r.resolve_loc[ip]` inserts where the key is missing.
  pub attribute_target : ℕ → Attribution → Attribution
  attribute_target ip r =
      let c = look_up ip r.resolve_loc r.resolve_ok in
      elim c.found [
        | true ↦ record r {
          attributed = u64 (r.attributed + 1);
          line_counts = count_line (or_else no_site (find nat_order ip c.loc)) r.line_counts;
          resolve_loc = adjust nat_order ip (or_else no_site) c.loc;
          resolve_ok = c.ok;
        }
        | false ↦ record r {
          unattributed = u64 (r.unattributed + 1);
          resolve_loc = c.loc;
          resolve_ok = c.ok;
        }
      ]

  -- The rest of a round, by the sample's bucket.
  pub attribute_bucket : Bucket → ℕ → Attribution → Attribution
  attribute_bucket kernel ip r = record r { kernel_ips = r.kernel_ips ++ ip ∷ [] }
  attribute_bucket target ip r = attribute_target ip r
  attribute_bucket _ ip r = r

  pub attribute : TextRange → Sample → Attribution → Attribution
  attribute range s r = attribute_bucket (classify s.ip range) s.ip (record r {
    ip_lo = min r.ip_lo s.ip;
    ip_hi = max r.ip_hi s.ip;
    bucket_count = bump_bucket (classify s.ip range) r.bucket_count;
  })

  pub attribute_all : TextRange → List Sample → Attribution → Attribution
  attribute_all range [] r = r
  attribute_all range (s ∷ ss) r = attribute_all range ss (attribute range s r)

  pub classify_and_attribute : List Sample → TextRange → Attribution
  classify_and_attribute [] range = no_attribution
  classify_and_attribute (s ∷ ss) range =
      let r = attribute_all range (s ∷ ss) (record no_attribution { ip_lo = s.ip; ip_hi = s.ip }) in
      record r { kernel_ips = unique nat_order (sort nat_order r.kernel_ips) }
