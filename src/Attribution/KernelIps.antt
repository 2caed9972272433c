-- ===== src/Attribution/KernelIps.antt =====
-- `kernel_ips`: the addresses of the kernel's samples, each once and in order.
use cache_lens.Prelude.{
  ℕ, ◌≡◌, refl, ap, sym, ◌∙◌, Option, inl, inr, List, [], ◌∷◌, ◌++◌, append-nil, append_assoc,
  Bool-cases,
}
use cache_lens.Keys.Order.{nat_order}
use cache_lens.Keys.SortedMap.{IsSorted}
use cache_lens.Keys.Sort.{has, unique-sort}
use cache_lens.Perf.{Sample}
use cache_lens.Elf.{TextRange, Bucket, target, other_user, kernel, unclassifiable, classify}
use cache_lens.Attribution.{
  Site, Attribution, attribute_target, attribute_bucket, attribute, attribute_all,
  classify_and_attribute, look_up,
}

module _ (range : TextRange) where
  abbrev pub kernel_part : Bucket → ℕ → List ℕ
  kernel_part kernel ip = ip ∷ []
  kernel_part _ ip = []

  -- The addresses of the samples that fell into the kernel's half, as they came.
  abbrev pub kernel_addresses : List Sample → List ℕ
  kernel_addresses [] = []
  kernel_addresses (s ∷ ss) = kernel_part (classify s.ip range) s.ip ++ kernel_addresses ss

module _ (resolve_ip : ℕ → Option Site) (range : TextRange) where
  ips-target :
      (ip : ℕ) (r : Attribution) → (attribute_target resolve_ip ip r).kernel_ips ≡ r.kernel_ips
  unfolding attribute_target
  ips-target ip r = elim (Bool-cases (look_up resolve_ip ip r.resolve_loc r.resolve_ok).found) [
    | inl found ↦ rw (found, attribute_target)
    | inr not_found ↦ rw (not_found, attribute_target)
  ]

  ips-bucket :
      (b : Bucket) (ip : ℕ) (r : Attribution)
      → (attribute_bucket resolve_ip b ip r).kernel_ips ≡ r.kernel_ips ++ kernel_part range b ip
  unfolding attribute_bucket
  ips-bucket target ip r = ips-target ip r ∙ sym (append-nil r.kernel_ips)
  ips-bucket kernel ip r = refl
  ips-bucket other_user ip r = sym (append-nil r.kernel_ips)
  ips-bucket unclassifiable ip r = sym (append-nil r.kernel_ips)

  ips-attribute_all :
      (ss : List Sample) (r : Attribution)
      → (attribute_all resolve_ip range ss r).kernel_ips ≡ r.kernel_ips ++ kernel_addresses range ss
  unfolding attribute_all attribute
  ips-attribute_all [] r = sym (append-nil r.kernel_ips)
  ips-attribute_all (s ∷ ss) r =
      ips-attribute_all ss (attribute resolve_ip range s r)
      ∙ ap (λ l. l ++ kernel_addresses range ss) (ips-bucket (classify s.ip range) s.ip _)
      ∙ append_assoc r.kernel_ips (kernel_part range (classify s.ip range) s.ip)
          (kernel_addresses range ss)

  -- The kernel addresses that are reported stand in ascending order without repetition, and are
  -- those of the samples in the kernel's half, no more and no fewer.
  pub kernel_ips_right :
      (samples : List Sample)
      → let ips = (classify_and_attribute resolve_ip samples range).kernel_ips in
        IsSorted nat_order ips
        × ((ip : ℕ) → has nat_order ip ips ≡ has nat_order ip (kernel_addresses range samples))
  unfolding classify_and_attribute
  kernel_ips_right [] = (tt, λ ip. refl)
  kernel_ips_right (s ∷ ss) =
      rw (ips-attribute_all (s ∷ ss) _) (unique-sort nat_order (kernel_addresses range (s ∷ ss)))
