-- ===== src/Attribution/Cache.antt =====
-- What is remembered of an address is what the resolver says of it.
use cache_lens.Prelude.{
  ℕ, ◌≡◌, refl, ap, ◌∙◌, Bool, true, false, Option, none, some, Option-cases, inl, inr, List, arith,
}
use cache_lens.Keys.Order.{nat_order}
use cache_lens.Keys.SortedMap.{IsSorted, keys, find, adjust, find-adjust, adjust-IsSorted}
use cache_lens.Attribution.{Site, no_site, or_else, remember, look_up}

abbrev pub is_some {ℓ} : {A : Type ℓ} → Option A → Bool
is_some none = false
is_some (some a) = true

module _ (resolve_ip : ℕ → Option Site) where
  pub record IsCache (locs : List (ℕ × Site)) (oks : List (ℕ × Bool)) : Type 0 where
    pub locs_sorted : IsSorted nat_order (keys nat_order locs)
    pub oks_sorted : IsSorted nat_order (keys nat_order oks)
    pub oks_right :
        (ip : ℕ) (b : Bool) → find nat_order ip oks ≡ some b → b ≡ is_some (resolve_ip ip)
    pub locs_right :
        (ip : ℕ) → find nat_order ip oks ≡ some true → find nat_order ip locs ≡ resolve_ip ip

  IsCache-remember :
      (ip : ℕ) (site : Option Site) (locs : List (ℕ × Site)) (oks : List (ℕ × Bool))
      → resolve_ip ip ≡ site
      → IsCache locs oks
      → let c = remember resolve_ip ip site locs oks in
        IsCache c.loc c.ok
        × (c.found ≡ is_some site)
        × (c.found ≡ true → find nat_order ip c.loc ≡ site)
  unfolding remember
  IsCache-remember ip none locs oks e v = (
    record {
      locs_sorted = v.locs_sorted;
      oks_sorted = adjust-IsSorted nat_order ip (λ _. false) oks v.oks_sorted;
      oks_right = λ j b h.
          ground (arith, v.oks_right j b, find-adjust nat_order j ip (λ _. false) oks v.oks_sorted);
      locs_right = λ j h.
          ground (arith, v.locs_right j, find-adjust nat_order j ip (λ _. false) oks v.oks_sorted);
    },
    refl,
    λ h. cc,
  )
  IsCache-remember ip (some site) locs oks e v = (
    record {
      locs_sorted = adjust-IsSorted nat_order ip (λ _. site) locs v.locs_sorted;
      oks_sorted = adjust-IsSorted nat_order ip (λ _. true) oks v.oks_sorted;
      oks_right = λ j b h.
          ground (arith, v.oks_right j b, find-adjust nat_order j ip (λ _. true) oks v.oks_sorted);
      locs_right = λ j h. ground (
        arith,
        v.locs_right j,
        find-adjust nat_order j ip (λ _. true) oks v.oks_sorted,
        find-adjust nat_order j ip (λ _. site) locs v.locs_sorted,
      );
    },
    refl,
    λ h. ground (arith, find-adjust nat_order ip ip (λ _. site) locs v.locs_sorted),
  )

  -- With a right cache a look-up answers as the resolver does, and leaves a right cache.
  pub look_up-IsCache :
      (ip : ℕ) (locs : List (ℕ × Site)) (oks : List (ℕ × Bool))
      → IsCache locs oks
      → let c = look_up resolve_ip ip locs oks in
        IsCache c.loc c.ok
        × (c.found ≡ is_some (resolve_ip ip))
        × (c.found ≡ true → find nat_order ip c.loc ≡ resolve_ip ip)
  unfolding look_up
  look_up-IsCache ip locs oks v = elim (Option-cases (find nat_order ip oks)) [
    | inl new ↦ rw (new, look_up) (IsCache-remember ip (resolve_ip ip) locs oks refl v)
    | inr (b, old) ↦
        rw (old, look_up) (v, v.oks_right ip b old, λ h. v.locs_right ip (old ∙ ap some h))
  ]

  -- `operator[]` at a key that is there changes nothing that is looked up.
  pub IsCache-touch :
      (ip : ℕ) (site : Site) (locs : List (ℕ × Site)) (oks : List (ℕ × Bool))
      → IsCache locs oks
      → find nat_order ip locs ≡ some site
      → IsCache (adjust nat_order ip (or_else no_site) locs) oks
  IsCache-touch ip site locs oks v there = record {
    locs_sorted = adjust-IsSorted nat_order ip (or_else no_site) locs v.locs_sorted;
    oks_sorted = v.oks_sorted;
    oks_right = v.oks_right;
    locs_right = λ j h.
        ground
          (arith, v.locs_right j, find-adjust nat_order j ip (or_else no_site) locs v.locs_sorted);
  }
