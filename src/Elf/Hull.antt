-- ===== src/Elf/Hull.antt =====
-- The text range is the hull of the executable segments, and what lies in one is `target`.
use cache_lens.Prelude.{
  ℕ, ◌+◌, ◌≤◌, ◌≡◌, ◌⊎◌, inl, inr, refl, sym, min, max, true, false, Option, none, some, List, [],
  ◌∷◌, arith, Bool-cases, leb, leb→le, leb-false, All, Any,
}
use cache_lens.Prelude.Words.{u64}
use cache_lens.Elf.{TextRange, ProgramHeader, ElfAbi, is_text, widen, text_range}

module _ (abi : ElfAbi) where
  abbrev pub Within : TextRange → ProgramHeader → Type 0
  Within r ph = is_text abi ph ≡ true → (r.lo ≤ ph.p_vaddr) × (u64 (ph.p_vaddr + ph.p_memsz) ≤ r.hi)

  abbrev pub StartsAt : ℕ → ProgramHeader → Type 0
  StartsAt lo ph = (is_text abi ph ≡ true) × (ph.p_vaddr ≡ lo)

  abbrev pub StopsAt : ℕ → ProgramHeader → Type 0
  StopsAt hi ph = (is_text abi ph ≡ true) × (u64 (ph.p_vaddr + ph.p_memsz) ≡ hi)

  -- A range is the hull of the executable segments: it holds each, and begins and ends with one.
  -- No range stands for no such segment.
  abbrev pub IsHull : List ProgramHeader → Option TextRange → Type 0
  IsHull phdrs none = All (λ ph. is_text abi ph ≡ false) phdrs
  IsHull phdrs (some r) =
      All (Within r) phdrs × Any (StartsAt r.lo) phdrs × Any (StopsAt r.hi) phdrs

  -- What the loop is to give from a range that it has already.
  abbrev Widened : TextRange → List ProgramHeader → Option TextRange → Type 0
  Widened s phdrs none = ⊥
  Widened s phdrs (some r) =
      (r.lo ≤ s.lo)
      × (s.hi ≤ r.hi)
      × All (Within r) phdrs
      × ((r.lo ≡ s.lo) ⊎ Any (StartsAt r.lo) phdrs)
      × ((r.hi ≡ s.hi) ⊎ Any (StopsAt r.hi) phdrs)

  joined : TextRange → ProgramHeader → TextRange
  joined s ph = record { lo = min s.lo ph.p_vaddr; hi = max s.hi (u64 (ph.p_vaddr + ph.p_memsz)) }

  Widened-text :
      (s : TextRange) (ph : ProgramHeader) (phdrs : List ProgramHeader) (o : Option TextRange)
      → is_text abi ph ≡ true
      → Widened (joined s ph) phdrs o
      → Widened s (ph ∷ phdrs) o
  unfolding joined
  Widened-text s ph phdrs none text w = w
  Widened-text s ph phdrs (some r) text (lo, hi, all, first, last) = (
    omega arith,
    omega arith,
    (λ _. omega arith, all),
    elim first [
      | inl e ↦ elim (Bool-cases (leb s.lo ph.p_vaddr)) [
        | inl below ↦ inl (omega (arith, leb→le _ _ below))
        | inr above ↦ inr (inl (text, omega (arith, leb-false _ _ above)))
      ]
      | inr a ↦ inr (inr a)
    ],
    elim last [
      | inl e ↦ elim (Bool-cases (leb (u64 (ph.p_vaddr + ph.p_memsz)) s.hi)) [
        | inl below ↦ inl (omega (arith, leb→le _ _ below))
        | inr above ↦ inr (inl (text, omega (arith, leb-false _ _ above)))
      ]
      | inr a ↦ inr (inr a)
    ],
  )

  Widened-other :
      (s : TextRange) (ph : ProgramHeader) (phdrs : List ProgramHeader) (o : Option TextRange)
      → is_text abi ph ≡ false
      → Widened s phdrs o
      → Widened s (ph ∷ phdrs) o
  Widened-other s ph phdrs none not_text w = w
  Widened-other s ph phdrs (some r) not_text (lo, hi, all, first, last) = (
    lo,
    hi,
    (λ text. cc, all),
    elim first [ inl e ↦ inl e | inr a ↦ inr (inr a) ],
    elim last [ inl e ↦ inl e | inr a ↦ inr (inr a) ],
  )

  text_range-Widened :
      (s : TextRange) (phdrs : List ProgramHeader) → Widened s phdrs (text_range abi (some s) phdrs)
  unfolding text_range widen joined
  text_range-Widened s [] = (omega arith, omega arith, tt, inl refl, inl refl)
  text_range-Widened s (ph ∷ phdrs) = elim (Bool-cases (is_text abi ph)) [
    | inl text ↦
        rw (text, text_range)
          (Widened-text s ph phdrs _ text (text_range-Widened (joined s ph) phdrs))
    | inr not_text ↦
        rw (not_text, text_range) (Widened-other s ph phdrs _ not_text (text_range-Widened s phdrs))
  ]

  IsHull-text :
      (ph : ProgramHeader) (phdrs : List ProgramHeader) (o : Option TextRange)
      → is_text abi ph ≡ true
      → Widened (record { lo = ph.p_vaddr; hi = u64 (ph.p_vaddr + ph.p_memsz) }) phdrs o
      → IsHull (ph ∷ phdrs) o
  IsHull-text ph phdrs none text w = absurd w
  IsHull-text ph phdrs (some r) text (lo, hi, all, first, last) = (
    (λ _. omega arith, all),
    elim first [ inl e ↦ inl (text, sym e) | inr a ↦ inr a ],
    elim last [ inl e ↦ inl (text, sym e) | inr a ↦ inr a ],
  )

  IsHull-other :
      (ph : ProgramHeader) (phdrs : List ProgramHeader) (o : Option TextRange)
      → is_text abi ph ≡ false
      → IsHull phdrs o
      → IsHull (ph ∷ phdrs) o
  IsHull-other ph phdrs none not_text h = (not_text, h)
  IsHull-other ph phdrs (some r) not_text (all, first, last) =
      ((λ text. cc, all), inr first, inr last)

  -- The loop over the program headers ends with the hull of the executable segments, and finds no
  -- range exactly if there is no such segment.
  pub text_range-IsHull : (phdrs : List ProgramHeader) → IsHull phdrs (text_range abi none phdrs)
  unfolding text_range widen
  text_range-IsHull [] = tt
  text_range-IsHull (ph ∷ phdrs) = elim (Bool-cases (is_text abi ph)) [
    | inl text ↦ rw (text, text_range) (IsHull-text ph phdrs _ text (text_range-Widened _ phdrs))
    | inr not_text ↦
        rw (not_text, text_range) (IsHull-other ph phdrs _ not_text (text_range-IsHull phdrs))
  ]
