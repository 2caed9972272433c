-- ===== src/Elf/Samples.antt =====
-- Which addresses `classify` counts as the target's, given the file's headers.
use cache_lens.Prelude.{
  ℕ, ◌+◌, ◌/◌, ◌^◌, ◌≤◌, ◌<◌, ◌≡◌, ◌≢◌, ◌↔◌, inl, inr, refl, sym, ◌∙◌, subst, ◌-◌, true, Option,
  none, some, List, arith, Bool-cases, Option-cases, Any, All-Any,
}
use cache_lens.Elf.{
  TextRange, ProgramHeader, ElfHeader, ElfAbi, ElfFile, is_text, text_range, header_ok,
  get_target_text_range, target, kernel, unclassifiable, user_half_end, classify,
}
use cache_lens.Elf.Hull.{IsHull, Within, text_range-IsHull}

module _ (abi : ElfAbi) where
  -- An address of the user's half in a segment that the loader maps executable, and that ends within the
  -- 64-bit address space.
  abbrev pub InSegment : ℕ → ProgramHeader → Type 0
  InSegment ip ph =
      (is_text abi ph ≡ true)
      × (ph.p_vaddr ≤ ip)
      × (ip < ph.p_vaddr + ph.p_memsz)
      × (ip < user_half_end)
      × (ph.p_vaddr + ph.p_memsz < 2 ^ 64)

  -- The file was opened, its header read and accepted, and its program headers read.
  abbrev pub Loads : Option ElfFile → List ProgramHeader → Type 0
  Loads f phdrs =
      (file : ElfFile) × (eh : ElfHeader) × (f ≡ some file)
      × (file.read_header ≡ some eh)
      × (header_ok abi eh ≡ true)
      × (file.read_program_headers eh.e_phoff eh.e_phnum ≡ some phdrs)

  Loads-range :
      (f : Option ElfFile) (phdrs : List ProgramHeader)
      → Loads f phdrs
      → get_target_text_range abi f ≡ text_range abi none phdrs
  unfolding get_target_text_range
  Loads-range f phdrs (file, eh, opened, read, fine, loaded) =
      rw (opened, read, fine, loaded, get_target_text_range)

  IsHull-of_range :
      (f : Option ElfFile) (phdrs : List ProgramHeader) (r : TextRange)
      → Loads f phdrs
      → get_target_text_range abi f ≡ some r
      → IsHull abi phdrs (some r)
  IsHull-of_range f phdrs r l found =
      subst (IsHull abi phdrs) (sym (Loads-range f phdrs l) ∙ found) (text_range-IsHull abi phdrs)

  -- A range is found only if the file was opened, its header is that of a 64-bit ELF file and its
  -- program headers could be read; and it is then the hull of their executable segments.
  pub get_target_text_range-IsHull :
      (f : Option ElfFile) (r : TextRange)
      → get_target_text_range abi f ≡ some r
      → (phdrs : List ProgramHeader) × Loads f phdrs × IsHull abi phdrs (some r)
  unfolding get_target_text_range
  get_target_text_range-IsHull none r h = cc
  get_target_text_range-IsHull (some file) r h = elim (Option-cases file.read_header) [
    | inl short ↦ let no_range : Option.none ≡ some r = rw (short, get_target_text_range) at h in cc
    | inr (eh, read) ↦ elim (Bool-cases (header_ok abi eh)) [
      | inr other ↦
          let no_range : Option.none ≡ some r = rw (read, other, get_target_text_range) at h in cc
      | inl fine ↦ elim (Option-cases (file.read_program_headers eh.e_phoff eh.e_phnum)) [
        | inl cut ↦
            let no_range : Option.none ≡ some r =
              rw (read, fine, cut, get_target_text_range) at h in
            cc
        | inr (phdrs, loaded) ↦
            let l : Loads (some file) phdrs = (file, eh, refl, read, fine, loaded) in
            (phdrs, l, IsHull-of_range (some file) phdrs r l h)
      ]
    ]
  ]

  -- Every sample below 2 ^ 47 in an executable segment of the target's file, if the segment ends below
  -- 2 ^ 64, counts as the target's.
  pub classify_of_InSegment :
      (f : Option ElfFile) (phdrs : List ProgramHeader) (r : TextRange) (ip : ℕ)
      → Loads f phdrs
      → get_target_text_range abi f ≡ some r
      → Any (InSegment ip) phdrs
      → classify ip r ≡ target
  unfolding classify
  classify_of_InSegment f phdrs r ip l found here =
      All-Any (Within abi r) (InSegment ip) (classify ip r ≡ target) phdrs
        (IsHull-of_range f phdrs r l found).0 here (λ ph w seg. ground (arith, w seg.0))

-- An address is canonical if its upper 17 bits are all clear or all set. What is not canonical is
-- unclassifiable, whatever the range, and nothing else is; the canonical addresses of the upper half
-- are the kernel's; and the others are the target's exactly inside the range.
pub classify_canonical :
    (ip : ℕ) (r : TextRange)
    → ip < 2 ^ 64
    → ((classify ip r ≡ unclassifiable) ↔ ((ip / 2 ^ 47 ≢ 0) × (ip / 2 ^ 47 ≢ 2 ^ 17 - 1)))
      × ((classify ip r ≡ kernel) ↔ (ip / 2 ^ 47 ≡ 2 ^ 17 - 1))
      × ((classify ip r ≡ target) ↔ ((ip / 2 ^ 47 ≡ 0) × (r.lo ≤ ip) × (ip < r.hi)))
unfolding classify
classify_canonical ip r word = (ground arith, ground arith, ground arith)
