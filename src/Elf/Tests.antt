-- ===== src/Elf/Tests.antt =====
-- A file with two executable segments and one of data between them.
use cache_lens.Prelude.{
  ◌≡◌, ◌≢◌, ◌↔◌, ◌/◌, ◌^◌, ◌-◌, ◌≤◌, ◌<◌, refl, inl, inr, some, List, [], ◌∷◌, arith,
}
use cache_lens.Elf.{
  TextRange, ProgramHeader, ElfAbi, ElfFile, same_bytes, is_text, widen, text_range, header_ok,
  get_target_text_range, target, kernel, unclassifiable, classify,
}
use cache_lens.Elf.Hull.{IsHull}
use cache_lens.Elf.Samples.{
  Loads, get_target_text_range-IsHull, classify_of_InSegment, classify_canonical,
}

abbrev elf : ElfAbi
elf = record { magic = 0x7f ∷ 0x45 ∷ 0x4c ∷ 0x46 ∷ []; class64 = 2; pt_load = 1; pf_x = 1 }

abbrev code : ProgramHeader
code = record { p_type = 1; p_flags = 5; p_vaddr = 0x401000; p_memsz = 0x200 }

abbrev rodata : ProgramHeader
rodata = record { p_type = 1; p_flags = 4; p_vaddr = 0x300000; p_memsz = 0x100 }

abbrev plt : ProgramHeader
plt = record { p_type = 1; p_flags = 5; p_vaddr = 0x400800; p_memsz = 0x40 }

abbrev phdrs : List ProgramHeader
phdrs = code ∷ rodata ∷ plt ∷ []

abbrev file : ElfFile
file = record {
  read_header =
      some (record {
        e_ident = 0x7f ∷ 0x45 ∷ 0x4c ∷ 0x46 ∷ [];
        e_class = 2;
        e_phoff = 64;
        e_phnum = 3;
      });
  read_program_headers = λ off n. some phdrs;
}

abbrev range : TextRange
range = record { lo = 0x400800; hi = 0x401200 }

file-range : get_target_text_range elf (some file) ≡ some range
unfolding get_target_text_range text_range widen is_text header_ok same_bytes
file-range = refl

file-Loads : Loads elf (some file) phdrs
unfolding header_ok same_bytes
file-Loads = (file, _, refl, refl, refl, refl)

get_target_text_range-IsHull_example :
    (ps : List ProgramHeader) × Loads elf (some file) ps × IsHull elf ps (some range)
get_target_text_range-IsHull_example = get_target_text_range-IsHull elf (some file) range file-range

classify_of_InSegment_example : classify 0x400810 range ≡ target
unfolding is_text
classify_of_InSegment_example =
    classify_of_InSegment elf (some file) phdrs range 0x400810 file-Loads file-range
      (inr (inr (inl (refl, omega arith, omega arith, omega arith, omega arith))))

classify_canonical_example :
    ((classify 0x401100 range ≡ unclassifiable)
      ↔ ((0x401100 / 2 ^ 47 ≢ 0) × (0x401100 / 2 ^ 47 ≢ 2 ^ 17 - 1)))
    × ((classify 0x401100 range ≡ kernel) ↔ (0x401100 / 2 ^ 47 ≡ 2 ^ 17 - 1))
    × ((classify 0x401100 range ≡ target)
        ↔ ((0x401100 / 2 ^ 47 ≡ 0) × (range.lo ≤ 0x401100) × (0x401100 < range.hi)))
classify_canonical_example = classify_canonical 0x401100 range (omega arith)
