-- ===== src/Elf.antt =====
-- src/main.cpp: `get_target_text_range` and `classify`.
--
-- What the operating system returns for the target's path is the argument: no file, or one whose
-- reads of the ELF header and of the program headers give their contents or fall short. The numbers
-- of <elf.h> are the record `ElfAbi`.
pub mod Hull
pub mod Samples
mod Tests
use Prim.Native.Nat.{bit_and}
use cache_lens.Prelude.{
  ℕ, ◌+◌, ◌<◌, min, max, Bool, true, false, ◌&&◌, not, Option, none, some, List, [], ◌∷◌, ltb, leb,
  ◌==◌, if◌then◌else◌, take, length,
}
use cache_lens.Prelude.Words.{u64}

pub record TextRange : Type 0 where
  pub lo : ℕ
  pub hi : ℕ

-- `Elf64_Phdr`, the fields that are read
pub record ProgramHeader : Type 0 where
  pub p_type : ℕ
  pub p_flags : ℕ
  pub p_vaddr : ℕ
  pub p_memsz : ℕ

-- `Elf64_Ehdr`, the fields that are read
pub record ElfHeader : Type 0 where
  pub e_ident : List ℕ
  pub e_class : ℕ
  pub e_phoff : ℕ
  pub e_phnum : ℕ

pub record ElfAbi : Type 0 where
  pub magic : List ℕ
  pub class64 : ℕ
  pub pt_load : ℕ
  pub pf_x : ℕ

-- `lseek` to an offset with a `read` of that many program headers is one function.
pub record ElfFile : Type 0 where
  pub read_header : Option ElfHeader
  pub read_program_headers : ℕ → ℕ → Option (List ProgramHeader)

-- `memcmp(a, b, n) == 0` for the `n` bytes of `b`
pub same_bytes : List ℕ → List ℕ → Bool
same_bytes [] [] = true
same_bytes [] (y ∷ ys) = false
same_bytes (x ∷ xs) [] = true
same_bytes (x ∷ xs) (y ∷ ys) = (x == y) && same_bytes xs ys

module _ (abi : ElfAbi) where
  pub is_text : ProgramHeader → Bool
  is_text ph = (ph.p_type == abi.pt_load) && not (bit_and ph.p_flags abi.pf_x == 0)

  -- One round of the loop over the program headers; `none` is `found == false`.
  pub widen : Option TextRange → ProgramHeader → Option TextRange
  widen out ph =
      let seg_lo = ph.p_vaddr in
      let seg_hi = u64 (ph.p_vaddr + ph.p_memsz) in
      if is_text ph
      then (elim out [
        | none ↦ some (record { lo = seg_lo; hi = seg_hi })
        | some r ↦ some (record { lo = min r.lo seg_lo; hi = max r.hi seg_hi })
      ])
      else out

  pub text_range : Option TextRange → List ProgramHeader → Option TextRange
  text_range out [] = out
  text_range out (ph ∷ phdrs) = text_range (widen out ph) phdrs

  pub header_ok : ElfHeader → Bool
  header_ok eh = same_bytes eh.e_ident abi.magic && (eh.e_class == abi.class64)

  pub get_target_text_range : Option ElfFile → Option TextRange
  get_target_text_range none = none
  get_target_text_range (some file) = elim file.read_header [
    | none ↦ none
    | some eh ↦
        if header_ok eh
        then (elim (file.read_program_headers eh.e_phoff eh.e_phnum) [
          | none ↦ none
          | some phdrs ↦ text_range none phdrs
        ])
        else none
  ]

pub data Bucket : Type 0 where
  target other_user kernel unclassifiable : Bucket

abbrev pub kernel_half_start : ℕ
kernel_half_start = 0xffff_8000_0000_0000

abbrev pub user_half_end : ℕ
user_half_end = 0x0000_8000_0000_0000

unfoldable pub classify : ℕ → TextRange → Bucket
classify ip range =
    if leb kernel_half_start ip
    then kernel
    else if leb user_half_end ip
    then unclassifiable
    else if leb range.lo ip && ltb ip range.hi
    then target
    else other_user
