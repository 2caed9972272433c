-- ===== src/Main/Tests.antt =====
-- The whole program on the session of two rounds, on one CPU.
use cache_lens.Prelude.{ℕ, refl, [], ◌∷◌, true, none, some, ok, arith, length}
use cache_lens.Keys.Order.{pos}
use cache_lens.Doubles.Fractions.{fractions}
use cache_lens.Elf.{ElfAbi, ElfFile}
use cache_lens.Drain.Linux.{linux}
use cache_lens.Setup.{Strtoll, period_flag, dashes, no_file, positive}
use cache_lens.Session.{exited, CountReadFormat}
use cache_lens.Session.Example.{
  tracks, all_records, rounds, shown_late, rounds-Runs, all_records-IsTrack,
}
use cache_lens.System.{PerfNumbers}
use cache_lens.System.Post.{Post}
use cache_lens.Launch.{Errnos, RingAnswer}
use cache_lens.Ranking.Insertion.{insertion_sorting}
use cache_lens.Main.{for_cpus, World, main, measurement}
use cache_lens.Main.Rings.{GivenBack, gives_back}
use cache_lens.Main.Exact.{IsRun, main-IsRun}

abbrev numbers : PerfNumbers
numbers = record {
  type_hardware = 0;
  hw_cache_misses = 3;
  hw_cache_references = 2;
  format_total_time_enabled = 1;
  format_total_time_running = 2;
  sample_ip = 1;
  sample_tid = 2;
  sample_period_bit = 256;
}

abbrev errnos : Errnos
errnos = record { eacces = 13; eperm = 1; enoent = 2 }

abbrev elf : ElfAbi
elf = record { magic = 127 ∷ 69 ∷ 76 ∷ 70 ∷ []; class64 = 2; pt_load = 1; pf_x = 1 }

abbrev target : ElfFile
target = record {
  read_header =
      some (record { e_ident = 127 ∷ 69 ∷ 76 ∷ 70 ∷ []; e_class = 2; e_phoff = 64; e_phnum = 1 });
  read_program_headers =
      λ off n. some (record { p_type = 1; p_flags = 5; p_vaddr = 4096; p_memsz = 512 } ∷ []);
}

abbrev number_read : Strtoll
number_read t = (pos 10007, length t)

abbrev answer : ℕ → ℕ → ℕ → RingAnswer
answer fd base size = record {
  descriptor = ok fd;
  page_size = pos 4096;
  base = some base;
  data_offset = 4096;
  data_size = size;
}

abbrev counts : CountReadFormat
counts = record { value = 14; time_enabled = 1000; time_running = 1000 }

abbrev world : World fractions
world = record {
  strtoll = number_read;
  args = period_flag ∷ (49 ∷ 48 ∷ 48 ∷ 48 ∷ 55 ∷ []) ∷ dashes ∷ (97 ∷ []) ∷ [];
  nproc = pos 1;
  elf_file = some target;
  dwfl = some (some (λ ip. some (100 ∷ [], pos 9)));
  rate_file = no_file;
  calibration = record {
    pid = some 3;
    stop = some true;
    descriptors = record { miss = ok 3; access = ok 4 };
    resumes = true;
    ended = some (exited 0);
    reads = record { miss = none; access = none };
  };
  prime_fuel = 8;
  pid = some 4;
  stop = some true;
  rings = record { miss = λ cpu. answer 5 65536 64; access = λ cpu. answer 6 131072 4 };
  resumes = true;
  rounds = rounds;
  final = shown_late;
  reads = record { miss = some counts ∷ []; access = some counts ∷ [] };
  round_times = [];
}

main-IsRun_example :
    IsRun fractions linux numbers errnos elf insertion_sorting 1 world 1
      (tracks all_records)
      (main fractions linux numbers errnos elf insertion_sorting 1 world).result
unfolding positive for_cpus
main-IsRun_example =
    main-IsRun fractions linux numbers errnos elf insertion_sorting 1 world 1 (tracks all_records)
      rounds-Runs all_records-IsTrack (omega arith) (omega arith) refl

gives_back_example :
    Post
      (λ m calls. GivenBack calls)
      (measurement fractions linux numbers errnos elf insertion_sorting 1 world
        (record { miss = 10007; access = 10007 })
        1)
gives_back_example =
    gives_back fractions linux numbers errnos elf insertion_sorting 1 world
      (record { miss = 10007; access = 10007 }) 1
