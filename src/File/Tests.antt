-- ===== src/File/Tests.antt =====
-- The theorems on files over a system of one file in memory.
use database_systems.Common.{
  ℕ, ◌+◌, ◌<◌, ◌%◌, ◌^◌, true, false, List, [], ◌∷◌, some, length, take, drop, ok, throws, fatal,
  Ensures, ◌≡◌, inr, refl, arith, sym, ap, some_inj, take_enough,
}
use database_systems.File.System.{System, Fallocate, extended, not_supported}
use database_systems.File.Calls.{through_int, FsFile, file_size, read_file, write_file, allocate}
use database_systems.Common.{overwrite}
use database_systems.File.Sizes.{Laws, IsAccurate, write_file-within, allocate_by_zeros, Extended}
use database_systems.File.Stale.{allocate-keeps_size}

-- Its state is the contents of the file; `tried` is what fallocate(2) comes to.
abbrev memory : Fallocate → System
memory tried = record {
  World = List ℕ;
  os_open = λ path flags mode w. (some 3, w);
  os_close = λ fd w. (true, w);
  os_unlink = λ path w. (true, w);
  os_pread = λ fd count offset w. some (take count (drop offset w));
  os_pwrite = λ fd bytes offset w. (some (length bytes), overwrite w offset bytes);
  os_fstat_size = λ fd w. some (length w);
  os_fallocate = λ fd offset count w. (tried, w);
}

memory-Laws : Laws (memory not_supported)
memory-Laws = record {
  contents = λ w fd. w;
  fstat_law = λ fd w. refl;
  pwrite_law = λ fd bytes offset k w h e. (
    omega (arith, some_inj e),
    ap (overwrite w offset) (sym (take_enough k bytes (omega (arith, some_inj e)))),
  );
  fallocate_law = λ fd offset count w e. refl;
}

abbrev file : FsFile
file = record { fd = 3; file_open = true; file_path = []; o_direct = false; size = 4 }

abbrev four : List ℕ
four = 1 ∷ 2 ∷ 3 ∷ 4 ∷ []

write_file-within_example :
    Ensures
      (λ w'.
        IsAccurate (memory not_supported) 2 memory-Laws file w'
        × (take 2 w' ≡ take 2 four)
        × (drop 3 w' ≡ drop 3 four))
      (write_file (memory not_supported) 2 file (9 ∷ []) 2 four)
unfolding memory-Laws
write_file-within_example =
    write_file-within (memory not_supported) 2 memory-Laws file (9 ∷ []) 2 four (inr refl)
      (omega arith)

allocate_by_zeros_example :
    Extended
      (memory not_supported)
      2
      memory-Laws
      file
      2
      four
      four
      (allocate (memory not_supported) 2 file 2 four)
unfolding memory-Laws
allocate_by_zeros_example =
    allocate_by_zeros (memory not_supported) 2 memory-Laws file 2 four (inr refl) refl (omega arith)
      (omega arith)

allocate-keeps_size_example :
    Ensures
      (λ r.
        ((later : List ℕ) → file_size (memory extended) 2 r.0 later ≡ ok 4)
        × ((buf : List ℕ) (n offset : ℕ) (later : List ℕ)
            → 4 < (n + offset) % 2 ^ 64
            → read_file (memory extended) 2 r.0 buf n offset later ≡ throws fatal))
      (allocate (memory extended) 2 file 2 four)
allocate-keeps_size_example =
    allocate-keeps_size (memory extended) 2 file 2 four (λ e. ground (arith, e)) refl

-- Two zeros are appended, and the size is 6 then.
zeros_appended :
    allocate (memory not_supported) 2 file 2 four
    ≡ ok (record file { size = 6 }, 1 ∷ 2 ∷ 3 ∷ 4 ∷ 0 ∷ 0 ∷ [])
unfolding allocate through_int
zeros_appended = refl
