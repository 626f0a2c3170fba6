-- ===== src/File/Calls.antt =====
-- FSFile of src/storage/FSFile.cpp and include/storage/FSFile.h.
use database_systems.Common.{
  ℕ, ◌+◌, ◌-◌, ◌%◌, ◌^◌, Bool, true, false, not, List, ◌++◌, Option, none, some, length, drop,
  replicate, leb, ltb, ◌==◌, if◌then◌else◌, Result, ok, throws, undefined, ◌*◌, fatal, ◌>>=◌, ◌>>◌,
  check,
}
use database_systems.File.System.{System, OpenFlags, extended, not_supported, failed}

-- `~(size_t) 0`, the size that is not known.
abbrev pub no_size : ℕ
no_size = 2 ^ 64 - 1

pub record FsFile : Type 0 where
  pub fd : ℕ
  pub file_open : Bool
  pub file_path : List ℕ
  pub o_direct : Bool
  pub size : ℕ

-- The constructor.
unfoldable pub new_file : List ℕ → ℕ → Bool → FsFile
new_file path fd o_direct = record {
  fd = fd;
  file_open = true;
  file_path = path;
  o_direct = o_direct;
  size = no_size;
}

-- A size as an `int`, and that as an `off_t` or a `size_t` again.
unfoldable pub through_int : ℕ → ℕ
through_int n = if leb (2 ^ 31) (n % 2 ^ 32) then n % 2 ^ 32 + (2 ^ 64 - 2 ^ 32) else n % 2 ^ 32

module _ (system : System) (page_size : ℕ) where
  open system use {World}

  -- `Size`.
  unfoldable pub file_size : FsFile → World → Result ℕ
  file_size f w =
      if not (f.size == no_size)
      then ok f.size
      else elim (system.os_fstat_size f.fd w) [ none ↦ throws fatal | some n ↦ ok n ]

  -- `Open`; no file is the null pointer.
  unfoldable pub open_file : List ℕ → OpenFlags → ℕ → World → Result (Option FsFile × World)
  unfolding new_file file_size
  open_file path flags mode w =
      let opened = system.os_open path flags mode w in
      elim opened.0 [
        | none ↦ ok (none, opened.1)
        | some fd ↦ do
          n ← file_size (new_file path fd flags.direct) opened.1
          ok (some (record (new_file path fd flags.direct) { size = n }), opened.1)
      ]

  -- `Close`; where the call fails, only a warning is logged.
  unfoldable pub close_file : FsFile → World → FsFile × World
  close_file f w =
      let closed = system.os_close f.fd w in
      if not f.file_open
      then (f, w)
      else if closed.0
      then (record f { file_open = false; size = no_size }, closed.1)
      else (f, closed.1)

  -- `Reopen`: the flags that it computes are not passed on.
  unfoldable pub reopen_file : FsFile → World → Bool × (FsFile × World)
  reopen_file f w =
      let opened =
        system.os_open f.file_path (record { trunc = false; direct = false; creat = false }) 384
          w in
      elim opened.0 [
        | none ↦ (false, (f, opened.1))
        | some fd ↦ (true, (record f { fd = fd; file_open = true; size = no_size }, opened.1))
      ]

  -- `Delete`.
  unfoldable pub delete_file : FsFile → World → FsFile × World
  unfolding close_file
  delete_file f w =
      let closed = if f.file_open then close_file f w else (f, w) in
      (closed.0, (system.os_unlink f.file_path closed.1).1)

  -- `Read` of `count` bytes into a buffer. A short read leaves the rest of the buffer as it is.
  unfoldable pub read_file : FsFile → List ℕ → ℕ → ℕ → World → Result (List ℕ)
  unfolding file_size
  read_file f buf count offset w = do
    n ← file_size f w
    check (leb ((count + offset) % 2 ^ 64) n) fatal
    elim (system.os_pread f.fd count offset w) [
      | none ↦ throws fatal
      | some bytes ↦ ok (bytes ++ drop (length bytes) buf)
    ]

  -- `Write` of the bytes.
  unfoldable pub write_file : FsFile → List ℕ → ℕ → World → Result World
  unfolding file_size
  write_file f bytes offset w = do
    n ← file_size f w
    check (not (n == 0)) fatal
    check (ltb offset n) fatal
    check (offset % page_size == 0) fatal
    let written = system.os_pwrite f.fd bytes offset w
    elim written.0 [ none ↦ throws fatal | some k ↦ ok written.1 ]

  -- What follows the call of pwrite(2) in `Allocate`, with that.
  unfoldable pub zeros_at : FsFile → ℕ → ℕ → World → Result (FsFile × World)
  unfolding file_size
  zeros_at f count offset w = if ltb (8 * page_size) count then undefined else (do
    let written = system.os_pwrite f.fd (replicate count 0) offset w
    elim written.0 [
      | none ↦ throws fatal
      | some k ↦ do
        m ← file_size (record f { size = no_size }) written.1
        ok (record f { size = through_int m }, written.1)
    ])

  -- What `Allocate` does without fallocate(2): it writes zeros at the end.
  unfoldable pub write_zeros : FsFile → ℕ → World → Result (FsFile × World)
  unfolding file_size zeros_at
  write_zeros f count w = do end ← file_size f w; zeros_at f count (through_int end) w

  -- `Allocate`.
  unfoldable pub allocate : FsFile → ℕ → World → Result (FsFile × World)
  unfolding file_size write_zeros
  allocate f count w = do
    n ← file_size f w
    let tried = system.os_fallocate f.fd n count w
    elim tried.0 [
      | extended ↦ ok (f, tried.1)
      | failed ↦ ok (f, tried.1)
      | not_supported ↦ write_zeros f count tried.1
    ]
