-- ===== src/File/Stale.antt =====
-- The size that FSFile::Allocate (src/storage/FSFile.cpp) leaves behind where fallocate(2) works.
use database_systems.Common.{
  ℕ, ◌+◌, ◌%◌, ◌^◌, ◌<◌, false, List, ok, throws, fatal, Ensures, leb, ◌==◌, ◌≡◌, ◌≢◌, refl, arith,
}
use database_systems.File.System.{System, extended}
use database_systems.File.Calls.{FsFile, no_size, file_size, read_file, allocate}

module _ (system : System) (page_size : ℕ) where
  open system use {World}

  file_size-known :
      (f : FsFile) (w : World) → f.size ≢ no_size → file_size system page_size f w ≡ ok f.size
  unfolding file_size
  file_size-known f w h = rw test refl
    where
      test : (f.size == no_size) ≡ false
      test = ground (arith, h)

  read_file_beyond :
      (f : FsFile) (buf : List ℕ) (n offset : ℕ) (w : World)
      → f.size ≢ no_size
      → f.size < (n + offset) % 18446744073709551616
      → read_file system page_size f buf n offset w ≡ throws fatal
  unfolding read_file
  read_file_beyond f buf n offset w known beyond = rw (file_size-known f w known, out) refl
    where
      out : leb ((n + offset) % 18446744073709551616) f.size ≡ false
      out = ground arith

  -- Where fallocate(2) extends a file whose size is remembered, that size is not renewed: `Size` goes
  -- on giving it, and a read that reaches beyond it is a fatal error, in whatever state the file is.
  pub allocate-keeps_size :
      (f : FsFile) (count : ℕ) (w : World)
      → f.size ≢ no_size
      → (system.os_fallocate f.fd f.size count w).0 ≡ extended
      → Ensures
          (λ r.
            ((later : World) → file_size system page_size r.0 later ≡ ok f.size)
            × ((buf : List ℕ) (n offset : ℕ) (later : World)
                → f.size < (n + offset) % 2 ^ 64
                → read_file system page_size r.0 buf n offset later ≡ throws fatal))
          (allocate system page_size f count w)
  unfolding allocate
  allocate-keeps_size f count w known done =
      rw (file_size-known f w known, done)
        (
          (λ later. file_size-known f later known),
          λ buf n offset later beyond. read_file_beyond f buf n offset later known beyond,
        )
