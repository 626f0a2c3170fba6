-- ===== src/File/System.antt =====
-- The system calls that src/storage/FSFile.cpp makes, as a parameter. `World` is the state of the
-- operating system; a call that fails gives `none` or `false`. An offset is its 64-bit pattern, and one
-- call transfers fewer than 2 ^ 31 bytes, as the results are kept in an `int`.
use database_systems.Common.{ℕ, Bool, List, Option}

pub record OpenFlags : Type 0 where
  pub trunc : Bool
  pub direct : Bool
  pub creat : Bool

-- What `fallocate_zerofill_fast` comes to: true, false with errno EOPNOTSUPP, or false otherwise.
pub data Fallocate : Type 0 where
  extended not_supported failed : Fallocate

pub record System : Type 1 where
  pub World : Type 0
  pub os_open : List ℕ → OpenFlags → ℕ → World → Option ℕ × World
  pub os_close : ℕ → World → Bool × World
  pub os_unlink : List ℕ → World → Bool × World
  -- The bytes read, at most `count`.
  pub os_pread : ℕ → ℕ → ℕ → World → Option (List ℕ)
  -- The number of bytes written.
  pub os_pwrite : ℕ → List ℕ → ℕ → World → Option ℕ × World
  pub os_fstat_size : ℕ → World → Option ℕ
  pub os_fallocate : ℕ → ℕ → ℕ → World → Fallocate × World
