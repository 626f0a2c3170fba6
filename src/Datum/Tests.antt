-- ===== src/Datum/Tests.antt =====
-- The theorems on Datums at programs of two variables.
use database_systems.Common.{
  ℕ, zero, suc, ◌+◌, ◌<◌, ◌≤◌, inr, true, false, List, [], ◌∷◌, none, some, get_elem?, ok, ◌≡◌, ◌≢◌,
  ◌⊎◌, refl, arith,
}
use database_systems.Datum.Cells.{
  from_owned_bytes, moved_from, assign_datum, destroy_datum, Datum, varlen_datum, get_varlen_bytes,
  get_varlen_size, deep_copy,
}
use database_systems.Datum.Program.{Call, make_owned, assign, destroy, Program, run_datum_calls}
use database_systems.Datum.Ownership.{start, blocks_freed}
use database_systems.Datum.Counts.{times}
use database_systems.Datum.References.{bytes_at, deep_copy-bytes}

-- Two blocks, the second moved over the first.
abbrev overwriting : List Call
overwriting =
    make_owned 0 8 3 false ∷ make_owned 1 16 3 false ∷ assign 0 1 ∷ destroy 0 ∷ destroy 1 ∷ []

-- The block 8 has leaked.
abbrev overwritten_program : Program
overwritten_program = record {
  variables = none ∷ none ∷ [];
  freed = 16 ∷ [];
  acquired = 16 ∷ 8 ∷ [];
  overwritten = 8 ∷ [];
}

overwriting_runs : run_datum_calls overwriting (start 2) ≡ ok overwritten_program
unfolding run_datum_calls destroy_datum assign_datum moved_from from_owned_bytes
overwriting_runs = refl

all_out_of_scope : (i : ℕ) (d : Datum) → get_elem? overwritten_program.variables i ≢ some (some d)
all_out_of_scope zero d = λ h. cc
all_out_of_scope (suc zero) d = λ h. cc
all_out_of_scope (suc (suc i)) d = λ h. cc

blocks_freed_example :
    (times 8 (16 ∷ []) + times 8 (8 ∷ []) ≡ times 8 (16 ∷ 8 ∷ []))
    × (times 8 (16 ∷ []) ≤ times 8 (16 ∷ 8 ∷ []))
blocks_freed_example =
    blocks_freed 2 overwriting overwritten_program 8 overwriting_runs all_out_of_scope

-- Three bytes on the heap.
abbrev on_heap : Datum
on_heap = varlen_datum 400 true 3

-- Each byte of the memory is its address, and the new block is at 8.
deep_copy-bytes_example :
    (get_varlen_size (deep_copy 8 on_heap (λ a. a)).0 ≡ 3)
    × (bytes_at
          (deep_copy 8 on_heap (λ a. a)).1
          (get_varlen_bytes (deep_copy 8 on_heap (λ a. a)).0)
          3
        ≡ 400 ∷ 401 ∷ 402 ∷ [])
    × (bytes_at (deep_copy 8 on_heap (λ a. a)).1 400 3 ≡ 400 ∷ 401 ∷ 402 ∷ [])
    × ((a : ℕ) → (a < 8) ⊎ (11 ≤ a) → (deep_copy 8 on_heap (λ a'. a')).1 a ≡ a)
    × (get_varlen_bytes (deep_copy 8 on_heap (λ a. a)).0 ≡ 8)
    × ((deep_copy 8 on_heap (λ a. a)).0.isowned ≡ true)
deep_copy-bytes_example =
    deep_copy-bytes 8 on_heap (λ a. a) (λ e. omega arith) refl (inr (omega arith))
