-- ===== src/Datum/Program.antt =====
-- A program over Datums of include/base/datum.h: variables that hold a Datum or are out of scope,
-- and the calls that it can make.
use database_systems.Common.{
  ℕ, Bool, List, [], ◌∷◌, ◌++◌, Option, none, some, get_elem?, set, if◌then◌else◌, ◌==◌, Result, ok,
  undefined, ◌>>=◌, ◌>>◌, or_undefined,
}
use database_systems.Datum.Cells.{
  Datum, null_datum, value_datum, destroy_datum, move_datum, assign_datum, moved_from,
  from_varlen_pointer, from_owned_bytes, copied_datum, has_external_ref,
}

-- Calls name variables by their numbers. The first six construct a Datum in a variable that comes
-- into scope: a null value, a value, bytes that it does not own, the bytes of a unique pointer, by a
-- move out of a variable, and as a deep copy of one, with the pointer that the allocation gives. The
-- last two are the move assignment `i = move(j)` and the destructor at the end of a scope.
pub data Call : Type 0 where
  make_null : ℕ → Call
  make_value : ℕ → ℕ → Call
  make_unowned : ℕ → ℕ → ℕ → Call
  make_owned : ℕ → ℕ → ℕ → Bool → Call
  make_from : ℕ → ℕ → Call
  make_copy : ℕ → ℕ → ℕ → Call
  assign : ℕ → ℕ → Call
  destroy : ℕ → Call

-- The variables, the pointers that have been freed, and two logs of the program itself: the blocks
-- that it has given to Datums, and those that the targets of move assignments owned.
pub record Program : Type 0 where
  pub variables : List (Option Datum)
  pub freed : List ℕ
  pub acquired : List ℕ
  pub overwritten : List ℕ

-- The Datum in a variable; to use one out of scope is undefined.
abbrev pub at : Program → ℕ → Result Datum
at p i = or_undefined (get_elem? p.variables i) >>= or_undefined

abbrev pub put : Program → ℕ → Option Datum → Program
put p i d = record p { variables = set p.variables i d }

-- A constructor wants a variable out of scope.
abbrev pub fresh : Program → ℕ → Result (Unit {0})
fresh p i =
    or_undefined (get_elem? p.variables i) >>= λ v. elim v [ none ↦ ok tt | some _ ↦ undefined ]

-- The block that a pointer points to, if it is not null.
abbrev pub block : ℕ → List ℕ
block a = if a == 0 then [] else a ∷ []

-- The variable `j` as it is once a move has copied it into `i`.
abbrev pub moved : Program → ℕ → ℕ → Datum → Datum → Program
moved p i j copy other = put (put p i (some copy)) j (some (moved_from other))

unfoldable pub run_datum_call : Call → Program → Result Program
run_datum_call (make_null i) = λ p. do fresh p i; ok (put p i (some null_datum))
run_datum_call (make_value i v) = λ p. do fresh p i; ok (put p i (some (value_datum v)))
run_datum_call (make_unowned i bytes size) =
    λ p. do fresh p i; ok (put p i (some (from_varlen_pointer bytes size)))
run_datum_call (make_owned i bytes size isnull) = λ p. do
  fresh p i
  let r = from_owned_bytes bytes size isnull
  ok (record (put p i (some r.0)) { acquired = block bytes ++ p.acquired; freed = r.1 ++ p.freed })
run_datum_call (make_from i j) =
    λ p. do fresh p i; other ← at p j; ok (moved p i j (move_datum other) other)
run_datum_call (make_copy i j pointer) = λ p. do
  fresh p i
  other ← at p j
  ok (record (put p i (some (copied_datum pointer other))) {
    acquired = (if has_external_ref other then block pointer else []) ++ p.acquired;
  })
run_datum_call (assign i j) = λ p. do
  this ← at p i
  other ← at p j
  ok (record (moved p i j (assign_datum this other) other) {
    overwritten = destroy_datum this ++ p.overwritten;
  })
run_datum_call (destroy i) =
    λ p. do this ← at p i; ok (record (put p i none) { freed = destroy_datum this ++ p.freed })

unfoldable pub run_datum_calls : List Call → Program → Result Program
unfolding run_datum_call
run_datum_calls [] p = ok p
run_datum_calls (call ∷ calls) p = run_datum_call call p >>= run_datum_calls calls
