-- ===== src/Guard/Program.antt =====
-- A program over guards of one template of include/utils/ResourceGuard.h: variables that hold a
-- guard or are out of scope, and the calls that it can make. What the compiler refuses (a copy)
-- is no call.
use database_systems.Common.{
  ℕ, List, [], ◌∷◌, ◌++◌, Option, none, some, get_elem?, set, if◌then◌else◌, Result, ok, undefined,
  ◌>>=◌, ◌>>◌, or_undefined,
}
use database_systems.Guard.Cells.{Guard}

-- Calls name variables by their numbers: the three constructors on a variable that comes into scope
-- (`make i v` from a value, `make_from i j` by a move out of `j`), the move assignment `i = move(j)`,
-- Reset, Release, and the destructor at the end of a scope.
pub data Call : Type 0 where
  make_empty : ℕ → Call
  make : ℕ → ℕ → Call
  make_from assign : ℕ → ℕ → Call
  reset release destroy : ℕ → Call

module _ (guard : Guard) where
  open guard use {Cell}

  -- The variables, what `ReleaseFunc` has been called with, and two logs of the program itself: the
  -- resources that it has put into guards, and those that `Release` has given back to it.
  pub record Program : Type 0 where
    pub variables : List (Option Cell)
    pub freed : List ℕ
    pub acquired : List ℕ
    pub returned : List ℕ

  -- The guard in a variable; to use one out of scope is undefined.
  abbrev pub at : Program → ℕ → Result Cell
  at p i = or_undefined (get_elem? p.variables i) >>= or_undefined

  abbrev pub put : Program → ℕ → Option Cell → Program
  put p i c = record p { variables = set p.variables i c }

  -- A constructor wants a variable out of scope.
  abbrev pub fresh : Program → ℕ → Result (Unit {0})
  fresh p i =
      or_undefined (get_elem? p.variables i) >>= λ v. elim v [ none ↦ ok tt | some _ ↦ undefined ]

  unfoldable pub run_call : Call → Program → Result Program
  run_call (make_empty i) = λ p. do fresh p i; ok (put p i (some guard.empty))
  run_call (make i v) = λ p. do
    fresh p i
    ok (record (put p i (some (guard.hold v))) {
      acquired = guard.owned (guard.hold v) ++ p.acquired;
    })
  run_call (make_from i j) = λ p. do
    fresh p i
    other ← at p j
    ok (put (put p i (some (guard.copied other))) j (some (guard.left other)))
  run_call (assign i j) = λ p. do
    this ← at p i
    other ← at p j
    ok (record (put (put p i (some (guard.copied other))) j (some (guard.left other))) {
      freed = guard.destroy this ++ p.freed;
    })
  run_call (reset i) = λ p. do
    this ← at p i
    ok (record (put p i (some (guard.reset this).0)) { freed = (guard.reset this).1 ++ p.freed })
  run_call (release i) = λ p. do
    this ← at p i
    ok (record (put p i (some (guard.release this).1)) {
      returned = (if guard.is_valid this then (guard.release this).0 ∷ [] else []) ++ p.returned;
    })
  run_call (destroy i) =
      λ p. do this ← at p i; ok (record (put p i none) { freed = guard.destroy this ++ p.freed })

  unfoldable pub run_calls : List Call → Program → Result Program
  unfolding run_call
  run_calls [] p = ok p
  run_calls (call ∷ calls) p = run_call call p >>= run_calls calls
