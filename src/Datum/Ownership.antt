-- ===== src/Datum/Ownership.antt =====
-- What becomes of the blocks that a program gives to Datums of include/base/datum.h.
use database_systems.Common.{
  ℕ, zero, suc, ◌+◌, ◌≤◌, Bool, false, List, [], ◌∷◌, ◌++◌, Option, none, some, replicate,
  get_elem?, set, if◌then◌else◌, Result, ok, undefined, ◌>>=◌, ◌>>◌, or_undefined, Ensures,
  >>=-Ensures, Ensures_ok, ◌≡◌, ◌≢◌, refl, arith, some_inj, subst,
}
use database_systems.Datum.Cells.{
  Datum, null_datum, value_datum, varlen_datum, destroy_datum, move_datum, assign_datum, moved_from,
  from_varlen_pointer, from_owned_bytes, copied_datum, has_external_ref,
}
use database_systems.Datum.Program.{
  Call, make_null, make_value, make_unowned, make_owned, make_from, make_copy, assign, destroy,
  Program, block, put, run_datum_call, run_datum_calls,
}
use database_systems.Datum.Counts.{
  times, times-append, own, held, IsProper, AllProper, held-set, set-AllProper, held-moved,
}

-- Every block that a Datum has been given is owned by a Datum, has been freed, or was owned by the
-- target of a move assignment, as often as it has been given.
pub record IsBalanced (p : Program) : Type 0 where
  pub balance :
      (r : ℕ) → times r p.acquired ≡ times r p.freed + times r p.overwritten + held r p.variables
  pub proper : AllProper p.variables

fresh_cases :
    (v : Option (Option Datum)) (m : Result Program)
    → (v ≡ some none → Ensures IsBalanced m)
    → Ensures IsBalanced
        ((or_undefined v >>= λ o. elim o [ none ↦ ok tt | some _ ↦ undefined ]) >> m)
fresh_cases none m h = tt
fresh_cases (some none) m h = h refl
fresh_cases (some (some c)) m h = tt

at_cases :
    (v : Option (Option Datum)) (f : Datum → Result Program)
    → ((d : Datum) → v ≡ some (some d) → Ensures IsBalanced (f d))
    → Ensures IsBalanced ((or_undefined v >>= or_undefined) >>= f)
at_cases none f h = tt
at_cases (some none) f h = tt
at_cases (some (some d)) f h = h d refl

-- A Datum comes into scope with what it owns.
made :
    (p : Program) (i : ℕ) (d : Datum) (ac fr : List ℕ)
    → IsBalanced p
    → get_elem? p.variables i ≡ some none
    → IsProper (some d)
    → ((r : ℕ) → times r ac ≡ times r fr + own r (some d))
    → IsBalanced (record (put p i (some d)) { acquired = ac ++ p.acquired; freed = fr ++ p.freed })
made p i d ac fr b e proper logged = record {
  balance = λ r. omega (
    arith,
    b.balance r,
    held-set r p.variables i none (some d) e,
    logged r,
    times-append r ac p.acquired,
    times-append r fr p.freed,
  );
  proper = set-AllProper p.variables i (some d) b.proper proper;
}

unowned_logged : (d : Datum) → d.isowned ≡ false → (r : ℕ) → 0 ≡ 0 + own r (some d)
unfolding destroy_datum
unowned_logged d h r = ground arith

owned_logged :
    (bytes size : ℕ) (isnull : Bool) (r : ℕ)
    → times r (block bytes)
      ≡ times r (from_owned_bytes bytes size isnull).1
        + own r (some (from_owned_bytes bytes size isnull).0)
unfolding from_owned_bytes destroy_datum
owned_logged bytes size isnull r = ground arith

owned-IsProper :
    (bytes size : ℕ) (isnull : Bool) → IsProper (some (from_owned_bytes bytes size isnull).0)
unfolding from_owned_bytes
owned-IsProper bytes size isnull = ground arith

copy_logged :
    (pointer : ℕ) (d : Datum) (r : ℕ)
    → IsProper (some d)
    → times r (if has_external_ref d then block pointer else [])
      ≡ 0 + own r (some (copied_datum pointer d))
unfolding copied_datum has_external_ref from_owned_bytes destroy_datum
copy_logged pointer d r proper = ground arith

copy-IsProper :
    (pointer : ℕ) (d : Datum) → IsProper (some d) → IsProper (some (copied_datum pointer d))
unfolding copied_datum has_external_ref from_owned_bytes
copy-IsProper pointer d proper = ground arith

moved-AllProper :
    (p : Program) (i j : ℕ) (d : Datum)
    → AllProper p.variables
    → get_elem? p.variables j ≡ some (some d)
    → AllProper (set (set p.variables i (some d)) j (some null_datum))
moved-AllProper p i j d all k =
    set-AllProper (set p.variables i (some d)) j (some null_datum)
      (set-AllProper p.variables i (some d) all (all j (some d) k)) (λ e. cc)

run_datum_call-IsBalanced :
    (call : Call) (p : Program) → IsBalanced p → Ensures IsBalanced (run_datum_call call p)
unfolding run_datum_call moved_from move_datum assign_datum from_varlen_pointer
run_datum_call-IsBalanced (make_null i) p b =
    fresh_cases (get_elem? p.variables i) _
      λ e. made p i null_datum [] [] b e (λ h. cc) (unowned_logged null_datum refl)
run_datum_call-IsBalanced (make_value i v) p b =
    fresh_cases (get_elem? p.variables i) _
      λ e. made p i (value_datum v) [] [] b e (λ h. cc) (unowned_logged (value_datum v) refl)
run_datum_call-IsBalanced (make_unowned i bytes size) p b =
    fresh_cases (get_elem? p.variables i) _ λ e.
      made p i (varlen_datum bytes false size) [] [] b e (λ h. refl)
        (unowned_logged (varlen_datum bytes false size) refl)
run_datum_call-IsBalanced (make_owned i bytes size isnull) p b =
    fresh_cases (get_elem? p.variables i) _ λ e.
      made p i (from_owned_bytes bytes size isnull).0 (block bytes)
        (from_owned_bytes bytes size isnull).1 b e (owned-IsProper bytes size isnull)
        (owned_logged bytes size isnull)
run_datum_call-IsBalanced (make_from i j) p b = fresh_cases (get_elem? p.variables i) _ λ e.
    at_cases (get_elem? p.variables j) _ λ d k. record {
      balance = λ r. omega (arith, b.balance r, held-moved r p.variables i j none d e k);
      proper = moved-AllProper p i j d b.proper k;
    }
run_datum_call-IsBalanced (make_copy i j pointer) p b = fresh_cases (get_elem? p.variables i) _ λ e.
    at_cases (get_elem? p.variables j) _ λ d k.
      made p i (copied_datum pointer d) (if has_external_ref d then block pointer else []) [] b e
        (copy-IsProper pointer d (b.proper j (some d) k))
        (λ r. copy_logged pointer d r (b.proper j (some d) k))
run_datum_call-IsBalanced (assign i j) p b = at_cases (get_elem? p.variables i) _ λ this e.
    at_cases (get_elem? p.variables j) _ λ d k. record {
      balance = λ r. omega (
        arith,
        b.balance r,
        held-moved r p.variables i j (some this) d e k,
        times-append r (destroy_datum this) p.overwritten,
      );
      proper = moved-AllProper p i j d b.proper k;
    }
run_datum_call-IsBalanced (destroy i) p b = at_cases (get_elem? p.variables i) _ λ d e. record {
  balance = λ r. omega (
    arith,
    b.balance r,
    held-set r p.variables i (some d) none e,
    times-append r (destroy_datum d) p.freed,
  );
  proper = set-AllProper p.variables i none b.proper tt;
}

run_datum_calls-IsBalanced :
    (calls : List Call) (p : Program) → IsBalanced p → Ensures IsBalanced (run_datum_calls calls p)
unfolding run_datum_calls
run_datum_calls-IsBalanced [] p b = b
run_datum_calls-IsBalanced (call ∷ calls) p b =
    >>=-Ensures IsBalanced IsBalanced (run_datum_call call p) (run_datum_calls calls)
      (run_datum_call-IsBalanced call p b) (run_datum_calls-IsBalanced calls)

-- A program that starts with its variables out of scope.
abbrev pub start : ℕ → Program
start n = record { variables = replicate n none; freed = []; acquired = []; overwritten = [] }

held-none : (r n : ℕ) → held r (replicate n none) ≡ 0
held-none r zero = refl
held-none r (suc n) = omega (arith, held-none r n)

none-IsProper : (n i : ℕ) (v : Option Datum) → get_elem? (replicate n none) i ≡ some v → IsProper v
none-IsProper zero i v h = absurd (cc)
none-IsProper (suc n) zero v h = subst IsProper (some_inj h) tt
none-IsProper (suc n) (suc i) v h = none-IsProper n i v h

-- However a program of Datums constructs, moves, copies, assigns and destroys them: at every point,
-- the number of times that a block has been given to a Datum, by a unique pointer or as a deep copy,
-- is the number of times that it has been freed, that the target of a move assignment owned it, or
-- that a Datum in scope owns it.
pub blocks_accounted :
    (n : ℕ) (calls : List Call) (p : Program) (r : ℕ)
    → run_datum_calls calls (start n) ≡ ok p
    → times r p.acquired ≡ times r p.freed + times r p.overwritten + held r p.variables
blocks_accounted n calls p r e = balanced.balance r
  where
    balanced : IsBalanced p
    balanced =
        Ensures_ok IsBalanced (run_datum_calls calls (start n)) p
          (run_datum_calls-IsBalanced calls (start n)
            (record { balance = λ r. omega (arith, held-none r n); proper = none-IsProper n }))
          e

held-out_of_scope :
    (r : ℕ) (vs : List (Option Datum))
    → ((i : ℕ) (d : Datum) → get_elem? vs i ≢ some (some d))
    → held r vs ≡ 0
held-out_of_scope r [] h = refl
held-out_of_scope r (none ∷ vs) h = omega (arith, held-out_of_scope r vs (λ i. h (suc i)))
held-out_of_scope r (some d ∷ vs) h = absurd (h 0 d refl)

-- When all Datums of a program are out of scope, a block has been freed once for every time that it
-- was given to a Datum, less the times that the target of a move assignment owned it: such a
-- block leaks, and no other does. No block is freed more often than it was given to a Datum.
pub blocks_freed :
    (n : ℕ) (calls : List Call) (p : Program) (r : ℕ)
    → run_datum_calls calls (start n) ≡ ok p
    → ((i : ℕ) (d : Datum) → get_elem? p.variables i ≢ some (some d))
    → (times r p.freed + times r p.overwritten ≡ times r p.acquired)
      × (times r p.freed ≤ times r p.acquired)
blocks_freed n calls p r e over = (
  omega (arith, blocks_accounted n calls p r e, held-out_of_scope r p.variables over),
  omega (arith, blocks_accounted n calls p r e),
)
