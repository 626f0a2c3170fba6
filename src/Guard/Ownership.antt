-- ===== src/Guard/Ownership.antt =====
-- What becomes of the resources that a program of guards acquires.
use database_systems.Common.{
  ◌≢◌, ℕ, zero, suc, ◌+◌, List, [], ◌∷◌, ◌++◌, Option, none, some, some_inj, sym, ◌∙◌, ◌⊎◌, inl,
  inr, >>=-Ensures, replicate, Ensures_ok, get_elem?, set, if◌then◌else◌, ◌==◌, Result, ok,
  undefined, ◌>>=◌, ◌>>◌, or_undefined, ◌≡◌, refl, ap, arith, Ensures,
}
use database_systems.Guard.Cells.{Guard}
use database_systems.Guard.Program.{
  Call, make_empty, make, make_from, assign, reset, release, destroy, Program, run_call, run_calls,
}

-- How often a resource stands in a list.
abbrev pub times : ℕ → List ℕ → ℕ
times r [] = 0
times r (x ∷ xs) = (if x == r then 1 else 0) + times r xs

times-append : (r : ℕ) (xs ys : List ℕ) → times r (xs ++ ys) ≡ times r xs + times r ys
times-append r [] ys = omega arith
times-append r (x ∷ xs) ys = omega (arith, times-append r xs ys)

module _ (guard : Guard) where
  open guard use {Cell}

  -- How often the guards own a resource.
  abbrev pub own : ℕ → Option Cell → ℕ
  own r none = 0
  own r (some c) = times r (guard.owned c)

  abbrev pub held : ℕ → List (Option Cell) → ℕ
  held r [] = 0
  held r (v ∷ vs) = own r v + held r vs

  held-set :
      (r : ℕ) (vs : List (Option Cell)) (i : ℕ) (old new : Option Cell)
      → get_elem? vs i ≡ some old
      → held r (set vs i new) + own r old ≡ held r vs + own r new
  held-set r [] i old new h = cc
  held-set r (v ∷ vs) zero old new h = ground arith
  held-set r (v ∷ vs) (suc i) old new h = omega (arith, held-set r vs i old new h)

  get_elem?-set :
      (vs : List (Option Cell)) (i j : ℕ) (old new w : Option Cell)
      → get_elem? vs i ≡ some old
      → get_elem? vs j ≡ some w
      → (get_elem? (set vs i new) j ≡ some w)
        ⊎ ((get_elem? (set vs i new) j ≡ some new) × (old ≡ w))
  get_elem?-set [] i j old new w h k = cc
  get_elem?-set (v ∷ vs) zero zero old new w h k = inr (refl, some_inj (sym h ∙ k))
  get_elem?-set (v ∷ vs) zero (suc j) old new w h k = inl k
  get_elem?-set (v ∷ vs) (suc i) zero old new w h k = inl k
  get_elem?-set (v ∷ vs) (suc i) (suc j) old new w h k = get_elem?-set vs i j old new w h k

  -- A move from `j` to `i`, which may be the same: what `i` owned is gone, the rest is still owned.
  held-moved :
      (r : ℕ) (vs : List (Option Cell)) (i j : ℕ) (old : Option Cell) (c : Cell)
      → get_elem? vs i ≡ some old
      → get_elem? vs j ≡ some (some c)
      → held r (set (set vs i (some (guard.copied c))) j (some (guard.left c))) + own r old
        ≡ held r vs
  held-moved r vs i j old c h k =
      elim (get_elem?-set vs i j old (some (guard.copied c)) (some c) h k) [
        | inl e ↦ omega (
          arith,
          held-set r vs i old (some (guard.copied c)) h,
          held-set r (set vs i (some (guard.copied c))) j (some c) (some (guard.left c)) e,
          ap (times r) (guard.owned-copied c),
          ap (times r) (guard.owned-left c),
        )
        | inr (e, same) ↦ omega (
          arith,
          held-set r vs i old (some (guard.copied c)) h,
          held-set r (set vs i (some (guard.copied c))) j (some (guard.copied c))
              (some (guard.left c)) e,
          ap (times r) (guard.owned-copied c),
          ap (times r) (guard.owned-left c),
          ap (own r) same,
        )
      ]

  -- Every resource that has been put into a guard is owned by a guard, has been freed, or has been
  -- given back, as often as it has been put in.
  abbrev pub IsBalanced : Program guard → Type 0
  IsBalanced p =
      (r : ℕ) → times r p.acquired ≡ times r p.freed + times r p.returned + held r p.variables

  fresh_cases :
      (Q : Program guard → Type 0) (v : Option (Option Cell)) (m : Result (Program guard))
      → (v ≡ some none → Ensures Q m)
      → Ensures Q ((or_undefined v >>= λ o. elim o [ none ↦ ok tt | some _ ↦ undefined ]) >> m)
  fresh_cases Q none m h = tt
  fresh_cases Q (some none) m h = h refl
  fresh_cases Q (some (some c)) m h = tt

  at_cases :
      (Q : Program guard → Type 0) (v : Option (Option Cell)) (f : Cell → Result (Program guard))
      → ((c : Cell) → v ≡ some (some c) → Ensures Q (f c))
      → Ensures Q ((or_undefined v >>= or_undefined) >>= f)
  at_cases Q none f h = tt
  at_cases Q (some none) f h = tt
  at_cases Q (some (some c)) f h = h c refl

  run_call-IsBalanced :
      (call : Call) (p : Program guard) → IsBalanced p → Ensures IsBalanced (run_call guard call p)
  unfolding run_call
  run_call-IsBalanced (make_empty i) p b = fresh_cases IsBalanced (get_elem? p.variables i) _ λ e r.
      omega (
        arith,
        b r,
        held-set r p.variables i none (some guard.empty) e,
        ap (times r) guard.owned-empty,
      )
  run_call-IsBalanced (make i v) p b = fresh_cases IsBalanced (get_elem? p.variables i) _ λ e r.
      omega (
        arith,
        b r,
        held-set r p.variables i none (some (guard.hold v)) e,
        times-append r (guard.owned (guard.hold v)) p.acquired,
      )
  run_call-IsBalanced (make_from i j) p b = fresh_cases IsBalanced (get_elem? p.variables i) _ λ e.
      at_cases IsBalanced (get_elem? p.variables j) _
        λ c k r. omega (arith, b r, held-moved r p.variables i j none c e k)
  run_call-IsBalanced (assign i j) p b = at_cases IsBalanced (get_elem? p.variables i) _ λ this e.
      at_cases IsBalanced (get_elem? p.variables j) _ λ c k r. omega (
        arith,
        b r,
        held-moved r p.variables i j (some this) c e k,
        times-append r (guard.destroy this) p.freed,
        ap (times r) (guard.destroy_lem this),
      )
  run_call-IsBalanced (reset i) p b = at_cases IsBalanced (get_elem? p.variables i) _ λ c e r.
      omega (
        arith,
        b r,
        held-set r p.variables i (some c) (some (guard.reset c).0) e,
        times-append r (guard.reset c).1 p.freed,
        ap (times r) (guard.reset_lem c).0,
        ap (times r) (guard.reset_lem c).1,
      )
  run_call-IsBalanced (release i) p b = at_cases IsBalanced (get_elem? p.variables i) _ λ c e r.
      omega (
        arith,
        b r,
        held-set r p.variables i (some c) (some (guard.release c).1) e,
        times-append r (if guard.is_valid c then (guard.release c).0 ∷ [] else []) p.returned,
        ap (times r) (guard.release_lem c).0,
        ap (times r) (guard.release_lem c).1,
      )
  run_call-IsBalanced (destroy i) p b = at_cases IsBalanced (get_elem? p.variables i) _ λ c e r.
      omega (
        arith,
        b r,
        held-set r p.variables i (some c) none e,
        times-append r (guard.destroy c) p.freed,
        ap (times r) (guard.destroy_lem c),
      )

  run_calls-IsBalanced :
      (calls : List Call) (p : Program guard)
      → IsBalanced p
      → Ensures IsBalanced (run_calls guard calls p)
  unfolding run_calls
  run_calls-IsBalanced [] p b = b
  run_calls-IsBalanced (call ∷ calls) p b =
      >>=-Ensures IsBalanced IsBalanced (run_call guard call p) (run_calls guard calls)
        (run_call-IsBalanced call p b) (run_calls-IsBalanced calls)

  -- A program that starts with its variables out of scope.
  abbrev pub start : ℕ → Program guard
  start n = record { variables = replicate n none; freed = []; acquired = []; returned = [] }

  held-none : (r n : ℕ) → held r (replicate n none) ≡ 0
  held-none r zero = refl
  held-none r (suc n) = omega (arith, held-none r n)

  -- However a program of guards constructs, moves, assigns (to itself, too), resets, releases and
  -- destroys them: at every point, the number of times that a resource has been put into a guard
  -- is the number of times that it has been freed, has been given back by Release, or is owned by a
  -- guard that is in scope.
  pub resources_accounted :
      (n : ℕ) (calls : List Call) (p : Program guard) (r : ℕ)
      → run_calls guard calls (start n) ≡ ok p
      → times r p.acquired ≡ times r p.freed + times r p.returned + held r p.variables
  resources_accounted n calls p r e =
      Ensures_ok IsBalanced (run_calls guard calls (start n)) p
        (run_calls-IsBalanced calls (start n) (λ r. omega (arith, held-none r n))) e r

  held-out_of_scope :
      (r : ℕ) (vs : List (Option Cell))
      → ((i : ℕ) (c : Cell) → get_elem? vs i ≢ some (some c))
      → held r vs ≡ 0
  held-out_of_scope r [] h = refl
  held-out_of_scope r (none ∷ vs) h = omega (arith, held-out_of_scope r vs (λ i. h (suc i)))
  held-out_of_scope r (some c ∷ vs) h = absurd (h 0 c refl)

  -- When all guards of a program are out of scope, every resource that it put into a guard has been
  -- freed or given back exactly as often as it was put in: none leaks and none is freed twice.
  pub resources_released :
      (n : ℕ) (calls : List Call) (p : Program guard) (r : ℕ)
      → run_calls guard calls (start n) ≡ ok p
      → ((i : ℕ) (c : Cell) → get_elem? p.variables i ≢ some (some c))
      → times r p.freed + times r p.returned ≡ times r p.acquired
  resources_released n calls p r e over =
      omega (arith, resources_accounted n calls p r e, held-out_of_scope r p.variables over)
