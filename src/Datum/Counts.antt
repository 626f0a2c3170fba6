-- ===== src/Datum/Counts.antt =====
-- How often the Datums of include/base/datum.h in scope own a block, and how stores change it.
use database_systems.Common.{
  ℕ, zero, suc, ◌+◌, true, List, [], ◌∷◌, ◌++◌, Option, none, some, get_elem?, set, if◌then◌else◌,
  ◌==◌, ◌≡◌, ◌⊎◌, inl, inr, refl, ap, sym, ◌∙◌, arith, some_inj, subst,
}
use database_systems.Datum.Cells.{Datum, null_datum, destroy_datum}

-- How often a block stands in a list.
abbrev pub times : ℕ → List ℕ → ℕ
times r [] = 0
times r (x ∷ xs) = (if x == r then 1 else 0) + times r xs

pub times-append : (r : ℕ) (xs ys : List ℕ) → times r (xs ++ ys) ≡ times r xs + times r ys
times-append r [] ys = omega arith
times-append r (x ∷ xs) ys = omega (arith, times-append r xs ys)

-- How often the Datums in scope own a block.
abbrev pub own : ℕ → Option Datum → ℕ
own r none = 0
own r (some d) = times r (destroy_datum d)

abbrev pub held : ℕ → List (Option Datum) → ℕ
held r [] = 0
held r (v ∷ vs) = own r v + held r vs

-- Only Datums of variable length own a block.
abbrev pub IsProper : Option Datum → Type 0
IsProper none = Unit {0}
IsProper (some d) = d.isowned ≡ true → d.isvarlen ≡ true

abbrev pub AllProper : List (Option Datum) → Type 0
AllProper vs = (i : ℕ) (v : Option Datum) → get_elem? vs i ≡ some v → IsProper v

pub held-set :
    (r : ℕ) (vs : List (Option Datum)) (i : ℕ) (old new : Option Datum)
    → get_elem? vs i ≡ some old
    → held r (set vs i new) + own r old ≡ held r vs + own r new
held-set r [] i old new h = cc
held-set r (v ∷ vs) zero old new h = ground arith
held-set r (v ∷ vs) (suc i) old new h = omega (arith, held-set r vs i old new h)

get_elem?-set :
    (vs : List (Option Datum)) (i j : ℕ) (new w : Option Datum)
    → get_elem? (set vs i new) j ≡ some w
    → (get_elem? vs j ≡ some w) ⊎ (w ≡ new)
get_elem?-set [] i j new w h = inl h
get_elem?-set (v ∷ vs) zero zero new w h = inr (some_inj (sym h))
get_elem?-set (v ∷ vs) zero (suc j) new w h = inl h
get_elem?-set (v ∷ vs) (suc i) zero new w h = inl h
get_elem?-set (v ∷ vs) (suc i) (suc j) new w h = get_elem?-set vs i j new w h

pub set-AllProper :
    (vs : List (Option Datum)) (i : ℕ) (new : Option Datum)
    → AllProper vs
    → IsProper new
    → AllProper (set vs i new)
set-AllProper vs i new all p j w h = elim (get_elem?-set vs i j new w h) [
  | inl e ↦ all j w e
  | inr e ↦ subst IsProper (sym e) p
]

-- What stands at `j` after a store at `i`.
stored_cases :
    (vs : List (Option Datum)) (i j : ℕ) (old new w : Option Datum)
    → get_elem? vs i ≡ some old
    → get_elem? vs j ≡ some w
    → (get_elem? (set vs i new) j ≡ some w) ⊎ ((get_elem? (set vs i new) j ≡ some new) × (old ≡ w))
stored_cases [] i j old new w h k = cc
stored_cases (v ∷ vs) zero zero old new w h k = inr (refl, some_inj (sym h ∙ k))
stored_cases (v ∷ vs) zero (suc j) old new w h k = inl k
stored_cases (v ∷ vs) (suc i) zero old new w h k = inl k
stored_cases (v ∷ vs) (suc i) (suc j) old new w h k = stored_cases vs i j old new w h k

-- A move from `j` to `i`, which may be the same: what `i` owned is gone, the rest is still owned.
pub held-moved :
    (r : ℕ) (vs : List (Option Datum)) (i j : ℕ) (old : Option Datum) (d : Datum)
    → get_elem? vs i ≡ some old
    → get_elem? vs j ≡ some (some d)
    → held r (set (set vs i (some d)) j (some null_datum)) + own r old ≡ held r vs
unfolding destroy_datum
held-moved r vs i j old d h k = elim (stored_cases vs i j old (some d) (some d) h k) [
  | inl e ↦ omega (
    arith,
    held-set r vs i old (some d) h,
    held-set r (set vs i (some d)) j (some d) (some null_datum) e,
  )
  | inr (e, same) ↦ omega (
    arith,
    held-set r vs i old (some d) h,
    held-set r (set vs i (some d)) j (some d) (some null_datum) e,
    ap (own r) same,
  )
]
