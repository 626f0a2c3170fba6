-- ===== src/Types/Boolean.antt =====
-- The functions of src/utils/typsupp/bool.cpp on BOOL values: a three-valued logic with NULL.
-- BOOL_in reads text by absl::SimpleAtob, which is a parameter.
use database_systems.Common.{
  ℕ, Bool, true, false, not, List, [], ◌∷◌, Option, none, some, ◌==◌, ltb, leb, if◌then◌else◌,
  Result, ok, throws, undefined, error, ◌>>=◌, ◌≡◌, refl,
}
use database_systems.Payload.Write.{Value, null, rep, bytes, is_null, varlen_bytes}
use database_systems.Types.Call.{arg, strict, strict₂}
use database_systems.Types.Integer.{Comparison, eq, ne, lt, le, gt, ge, from_bool}

-- `GetBool`.
abbrev pub get_bool : Value → Result Bool
get_bool (rep v) = ok (not (v == 0))
get_bool _ = undefined

unfoldable pub bool_in : (List ℕ → Option Bool) → List Value → Result Value
unfolding varlen_bytes
bool_in parse args =
    strict
      (λ u. do
        str ← varlen_bytes u
        elim (parse str) [ none ↦ throws error | some b ↦ ok (from_bool b) ])
      args

-- "true" and "false".
unfoldable pub bool_out : List Value → Result Value
bool_out args =
    strict
      (λ u. do
        b ← get_bool u
        ok (bytes (if b then 116 ∷ 114 ∷ 117 ∷ 101 ∷ [] else 102 ∷ 97 ∷ 108 ∷ 115 ∷ 101 ∷ [])))
      args

unfoldable pub bool_not : List Value → Result Value
bool_not args = strict (λ u. do b ← get_bool u; ok (from_bool (not b))) args

unfoldable pub bool_or : List Value → Result Value
bool_or args = do
  u ← arg args 0
  if is_null u
      then (do
        v ← arg args 1
        if is_null v
            then ok null
            else (do b ← get_bool v; if not b then ok null else ok (from_bool true)))
      else (do
        a ← get_bool u
        if a then ok (from_bool true) else (do
          v ← arg args 1
          if is_null v then ok null else (do b ← get_bool v; ok (from_bool b))))

unfoldable pub bool_and : List Value → Result Value
bool_and args = do
  u ← arg args 0
  if is_null u
      then (do
        v ← arg args 1
        if is_null v
            then ok null
            else (do b ← get_bool v; if b then ok null else ok (from_bool false)))
      else (do
        a ← get_bool u
        if not a then ok (from_bool false) else (do
          v ← arg args 1
          if is_null v then ok null else (do b ← get_bool v; ok (from_bool b))))

-- The operators on `bool`, which is promoted to 0 and 1.
abbrev compare_bools : Comparison → ℕ → ℕ → Bool
compare_bools eq a b = a == b
compare_bools ne a b = not (a == b)
compare_bools lt a b = ltb a b
compare_bools le a b = leb a b
compare_bools gt a b = ltb b a
compare_bools ge a b = leb b a

abbrev as_number : Bool → ℕ
as_number b = if b then 1 else 0

unfoldable pub bool_comparison : Comparison → List Value → Result Value
bool_comparison op args =
    strict₂
      (λ u v. do
        a ← get_bool u
        b ← get_bool v
        ok (from_bool (compare_bools op (as_number a) (as_number b))))
      args

-- A BOOL as the functions return it.
abbrev pub three : Option Bool → Value
three none = null
three (some b) = from_bool b

-- De Morgan, in the logic with NULL: the negation of AND is OR of the negations, and the negation
-- of OR is AND of the negations, for every pair of true, false and NULL. AND and OR
-- return one of true, false and NULL on such arguments.
pub de_morgan :
    (a b : Option Bool)
    → ((bool_and (three a ∷ three b ∷ []) >>= λ r. bool_not (r ∷ []))
        ≡ (bool_not (three a ∷ []) >>= λ x. bool_not (three b ∷ []) >>= λ y. bool_or (x ∷ y ∷ [])))
      × ((bool_or (three a ∷ three b ∷ []) >>= λ r. bool_not (r ∷ [])) ≡ (
          bool_not (three a ∷ []) >>= λ x. bool_not (three b ∷ []) >>= λ y. bool_and (x ∷ y ∷ [])))
      × (((r : Option Bool) × (bool_and (three a ∷ three b ∷ []) ≡ ok (three r)))
          × ((r : Option Bool) × (bool_or (three a ∷ three b ∷ []) ≡ ok (three r))))
unfolding bool_and bool_or bool_not
de_morgan none none = (refl, refl, ((none, refl), (none, refl)))
de_morgan none (some true) = (refl, refl, ((none, refl), (some true, refl)))
de_morgan none (some false) = (refl, refl, ((some false, refl), (none, refl)))
de_morgan (some true) none = (refl, refl, ((none, refl), (some true, refl)))
de_morgan (some true) (some true) = (refl, refl, ((some true, refl), (some true, refl)))
de_morgan (some true) (some false) = (refl, refl, ((some false, refl), (some true, refl)))
de_morgan (some false) none = (refl, refl, ((some false, refl), (none, refl)))
de_morgan (some false) (some true) = (refl, refl, ((some false, refl), (some true, refl)))
de_morgan (some false) (some false) = (refl, refl, ((some false, refl), (some false, refl)))
