-- ===== src/Schema/Names.antt =====
-- The fields' types, parameters and names: the getters of include/catalog/Schema.h, and
-- GetFieldIdFromFieldName of src/catalog/Schema.cpp.
use Prim.Native.String.{String}
use text.Mathlib.Text.{◌==◌ as str_eq}
use text.Mathlib.TextEquality.{eq_iff}
use database_systems.Common.{
  ℕ, zero, suc, ◌+◌, ◌<◌, Bool, true, false, ◌||◌, List, [], ◌∷◌, none, some, length, get_elem?,
  take, ltb, if◌then◌else◌, Result, ok, undefined, ◌>>=◌, or_undefined, fatal, check, ◌≡◌, ◌≢◌,
  refl, ap, sym, ◌∙◌, arith, some_inj, take_enough, Bool-cases, inl, inr,
}
use database_systems.Base.Align.{is_negative, int16}
use database_systems.Schema.Defs.{Schema, FieldInfo}

abbrev pub invalid_field_id : ℕ
invalid_field_id = 0x7fff

-- `m_field[field_id]`; a field ID that is negative is out of range.
unfoldable field_with_id : ℕ → Schema → Result FieldInfo
field_with_id i s = if is_negative i then undefined else or_undefined (get_elem? s.field i)

unfoldable get_field_type_id : ℕ → Schema → Result ℕ
unfolding field_with_id
get_field_type_id i s = do f ← field_with_id i s; ok f.typid

unfoldable get_field_type_param : ℕ → Schema → Result ℕ
unfolding field_with_id
get_field_type_param i s = do f ← field_with_id i s; ok f.typparam

unfoldable field_pass_by_ref : ℕ → Schema → Result Bool
unfolding field_with_id
field_pass_by_ref i s = do f ← field_with_id i s; ok f.typbyref

unfoldable ensure_layout_computed : Schema → Result (Unit {0})
ensure_layout_computed s = check s.layout_computed fatal

-- `field_id` is compared as a `size_t`, which is large where it is negative.
unfoldable pub get_field_name : ℕ → Schema → Result String
get_field_name i s =
    if is_negative i || ltb (length s.field_names) i
    then ok ""
    else or_undefined (get_elem? s.field_names i)

-- The loop, at the field `i`.
unfoldable pub find_name : String → ℕ → List String → ℕ
find_name name i [] = invalid_field_id
find_name name i (n ∷ ns) = if str_eq name n then i else find_name name (i + 1) ns

unfoldable pub get_field_id_from_field_name : String → Schema → ℕ
unfolding find_name
get_field_id_from_field_name name s =
    let n = int16 (length s.field_names) in
    if is_negative n then invalid_field_id else find_name name 0 (take n s.field_names)

-- No field before `i` has the name.
abbrev pub IsFirstName : String → ℕ → List String → Type 0
IsFirstName name i names = (j : ℕ) → j < i → get_elem? names j ≢ some name

find_name-first :
    (name : String) (names : List String) (i k : ℕ)
    → get_elem? names i ≡ some name
    → IsFirstName name i names
    → find_name name k names ≡ k + i
unfolding find_name
find_name-first name [] i k h first = absurd (cc)
find_name-first name (n ∷ ns) zero k h first = rw same (omega arith)
  where
    same : str_eq name n ≡ true
    same = (eq_iff name n).1 (sym (some_inj h))
find_name-first name (n ∷ ns) (suc i) k h first =
    rw other
      (find_name-first name ns i (k + 1) h (λ j p. first (suc j) (omega arith)) ∙ omega arith)
  where
    other : str_eq name n ≡ false
    other = elim (Bool-cases (str_eq name n)) [
      | inl e ↦ absurd (first 0 (omega arith) (ap some (sym ((eq_iff name n).0 e))))
      | inr e ↦ e
    ]

find_name-absent :
    (name : String) (names : List String) (k : ℕ)
    → ((i : ℕ) → get_elem? names i ≢ some name)
    → find_name name k names ≡ invalid_field_id
unfolding find_name
find_name-absent name [] k h = refl
find_name-absent name (n ∷ ns) k h = rw other (find_name-absent name ns (k + 1) (λ i. h (suc i)))
  where
    other : str_eq name n ≡ false
    other = elim (Bool-cases (str_eq name n)) [
      | inl e ↦ absurd (h 0 (ap some (sym ((eq_iff name n).0 e))))
      | inr e ↦ e
    ]

-- A schema with at most 32767 field names. The name that GetFieldName returns for a field is one
-- that GetFieldIdFromFieldName maps back to the field, if no field before it has the same name. A
-- name that no field has gives InvalidFieldId. For the field ID that is the number of names, which
-- is the field 0 in a schema without names, GetFieldName reads out of range.
pub field_name_round_trip :
    (s : Schema)
    → length s.field_names < 32768
    → ((i : ℕ) (name : String)
        → get_elem? s.field_names i ≡ some name
        → IsFirstName name i s.field_names
        → (get_field_name i s ≡ ok name) × (get_field_id_from_field_name name s ≡ i))
      × ((name : String)
          → ((i : ℕ) → get_elem? s.field_names i ≢ some name)
          → get_field_id_from_field_name name s ≡ invalid_field_id)
      × (get_field_name (length s.field_names) s ≡ undefined)
unfolding get_field_name get_field_id_from_field_name
field_name_round_trip s small = (
  λ i name h first. (
    rw (inside i (in_range s.field_names i name h), h) refl,
    rw (counted, whole) (find_name-first name s.field_names i 0 h first ∙ omega arith),
  ),
  λ name absent. rw (counted, whole) (find_name-absent name s.field_names 0 absent),
  rw (at_length, past s.field_names) refl,
)
  where
    in_range :
        (names : List String) (i : ℕ) (name : String)
        → get_elem? names i ≡ some name
        → i < length names
    in_range [] i name h = absurd (cc)
    in_range (n ∷ ns) zero name h = omega arith
    in_range (n ∷ ns) (suc i) name h = omega (arith, in_range ns i name h)

    past : (names : List String) → get_elem? names (length names) ≡ none
    past [] = refl
    past (n ∷ ns) = past ns

    inside :
        (i : ℕ) → i < length s.field_names → (is_negative i || ltb (length s.field_names) i) ≡ false
    inside i h = ground arith

    at_length :
        (is_negative (length s.field_names) || ltb (length s.field_names) (length s.field_names))
        ≡ false
    at_length = ground arith

    counted : is_negative (int16 (length s.field_names)) ≡ false
    counted = ground arith

    whole : take (int16 (length s.field_names)) s.field_names ≡ s.field_names
    whole = take_enough (int16 (length s.field_names)) s.field_names (omega arith)
