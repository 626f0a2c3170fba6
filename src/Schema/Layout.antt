-- ===== src/Schema/Layout.antt =====
-- Schema::ComputeLayoutImpl of src/catalog/Schema.cpp. The catalog cache is the parameter
-- `find_type` (`none` where FindType finds no row, which the code dereferences), and the built-in
-- functions for type lengths are `call_length` (`none` where the call gives NULL).
use database_systems.Common.{
  ℕ, ◌+◌, ◌-◌, ◌%◌, Bool, true, not, ◌&&◌, List, Option, none, some, set, leb, ◌==◌, if◌then◌else◌,
  bit_and,
}
use database_systems.Base.Align.{is_negative, int16, type_align, add_with_check}
use database_systems.Schema.Defs.{FieldInfo, CatType, minus_one, is_nullable}

-- A negative `int16_t`, from its absolute value.
abbrev pub negate : ℕ → ℕ
negate n = (65536 - n) % 65536

-- `-offset - 1` for a negative offset.
abbrev pub seq_index : ℕ → ℕ
seq_index offset = 65535 - offset

-- The local variables of the first loop, and `m_field_reorder_idx`.
pub record Scan : Type 0 where
  pub off : ℕ
  pub nonnullable : ℕ
  pub nullable_fixed : ℕ
  pub varlen : ℕ
  pub nullable_varlen : ℕ
  pub reorder : List ℕ

-- One round of the first loop. `stopped` is the early return on overflow; `crashed` is a failed
-- assertion or a null pointer that is dereferenced.
pub data Visit : Type 0 where
  visited : FieldInfo → Scan → Visit
  stopped : FieldInfo → Visit
  crashed : Visit

unfoldable pub visit_varlen : FieldInfo → Scan → CatType → Visit
visit_varlen f s t =
    if t.typbyref
    then visited (record f { typlen = minus_one; typbyref = true; offset = negate (s.varlen + 1) })
        (record s {
          varlen = s.varlen + 1;
          nullable_varlen = if is_nullable f then s.nullable_varlen + 1 else s.nullable_varlen;
        })
    else crashed

-- The non-nullable fixed-length case: align, check, place, advance.
unfoldable pub place_fixed : ℕ → FieldInfo → Scan → Visit
place_fixed i f s =
    let begin = type_align f.typalign s.off in
    let placed = record f { offset = begin } in
    if is_negative begin then stopped f else elim (add_with_check begin f.typlen) [
      | none ↦ stopped placed
      | some off ↦ visited placed (record s {
        off = off;
        nonnullable = s.nonnullable + 1;
        reorder = set s.reorder s.nonnullable i;
      })
    ]

unfoldable pub visit_fixed : ℕ → FieldInfo → Scan → Visit
unfolding place_fixed
visit_fixed i f s =
    if is_nullable f
    then visited (record f { offset = negate (s.nullable_fixed + 1) })
        (record s { nullable_fixed = s.nullable_fixed + 1 })
    else place_fixed i f s

-- A pass-by-value length is 0, 1, 2, 4 or 8.
abbrev pub is_value_length : ℕ → Bool
is_value_length len = leb len 8 && (bit_and (len - 1) len == 0)

module _ (find_type : ℕ → Option CatType) (call_length : ℕ → ℕ → Option ℕ) where
  -- The length of a fixed-length type: by its function, or as the catalog has it.
  unfoldable pub fixed_length : CatType → FieldInfo → Option ℕ
  fixed_length t f =
      if not (t.typlenfunc == 0)
      then elim (call_length t.typlenfunc f.typparam) [ none ↦ none | some n ↦ some (int16 n) ]
      else if is_value_length t.typlen
      then some t.typlen
      else none

  unfoldable pub visit_typed : ℕ → FieldInfo → Scan → CatType → Visit
  visit_typed i f s t =
      let cached = record f { typlen = t.typlen; typalign = t.typalign } in
      if t.typisvarlen then visit_varlen cached s t else elim (fixed_length t cached) [
        | none ↦ crashed
        | some len ↦ visit_fixed i (record cached { typlen = len; typbyref = t.typbyref }) s
      ]

  unfoldable pub visit : ℕ → FieldInfo → Scan → Visit
  visit i f s = elim (find_type f.typid) [ none ↦ crashed | some t ↦ visit_typed i f s t ]
