-- ===== src/Schema/Compute.antt =====
-- The loops and the later phases of Schema::ComputeLayoutImpl, src/catalog/Schema.cpp. Schemas have
-- at most 2 ^ 15 - 1 fields, so that the FieldId counters do not wrap.
use database_systems.Common.{
  ℕ, ◌+◌, ◌-◌, ◌*◌, ◌/◌, true, false, List, [], ◌∷◌, ◌++◌, Option, none, some, length, set, take,
  replicate, ◌==◌, if◌then◌else◌,
}
use database_systems.Base.Align.{is_negative, type_align, max_align, add_with_check}
use database_systems.Schema.Defs.{Schema, FieldInfo, CatType, minus_one, is_nullable}
use database_systems.Schema.Layout.{
  Scan, visited, stopped, crashed, visit, visit_typed, visit_varlen, visit_fixed, fixed_length,
  seq_index,
}

-- The first loop: what it has made of the fields, and its variables. `overflowed` is an early
-- return, with the fields as they are then.
pub data Pass : Type 0 where
  finished : List FieldInfo → Scan → Pass
  overflowed : List FieldInfo → Scan → Pass
  failed : Pass

abbrev pub prepend : FieldInfo → Pass → Pass
prepend f (finished fs s) = finished (f ∷ fs) s
prepend f (overflowed fs s) = overflowed (f ∷ fs) s
prepend f failed = failed

module _ (find_type : ℕ → Option CatType) (call_length : ℕ → ℕ → Option ℕ) where
  unfoldable pub scan_fields : ℕ → List FieldInfo → Scan → Pass
  unfolding visit visit_typed visit_varlen visit_fixed fixed_length
  scan_fields i [] s = finished [] s
  scan_fields i (f ∷ fs) s = elim (visit find_type call_length i f s) [
    | visited f' s' ↦ prepend f' (scan_fields (i + 1) fs s')
    | stopped f' ↦ overflowed (f' ∷ fs) s
    | crashed ↦ failed
  ]

-- The variables of the second loop.
pub record Assign : Type 0 where
  pub reorder : List ℕ
  pub nullable_fields : ℕ

-- One round of the second loop, with the counts that the first has made.
unfoldable pub assign_field : Scan → ℕ → FieldInfo → Assign → FieldInfo × Assign
assign_field c i f a =
    let k = seq_index f.offset in
    if f.typlen == minus_one
    then (let placed = set a.reorder (c.nonnullable + k) i in
        if is_nullable f
        then (
          record f { nullbit_id = k },
          record { reorder = placed; nullable_fields = a.nullable_fields + 1 },
        )
        else (f, record a { reorder = placed }))
    else if is_nullable f
    then (
      record f { nullbit_id = k + c.nullable_varlen },
      record {
        reorder = set a.reorder (c.nonnullable + c.varlen + k) i;
        nullable_fields = a.nullable_fields + 1;
      },
    )
    else (f, a)

unfoldable pub assign_fields : Scan → ℕ → List FieldInfo → Assign → List FieldInfo × Assign
unfolding assign_field
assign_fields c i [] a = ([], a)
assign_fields c i (f ∷ fs) a =
    let (f', a') = assign_field c i f a in
    let (fs', a'') = assign_fields c (i + 1) fs a' in (f' ∷ fs', a'')

-- Phases 3 and 4, from the offset behind the fixed-length fields.
unfoldable pub place_varlen : Schema → ℕ → ℕ → Schema
place_varlen s off nullable_fields = elim (add_with_check off ((nullable_fields + 7) / 8)) [
  | none ↦ s
  | some off' ↦
      let ends = type_align 2 off' in
      if is_negative ends then s else elim (add_with_check ends (2 * s.num_varlen_fields)) [
        | none ↦ record s { varlen_end_array_begin = ends }
        | some payload ↦ record s {
          varlen_end_array_begin = ends;
          varlen_payload_begin = payload;
          layout_computed = true;
        }
      ]
]

-- The fast path of a schema with non-nullable fixed-length fields only.
unfoldable pub place_fixed_only : Schema → ℕ → Schema
place_fixed_only s off =
    let end = max_align off in
    if is_negative end then s else record s {
      null_bitmap_begin = end;
      varlen_end_array_begin = end;
      varlen_payload_begin = end;
      has_only_nonnullable_fixedlen_fields = true;
      layout_computed = true;
    }

abbrev pub resize : List ℕ → ℕ → List ℕ
resize xs n = take n xs ++ replicate (n - length xs) 0

abbrev pub initial_scan : Schema → Scan
initial_scan s = record {
  off = 0;
  nonnullable = 0;
  nullable_fixed = 0;
  varlen = 0;
  nullable_varlen = 0;
  reorder = resize s.field_reorder_idx (length s.field);
}

-- The schema with what the first loop has made of it.
abbrev pub counted : Schema → List FieldInfo → Scan → Schema
counted s fs c = record s {
  field = fs;
  field_reorder_idx = c.reorder;
  num_nonnullable_fixedlen_fields = c.nonnullable;
  num_nullable_fixedlen_fields = c.nullable_fixed;
  num_varlen_fields = c.varlen;
}

-- And with what the second loop has.
abbrev pub assigned : Schema → List FieldInfo → Scan → List FieldInfo × Assign → Schema
assigned s fs c (fs', a) = record (counted s fs c) {
  has_only_nonnullable_fixedlen_fields = false;
  null_bitmap_begin = c.off;
  field = fs';
  field_reorder_idx = a.reorder;
}

-- What follows the first loop.
unfoldable pub after_scan : Schema → List FieldInfo → Scan → Schema
after_scan s fs c =
    let r = assign_fields c 0 fs (record { reorder = c.reorder; nullable_fields = 0 }) in
    if c.nonnullable == length fs
    then place_fixed_only (counted s fs c) c.off
    else place_varlen (assigned s fs c r) c.off r.1.nullable_fields

-- `ComputeLayoutImpl`: the schema afterwards, `none` where an assertion fails. An overflow
-- returns early and leaves `layout_computed` as it was.
unfoldable pub compute_layout : (ℕ → Option CatType) → (ℕ → ℕ → Option ℕ) → Schema → Option Schema
unfolding scan_fields after_scan assign_fields place_varlen place_fixed_only type_align max_align
    add_with_check
compute_layout find_type call_length s =
    elim (scan_fields find_type call_length 0 s.field (initial_scan s)) [
      | finished fs c ↦ some (after_scan s fs c)
      | overflowed fs c ↦ some (record s { field = fs; field_reorder_idx = c.reorder })
      | failed ↦ none
    ]
