-- ===== src/Schema/Laid.antt =====
-- What ComputeLayoutImpl establishes of a schema when it does not return early.
use database_systems.Common.{
  ℕ, ◌+◌, ◌*◌, ◌/◌, ◌%◌, ◌≤◌, ◌<◌, ◌≡◌, refl, true, false, inl, inr, List, ◌++◌, arith,
}
use database_systems.Base.Align.{
  type_align, max_align, type_align_rounds_up, add_with_check_exact, IsAlignment,
}
use database_systems.Schema.Defs.{Schema, FieldInfo}
use database_systems.Schema.Kinds.{is_varlen, is_nullable_fixed, is_fixed, ids}
use database_systems.Schema.Layout.{Scan}
use database_systems.Schema.Visit.{Visited, AsFixed}
use database_systems.Schema.Trace.{Trace, done, round}
use database_systems.Schema.Bits.{NullBits, count_nullable}
use database_systems.Schema.Compute.{place_varlen, place_fixed_only}

-- A non-nullable fixed-length field starts at or behind the offset before it, aligned, and ends
-- in range at the offset behind it.
pub AsFixed-place :
    {i : ℕ} {s t : Scan} {f : FieldInfo}
    → AsFixed i s f t
    → IsAlignment f.typalign
    → s.off < 32768
    → (s.off ≤ f.offset)
      × (f.offset + f.typlen ≡ t.off)
      × (t.off < 32768)
      × (f.offset % f.typalign ≡ 0)
AsFixed-place {s} {f} v aligned h = ground (
  arith,
  v,
  type_align_rounds_up f.typalign s.off aligned h,
  add_with_check_exact f.offset f.typlen,
)

Visited-off :
    {i bit : ℕ} {s t : Scan} {f : FieldInfo}
    → Visited i bit s f t
    → s.off < 32768
    → (s.off ≤ t.off) × (t.off < 32768)
Visited-off {s} {t} v h = elim v.effect [
  | inl a ↦ omega (arith, a.same)
  | inr (inl a) ↦ omega (arith, a.same)
  | inr (inr a) ↦ omega (arith, AsFixed-place a v.aligned h)
]

pub Trace-off :
    {i : ℕ} {s c : Scan} {fs : List FieldInfo}
    → Trace i s fs c
    → s.off < 32768
    → (s.off ≤ c.off) × (c.off < 32768)
Trace-off (done e) h = ground arith
Trace-off (round v rest) h = omega (arith, Visited-off v h, Trace-off rest (Visited-off v h).1)

-- The first variables of the loop.
abbrev pub IsStart : Scan → Type 0
IsStart s =
    (s.off ≡ 0)
    × (s.nonnullable ≡ 0)
    × (s.nullable_fixed ≡ 0)
    × (s.varlen ≡ 0)
    × (s.nullable_varlen ≡ 0)

pub record IsLaidOut (s : Schema) : Type 0 where
  pub start : Scan
  pub totals : Scan
  pub zero : IsStart start
  pub trace : Trace 0 start s.field totals
  pub bits : NullBits totals 0 start s.field
  pub order :
      s.field_reorder_idx
      ≡ ids is_fixed 0 s.field ++ (ids is_varlen 0 s.field ++ ids is_nullable_fixed 0 s.field)
  pub fixed_count : s.num_nonnullable_fixedlen_fields ≡ totals.nonnullable
  pub varlen_count : s.num_varlen_fields ≡ totals.varlen
  pub bitmap : totals.off ≤ s.null_bitmap_begin
  pub ends : s.null_bitmap_begin + (count_nullable s.field + 7) / 8 ≤ s.varlen_end_array_begin
  pub payload : s.varlen_end_array_begin + 2 * totals.varlen ≤ s.varlen_payload_begin
  pub in_range : s.varlen_payload_begin < 32768

-- The later phases, where they do not return early.
abbrev pub placed : Schema → ℕ → ℕ → Schema
placed s ends payload = record s {
  varlen_end_array_begin = ends;
  varlen_payload_begin = payload;
  layout_computed = true;
}

pub place_fixed_only-placed :
    (s : Schema) (off : ℕ)
    → off < 32768
    → s.layout_computed ≡ false
    → (place_fixed_only s off).layout_computed ≡ true
    → (place_fixed_only s off
        ≡ placed
            (record s {
              null_bitmap_begin = max_align off;
              has_only_nonnullable_fixedlen_fields = true;
            })
            (max_align off)
            (max_align off))
      × (off ≤ max_align off)
      × (max_align off < 32768)
unfolding place_fixed_only max_align
place_fixed_only-placed s off h e k =
    ground (arith, type_align_rounds_up 8 off (inr (inr (inr refl))) h)

pub place_varlen-placed :
    (s : Schema) (off n : ℕ)
    → off < 32768
    → n < 32768
    → s.num_varlen_fields < 16384
    → s.layout_computed ≡ false
    → (place_varlen s off n).layout_computed ≡ true
    → let ends = type_align 2 (off + (n + 7) / 8) in
      (place_varlen s off n ≡ placed s ends (ends + 2 * s.num_varlen_fields))
      × (off + (n + 7) / 8 ≤ ends)
      × (ends + 2 * s.num_varlen_fields < 32768)
unfolding place_varlen
place_varlen-placed s off n h m few e k = ground (
  arith,
  add_with_check_exact off ((n + 7) / 8),
  type_align_rounds_up 2 (off + (n + 7) / 8) (inr (inl refl)),
  add_with_check_exact (type_align 2 (off + (n + 7) / 8)) (2 * s.num_varlen_fields),
)
