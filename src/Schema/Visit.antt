-- ===== src/Schema/Visit.antt =====
-- What one round of the first layout loop does to a field and to the loop's variables.
use database_systems.Common.{
  ℕ, ◌+◌, ◌<◌, ◌≡◌, subst, true, false, ◌⊎◌, inl, inr, Option, some, set, if◌then◌else◌, arith,
  Option-cases, Bool-cases, ◌%◌,
}
use database_systems.Base.Align.{is_negative, IsAlignment, type_align, add_with_check}
use database_systems.Schema.Defs.{FieldInfo, CatType, is_nullable}
use database_systems.Schema.Kinds.{is_varlen}
use database_systems.Schema.Layout.{
  Scan, visited, visit, visit_typed, visit_varlen, visit_fixed, place_fixed, fixed_length, negate,
}

-- The three kinds of field, with what each adds to the loop's variables.
pub record AsVarlen (s : Scan) (f' : FieldInfo) (s' : Scan) : Type 0 where
  pub kind : is_varlen f' ≡ true
  pub index : f'.offset ≡ negate (s.varlen + 1)
  pub byref : f'.typbyref ≡ true
  pub counted : s'.varlen ≡ s.varlen + 1
  pub nullable_counted :
      s'.nullable_varlen ≡ (if is_nullable f' then s.nullable_varlen + 1 else s.nullable_varlen)
  pub same :
      (s'.off ≡ s.off)
      × (s'.nonnullable ≡ s.nonnullable)
      × (s'.nullable_fixed ≡ s.nullable_fixed)
      × (s'.reorder ≡ s.reorder)

pub record AsNullable (s : Scan) (f' : FieldInfo) (s' : Scan) : Type 0 where
  pub kind : is_varlen f' ≡ false
  pub nullable : is_nullable f' ≡ true
  pub sized : f'.typlen < 32768
  pub index : f'.offset ≡ negate (s.nullable_fixed + 1)
  pub counted : s'.nullable_fixed ≡ s.nullable_fixed + 1
  pub same :
      (s'.off ≡ s.off)
      × (s'.nonnullable ≡ s.nonnullable)
      × (s'.varlen ≡ s.varlen)
      × (s'.nullable_varlen ≡ s.nullable_varlen)
      × (s'.reorder ≡ s.reorder)

pub record AsFixed (i : ℕ) (s : Scan) (f' : FieldInfo) (s' : Scan) : Type 0 where
  pub kind : is_varlen f' ≡ false
  pub nonnullable : is_nullable f' ≡ false
  pub sized : f'.typlen < 32768
  pub placed : f'.offset ≡ type_align f'.typalign s.off
  pub in_range : is_negative f'.offset ≡ false
  pub advanced : add_with_check f'.offset f'.typlen ≡ some s'.off
  pub counted : s'.nonnullable ≡ s.nonnullable + 1
  pub listed : s'.reorder ≡ set s.reorder s.nonnullable i
  pub same :
      (s'.nullable_fixed ≡ s.nullable_fixed)
      × (s'.varlen ≡ s.varlen)
      × (s'.nullable_varlen ≡ s.nullable_varlen)

pub record Visited (i bit : ℕ) (s : Scan) (f' : FieldInfo) (s' : Scan) : Type 0 where
  pub same_null : f'.nullbit_id ≡ bit
  pub aligned : IsAlignment f'.typalign
  pub effect : AsVarlen s f' s' ⊎ (AsNullable s f' s' ⊎ AsFixed i s f' s')

module _ (f : FieldInfo) (s : Scan) (aligned : IsAlignment f.typalign) {f' : FieldInfo}
    {s' : Scan} where
  visit_varlen-Visited :
      (i : ℕ) (t : CatType) → visit_varlen f s t ≡ visited f' s' → Visited i f.nullbit_id s f' s'
  unfolding visit_varlen
  visit_varlen-Visited i t e = record {
    same_null = ground arith;
    aligned = subst IsAlignment (ground arith) aligned;
    effect = inl (ground arith);
  }

  place_fixed-Visited :
      (i : ℕ)
      → f.typlen < 32768
      → is_nullable f ≡ false
      → place_fixed i f s ≡ visited f' s'
      → AsFixed i s f' s' × (f'.nullbit_id ≡ f.nullbit_id) × (f.typalign ≡ f'.typalign)
  unfolding place_fixed
  place_fixed-Visited i k n e = ground arith

  visit_fixed-Visited :
      (i : ℕ)
      → f.typlen < 32768
      → visit_fixed i f s ≡ visited f' s'
      → Visited i f.nullbit_id s f' s'
  unfolding visit_fixed
  visit_fixed-Visited i k e = elim (Bool-cases (is_nullable f)) [
    | inl n ↦ record {
      same_null = ground arith;
      aligned = subst IsAlignment (ground arith) aligned;
      effect = inr (inl (ground arith));
    }
    | inr n ↦
        let fixed = place_fixed-Visited i k n (rw n at e) in
        record {
          same_null = fixed.1;
          aligned = subst IsAlignment fixed.2 aligned;
          effect = inr (inr fixed.0);
        }
  ]

-- A length that a type's function gives is not negative.
abbrev pub GivesLengths : (ℕ → ℕ → Option ℕ) → Type 0
GivesLengths call_length = (g p n : ℕ) → call_length g p ≡ some n → n % 65536 < 32768

-- The catalog has no other alignments than 1, 2, 4 and 8.
abbrev pub GivesAlignments : (ℕ → Option CatType) → Type 0
GivesAlignments find_type = (id : ℕ) (t : CatType) → find_type id ≡ some t → IsAlignment t.typalign

module _ (find_type : ℕ → Option CatType) (call_length : ℕ → ℕ → Option ℕ)
    (alignments : GivesAlignments find_type) (lengths : GivesLengths call_length) where
  fixed_length-lt :
      (t : CatType) (f : FieldInfo) (len : ℕ)
      → fixed_length find_type call_length t f ≡ some len
      → len < 32768
  unfolding fixed_length
  fixed_length-lt t f len e = elim (Option-cases (call_length t.typlenfunc f.typparam)) [
    | inl none_given ↦ ground arith
    | inr (n, given) ↦ ground (arith, lengths t.typlenfunc f.typparam n given)
  ]

  visit_typed-Visited :
      (i : ℕ) (f : FieldInfo) (s : Scan) (t : CatType) {f' : FieldInfo} {s' : Scan}
      → IsAlignment t.typalign
      → visit_typed find_type call_length i f s t ≡ visited f' s'
      → Visited i f.nullbit_id s f' s'
  unfolding visit_typed
  visit_typed-Visited i f s t aligned e = elim (Bool-cases t.typisvarlen) [
    | inl v ↦ visit_varlen-Visited cached s aligned i t (simp v at e)
    | inr v ↦ elim (Option-cases (fixed_length find_type call_length t cached)) [
      | inl l ↦ cc (simp (v, l) at e)
      | inr (len, l) ↦
          visit_fixed-Visited (record cached { typlen = len; typbyref = t.typbyref }) s aligned i
            (fixed_length-lt t cached len l) (simp (v, l) at e)
    ]
  ]
    where
      cached : FieldInfo
      cached = record f { typlen = t.typlen; typalign = t.typalign }

  -- A round that goes on has made the field one of the three kinds.
  pub visit-Visited :
      (i : ℕ) (f : FieldInfo) (s : Scan) {f' : FieldInfo} {s' : Scan}
      → visit find_type call_length i f s ≡ visited f' s'
      → Visited i f.nullbit_id s f' s'
  unfolding visit
  visit-Visited i f s e = elim (Option-cases (find_type f.typid)) [
    | inl l ↦ cc (rw (l, visit) at e)
    | inr (t, l) ↦ visit_typed-Visited i f s t (alignments f.typid t l) (rw (l, visit) at e)
  ]
