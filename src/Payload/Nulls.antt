-- ===== src/Payload/Nulls.antt =====
-- The null bits that WritePayloadToBufferImpl sets and FieldIsNull reads, in src/catalog/Schema.cpp.
use database_systems.Common.{
  ℕ, ◌+◌, ◌/◌, ◌%◌, ◌^◌, ◌<◌, Bool, true, false, ◌==◌, bit_or, if◌then◌else◌, ◌≡◌, ◌≢◌, refl, arith,
  inl, inr, Bool-cases, ==_iff, subst, sym, ap, ◌∙◌, ◌-◌, List, [], ◌∷◌, some, length, get_elem?,
  load, ltb, overwrite, undefined, ok, of_bytes,
}
use database_systems.Schema.Defs.{Schema, FieldInfo, is_nullable}
use database_systems.Payload.Write.{bias, set_null_bit, store_at}
use database_systems.Payload.Read.{null_bit, field_is_null}
use database_systems.Schema.Kinds.{is_varlen, is_nullable_fixed}
use database_systems.Schema.NullIds.{
  before, count, is_nullable_varlen, null_bit_lem, null_bits_distinct,
}
use database_systems.Schema.Laid.{IsLaidOut}
use database_systems.Payload.Places.{load-overwrite, store_fits}
use database_systems.Payload.Flags.{
  bit_test, bit_test-set, get_elem?-inside, load-overwrite_other, load_at, load_beyond,
}

-- The bytes are below 256.
abbrev pub AreBytes : List ℕ → Type 0
AreBytes p = (q b : ℕ) → get_elem? p q ≡ some b → b < 256

-- The bit's byte is in the payload, and gets the bit.
set_null_bit-overwrite :
    (s : Schema) (id : ℕ) (p p' : List ℕ)
    → s.null_bitmap_begin < 32768
    → id < 32768
    → set_null_bit s 0 id p ≡ ok p'
    → let at = s.null_bitmap_begin + id / 8 in
      (at < length p)
      × ((b : ℕ) × (get_elem? p at ≡ some b) × (p' ≡ overwrite p at (bit_or b (2 ^ (id % 8)) ∷ [])))
unfolding set_null_bit store_at of_bytes
set_null_bit-overwrite s id p p' low small h = elim (Bool-cases (ltb at (length p))) [
  | inr e ↦ absurd (clash (sym (rw (address, load_beyond p at (ground arith)) refl) ∙ h))
  | inl e ↦
      let (b, here) = get_elem?-inside p at (ground arith) in
      (ground arith, (b, here, ok_inj (sym (written b here (ground arith)) ∙ h)))
]
  where
    at : ℕ
    at = s.null_bitmap_begin + id / 8

    address : bias s.null_bitmap_begin + 0 + bias id / 8 - 36864 ≡ at
    address = omega arith

    behind : ltb (bias s.null_bitmap_begin + 0 + bias id / 8) 36864 ≡ false
    behind = ground arith

    clash : undefined ≡ ok p' → ⊥
    clash e = cc

    ok_inj : {q r : List ℕ} → ok q ≡ ok r → r ≡ q
    ok_inj e = cc

    written :
        (b : ℕ)
        → get_elem? p at ≡ some b
        → at < length p
        → set_null_bit s 0 id p ≡ ok (overwrite p at (bit_or b (2 ^ (id % 8)) ∷ []))
    written b here inside =
        rw
          (
            address,
            load_at p at b inside here,
            behind,
            value,
            store_fits p at (bit_or b (2 ^ (id % 8)) ∷ []) (omega arith),
          )
          refl
      where
        value : b + 0 ≡ b
        value = omega arith

-- The null bits behind the write of one: it is set, and the others are as before.
set_null_bit-null_bit :
    (s : Schema) (id id' : ℕ) (p p' : List ℕ)
    → s.null_bitmap_begin < 32768
    → id < 32768
    → AreBytes p
    → set_null_bit s 0 id p ≡ ok p'
    → null_bit s p' id' ≡ (if id == id' then ok true else null_bit s p id')
unfolding null_bit of_bytes
set_null_bit-null_bit s id id' p p' low small all h =
    let (inside, (b, here, now)) = set_null_bit-overwrite s id p p' low small h in
    let at : ℕ = s.null_bitmap_begin + id / 8 in
    let x : ℕ = bit_or b (2 ^ (id % 8)) in
    elim (Bool-cases (id / 8 == id' / 8)) [
      | inl e ↦
          let byte : id' / 8 ≡ id / 8 = ground arith in
          let written : load p' at 1 ≡ some (x ∷ []) =
            ap (λ q. load q at 1) now ∙ load-overwrite p at (x ∷ []) (omega arith) in
          rw (byte, written, load_at p at b inside here, none_above b, none_above x)
            (subst
              (λ t. ok (bit_test x (id' % 8)) ≡ (if t then ok true else ok (bit_test b (id' % 8))))
              (same_bit byte)
              (in_ok (id % 8 == id' % 8) (bit_test b (id' % 8)) (bit_test x (id' % 8))
                (bit_test-set b (id % 8) (id' % 8) (all at b here) (omega arith) (omega arith))))
      | inr e ↦
          let kept : load p' (s.null_bitmap_begin + id' / 8) 1
              ≡ load p (s.null_bitmap_begin + id' / 8) 1 =
            ap (λ q. load q (s.null_bitmap_begin + id' / 8) 1) now
            ∙ load-overwrite_other p at (s.null_bitmap_begin + id' / 8) x inside
                (λ z. ground arith) in
          rw (kept, different e) refl
    ]
  where
    none_above : (y : ℕ) → y + 0 ≡ y
    none_above y = omega arith

    same_bit : id' / 8 ≡ id / 8 → (id % 8 == id' % 8) ≡ (id == id')
    same_bit e = ground arith

    different : (id / 8 == id' / 8) ≡ false → (id == id') ≡ false
    different e = ground arith

    in_ok :
        (same old now : Bool)
        → now ≡ (if same then true else old)
        → ok now ≡ (if same then ok true else ok old)
    in_ok true old now e = ap ok e
    in_ok false old now e = ap ok e

field_is_null-nullable :
    (s : Schema) (i : ℕ) (f : FieldInfo) (payload : List ℕ)
    → get_elem? s.field i ≡ some f
    → is_nullable f ≡ true
    → field_is_null s i payload ≡ null_bit s payload f.nullbit_id
unfolding field_is_null
field_is_null-nullable s i f payload e k = rw (e, k)

module _ (s : Schema) (i j : ℕ) (f g : FieldInfo) (p p' : List ℕ) (laid : IsLaidOut s)
    (at_i : get_elem? s.field i ≡ some f) (at_j : get_elem? s.field j ≡ some g)
    (nullable_f : is_nullable f ≡ true) (nullable_g : is_nullable g ≡ true) (all : AreBytes p)
    (written : set_null_bit s 0 f.nullbit_id p ≡ ok p') where
  low : s.null_bitmap_begin < 32768
  low = omega (arith, laid.ends, laid.payload, laid.in_range)

  reads :
      (k : ℕ) (h : FieldInfo)
      → get_elem? s.field k ≡ some h
      → is_nullable h ≡ true
      → field_is_null s k p'
        ≡ (if f.nullbit_id == h.nullbit_id then ok true else field_is_null s k p)
  reads k h at_k nullable =
      field_is_null-nullable s k h p' at_k nullable
      ∙ set_null_bit-null_bit s f.nullbit_id h.nullbit_id p p' low (ground arith) all written
      ∙ ap (λ r. if f.nullbit_id == h.nullbit_id then ok true else r)
          (sym (field_is_null-nullable s k h p at_k nullable))

  reads_self : field_is_null s i p' ≡ ok true
  reads_self =
      reads i f at_i nullable_f
      ∙ ap (λ b. if b then ok true else field_is_null s i p) ((==_iff _ _).1 refl)

  -- A laid-out schema of which every variable-length field is nullable, and a payload of bytes. When
  -- WritePayloadToBuffer has set the null bit of one nullable field, FieldIsNull is true for this
  -- field, and for every other nullable field it answers what it did before.
  pub set_null_bit-field_is_null :
      count is_nullable_varlen s.field ≡ count is_varlen s.field
      → i ≢ j
      → (field_is_null s i p' ≡ ok true) × (field_is_null s j p' ≡ field_is_null s j p)
  set_null_bit-field_is_null every other = (
    reads_self,
    reads j g at_j nullable_g ∙ ap (λ b. if b then ok true else field_is_null s j p) distinct,
  )
    where
      distinct : (f.nullbit_id == g.nullbit_id) ≡ false
      distinct = elim (Bool-cases (ltb i j)) [
        | inl e ↦
            let d =
              null_bits_distinct s i j f g laid every at_i at_j nullable_f nullable_g
                (ground arith) in
            ground (arith, d.1)
        | inr e ↦
            let d =
              null_bits_distinct s j i g f laid every at_j at_i nullable_g nullable_f
                (ground (arith, other)) in
            ground (arith, d.1)
      ]

  -- In a laid-out schema, take a nullable variable-length field and a nullable fixed-length field
  -- such that as many variable-length fields stand before the first as nullable fixed-length fields
  -- before the second and nullable variable-length fields in the whole schema. When
  -- WritePayloadToBuffer has set the null bit of the first for a NULL, in a payload of bytes,
  -- FieldIsNull is true for the second as well.
  pub set_null_bit-shared :
      is_varlen f ≡ true
      → is_varlen g ≡ false
      → before is_varlen i s.field
        ≡ before is_nullable_fixed j s.field + count is_nullable_varlen s.field
      → (field_is_null s i p' ≡ ok true) × (field_is_null s j p' ≡ ok true)
  set_null_bit-shared varlen fixed same = (
    reads_self,
    reads j g at_j nullable_g ∙ ap (λ b. if b then ok true else field_is_null s j p) shared,
  )
    where
      shared : (f.nullbit_id == g.nullbit_id) ≡ true
      shared =
          ground (
            arith,
            null_bit_lem s i f laid at_i nullable_f,
            null_bit_lem s j g laid at_j nullable_g,
          )
