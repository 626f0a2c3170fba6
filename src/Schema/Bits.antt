-- ===== src/Schema/Bits.antt =====
-- The second layout loop: the null bits that it hands out. It changes nothing else of a field.
use database_systems.Common.{
  ℕ, suc, ◌+◌, ◌≤◌, ◌<◌, ◌≡◌, refl, subst, Bool, true, inl, inr, List, [], ◌∷◌, if◌then◌else◌,
  arith,
}
use database_systems.Base.Align.{IsAlignment}
use database_systems.Schema.Defs.{FieldInfo, is_nullable}
use database_systems.Schema.Kinds.{is_varlen, ids}
use database_systems.Schema.Layout.{Scan}
use database_systems.Schema.Visit.{Visited, AsVarlen, AsNullable, AsFixed}
use database_systems.Schema.Trace.{Trace, done, round, Trace-counts}
use database_systems.Schema.Compute.{Assign, assign_field, assign_fields}

-- The number of nullable fields.
abbrev pub count_nullable : List FieldInfo → ℕ
count_nullable [] = 0
count_nullable (f ∷ fs) = let rest = count_nullable fs in if is_nullable f then suc rest else rest

-- The null bit of a nullable field, from the numbers of variable-length and of nullable
-- fixed-length fields before it. `c` holds the totals.
abbrev pub HasBit : Scan → Scan → FieldInfo → Type 0
HasBit c s f =
    is_nullable f ≡ true
    → f.nullbit_id ≡ (if is_varlen f then s.varlen else s.nullable_fixed + c.nullable_varlen)

pub data NullBits (c : Scan) : ℕ → Scan → List FieldInfo → Type 0 where
  none : {i : ℕ} {s : Scan} → NullBits c i s []
  one :
      {i bit : ℕ} {s t : Scan} {f : FieldInfo} {fs : List FieldInfo}
      → Visited i bit s f t
      → HasBit c s f
      → NullBits c (i + 1) t fs
      → NullBits c i s (f ∷ fs)

pub Trace-nullable_varlen :
    {i : ℕ} {s c : Scan} {fs : List FieldInfo}
    → Trace i s fs c
    → s.nullable_varlen ≤ s.varlen
    → (c.nullable_varlen ≤ c.varlen)
      × (s.nullable_varlen ≤ c.nullable_varlen)
      × (c.nullable_varlen + c.nullable_fixed
          ≡ s.nullable_varlen + s.nullable_fixed + count_nullable fs)
Trace-nullable_varlen (done e) h = ground arith
Trace-nullable_varlen (round v rest) h = ground (arith, Trace-nullable_varlen rest)

module _ (c : Scan) (i : ℕ) (s t : Scan) (f : FieldInfo) (a : Assign) where
  assign-varlen :
      AsVarlen s f t
      → t.varlen ≤ c.varlen
      → c.varlen < 32768
      → AsVarlen s (assign_field c i f a).0 t × HasBit c s (assign_field c i f a).0
  unfolding assign_field
  assign-varlen v m bound = (ground (arith, v), ground (arith, v))

  assign-nullable :
      AsNullable s f t
      → t.nullable_fixed ≤ c.nullable_fixed
      → c.nullable_varlen + c.nullable_fixed < 32768
      → AsNullable s (assign_field c i f a).0 t × HasBit c s (assign_field c i f a).0
  unfolding assign_field
  assign-nullable v m bound = (ground (arith, v), ground (arith, v))

  assign-fixed :
      AsFixed i s f t → AsFixed i s (assign_field c i f a).0 t × HasBit c s (assign_field c i f a).0
  unfolding assign_field
  assign-fixed v = (ground (arith, v), ground (arith, v))

  assign_field-Visited :
      {bit : ℕ}
      → Visited i bit s f t
      → (t.varlen ≤ c.varlen) × (t.nullable_fixed ≤ c.nullable_fixed)
      → c.nullable_varlen ≤ c.varlen
      → c.varlen + c.nullable_fixed < 32768
      → Visited i (assign_field c i f a).0.nullbit_id s (assign_field c i f a).0 t
        × HasBit c s (assign_field c i f a).0
  assign_field-Visited v more k bound =
      let aligned : IsAlignment (assign_field c i f a).0.typalign =
        unfold assign_field in subst IsAlignment (ground arith) v.aligned in
      elim v.effect [
        | inl e ↦
            let r = assign-varlen e more.0 (omega arith) in
            (record { same_null = refl; aligned = aligned; effect = inl r.0 }, r.1)
        | inr (inl e) ↦
            let r = assign-nullable e more.1 (omega arith) in
            (record { same_null = refl; aligned = aligned; effect = inr (inl r.0) }, r.1)
        | inr (inr e) ↦
            let r = assign-fixed e in
            (record { same_null = refl; aligned = aligned; effect = inr (inr r.0) }, r.1)
      ]

-- The fields stay as the first loop has made them, but for their null bits.
pub assign-NullBits :
    {i : ℕ} {s c : Scan} {fs : List FieldInfo}
    → Trace i s fs c
    → c.nullable_varlen ≤ c.varlen
    → c.varlen + c.nullable_fixed < 32768
    → (a : Assign)
    → Trace i s (assign_fields c i fs a).0 c × NullBits c i s (assign_fields c i fs a).0
unfolding assign_fields
assign-NullBits (done e) k bound = λ a. (done e, none)
assign-NullBits (round {i} {s} {t} {c} {f} {fs} v rest) k bound = λ a.
    let r =
      assign_field-Visited c i s t f a v
        (omega (arith, Trace-counts rest), omega (arith, Trace-counts rest)) k bound in
    let later = assign-NullBits rest k bound (assign_field c i f a).1 in
    (round r.0 later.0, one r.0 r.1 later.1)

assign_field-nullable_fields :
    (c : Scan) (i : ℕ) (f : FieldInfo) (a : Assign)
    → (assign_field c i f a).1.nullable_fields
      ≡ (if is_nullable f then a.nullable_fields + 1 else a.nullable_fields)
unfolding assign_field
assign_field-nullable_fields c i f a = ground arith

pub assign-nullable_fields :
    (c : Scan) (i : ℕ) (fs : List FieldInfo) (a : Assign)
    → (assign_fields c i fs a).1.nullable_fields ≡ a.nullable_fields + count_nullable fs
unfolding assign_fields
assign-nullable_fields c i [] a = omega arith
assign-nullable_fields c i (f ∷ fs) a = ground (
  arith,
  assign_field-nullable_fields c i f a,
  assign-nullable_fields c (i + 1) fs (assign_field c i f a).1,
)

module _ (c : Scan) (i : ℕ) (s t : Scan) (f : FieldInfo) (a : Assign) where
  assign_field-typlen : (assign_field c i f a).0.typlen ≡ f.typlen
  unfolding assign_field
  assign_field-typlen = ground arith

  assign_field-is_nullable :
      {bit : ℕ}
      → Visited i bit s f t
      → (t.varlen ≤ c.varlen) × (t.nullable_fixed ≤ c.nullable_fixed)
      → c.nullable_varlen ≤ c.varlen
      → c.varlen + c.nullable_fixed < 32768
      → is_nullable (assign_field c i f a).0 ≡ is_nullable f
  unfolding assign_field
  assign_field-is_nullable v more k bound = elim v.effect [
    | inl e ↦ ground (arith, e)
    | inr (inl e) ↦ ground (arith, e)
    | inr (inr e) ↦ ground (arith, e)
  ]

-- A property of a field that rests on its length and on whether it may be NULL.
abbrev pub IsKind : (FieldInfo → Bool) → Type 0
IsKind p = (f g : FieldInfo) → f.typlen ≡ g.typlen → is_nullable f ≡ is_nullable g → p f ≡ p g

-- So the second loop moves no field to another section.
pub assign-ids :
    {i : ℕ} {s c : Scan} {fs : List FieldInfo}
    → Trace i s fs c
    → c.nullable_varlen ≤ c.varlen
    → c.varlen + c.nullable_fixed < 32768
    → (a : Assign) (p : FieldInfo → Bool) → IsKind p
    → ids p i (assign_fields c i fs a).0 ≡ ids p i fs
unfolding assign_fields
assign-ids (done e) k bound = λ a p kind. refl
assign-ids (round {i} {s} {t} {c} {f} {fs} v rest) k bound = λ a p kind.
    let same = kind (assign_field c i f a).0 f (assign_field-typlen c i s t f a) (
      assign_field-is_nullable c i s t f a v
        (omega (arith, Trace-counts rest), omega (arith, Trace-counts rest)) k bound) in
    rw (same, assign-ids rest k bound (assign_field c i f a).1 p kind)

-- Where no field is nullable, there is no bit to hand out.
pub Trace-NullBits :
    {i : ℕ} {s c : Scan} {fs : List FieldInfo}
    → Trace i s fs c
    → c.varlen ≡ s.varlen
    → c.nullable_fixed ≡ s.nullable_fixed
    → NullBits c i s fs
Trace-NullBits (done e) m n = none
Trace-NullBits (round v rest) m n = elim v.effect [
  | inl a ↦ absurd (omega (arith, a.counted, Trace-counts rest))
  | inr (inl a) ↦ absurd (omega (arith, a.counted, Trace-counts rest))
  | inr (inr a) ↦
      one v (λ nullable. cc (nullable, a.nonnullable))
        (Trace-NullBits rest (omega (arith, a.same)) (omega (arith, a.same)))
]
