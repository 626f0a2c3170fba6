-- ===== src/Schema/NullIds.antt =====
-- Which null bit each nullable field has, when that is a bit of its own, and when it is not.
use database_systems.Common.{
  ℕ, zero, suc, ◌+◌, ◌≤◌, ◌<◌, ◌≡◌, ◌≢◌, Bool, true, ◌&&◌, List, [], ◌∷◌, some, none, get_elem?,
  take, if◌then◌else◌, arith,
}
use database_systems.Schema.Defs.{Schema, FieldInfo, is_nullable}
use database_systems.Schema.Kinds.{is_varlen, is_nullable_fixed}
use database_systems.Schema.Layout.{Scan}
use database_systems.Schema.Trace.{Trace, done, round}
use database_systems.Schema.Bits.{NullBits, none, one, count_nullable}
use database_systems.Schema.Laid.{IsLaidOut}

abbrev pub is_nullable_varlen : FieldInfo → Bool
is_nullable_varlen f = is_varlen f && is_nullable f

abbrev pub count : (FieldInfo → Bool) → List FieldInfo → ℕ
count p [] = 0
count p (f ∷ fs) = let rest = count p fs in if p f then suc rest else rest

-- How many of the first `n` fields have a property.
abbrev pub before : (FieldInfo → Bool) → ℕ → List FieldInfo → ℕ
before p n fs = count p (take n fs)

Trace-nullable_count :
    {i : ℕ} {s c : Scan} {fs : List FieldInfo}
    → Trace i s fs c
    → c.nullable_varlen ≡ s.nullable_varlen + count is_nullable_varlen fs
Trace-nullable_count (done e) = ground arith
Trace-nullable_count (round v rest) = ground (arith, Trace-nullable_count rest)

-- The bit of a field of the given section, from the totals and the counts before it.
abbrev bit_of : Scan → ℕ → ℕ → FieldInfo → ℕ
bit_of c varlen nullable_fixed f =
    if is_varlen f then varlen else nullable_fixed + c.nullable_varlen

NullBits-bit :
    {c s : Scan} {i : ℕ} {fs : List FieldInfo}
    → NullBits c i s fs
    → (n : ℕ) (f : FieldInfo) → get_elem? fs n ≡ some f
    → is_nullable f ≡ true
    → f.nullbit_id
      ≡ bit_of c
          (s.varlen + before is_varlen n fs)
          (s.nullable_fixed + before is_nullable_fixed n fs)
          f
NullBits-bit none n f e k = cc
NullBits-bit (one {f = g} v b rest) zero f e k = ground (arith, b)
NullBits-bit (one {f = g} v b rest) (suc n) f e k = ground (arith, v, NullBits-bit rest n f e k)

count_nullable-sum :
    (fs : List FieldInfo)
    → count_nullable fs ≡ count is_nullable_varlen fs + count is_nullable_fixed fs
count_nullable-sum [] = omega arith
count_nullable-sum (f ∷ fs) = ground (arith, count_nullable-sum fs)

before-le-count : (p : FieldInfo → Bool) (n : ℕ) (fs : List FieldInfo) → before p n fs ≤ count p fs
before-le-count p zero fs = omega arith
before-le-count p (suc n) [] = omega arith
before-le-count p (suc n) (f ∷ fs) = ground (arith, before-le-count p n fs)

-- A field with the property counts for every later field, and in the total.
before-lt :
    (p : FieldInfo → Bool) (m n : ℕ) (fs : List FieldInfo) (f : FieldInfo)
    → get_elem? fs m ≡ some f
    → p f ≡ true
    → m < n
    → before p m fs < before p n fs
before-lt p m n [] f e k h = cc
before-lt p m zero (g ∷ fs) f e k h = absurd (omega arith)
before-lt p zero (suc n) (g ∷ fs) f e k h = ground (arith)
before-lt p (suc m) (suc n) (g ∷ fs) f e k h =
    ground (arith, before-lt p m n fs f e k (omega arith))

-- The null bit of a nullable field of a laid-out schema. For a variable-length field it is the number
-- of variable-length fields before it, nullable or not. For a fixed-length field it is the number of
-- nullable fixed-length fields before it, plus the number of nullable variable-length fields of the
-- whole schema.
pub null_bit_lem :
    (s : Schema) (n : ℕ) (f : FieldInfo)
    → IsLaidOut s
    → get_elem? s.field n ≡ some f
    → is_nullable f ≡ true
    → f.nullbit_id ≡ (
        if is_varlen f
        then before is_varlen n s.field
        else before is_nullable_fixed n s.field + count is_nullable_varlen s.field)
null_bit_lem s n f laid e k =
    ground (arith, laid.zero, Trace-nullable_count laid.trace, NullBits-bit laid.bits n f e k)

-- In a laid-out schema without non-nullable variable-length fields, the null bit of every nullable
-- field lies in the bitmap, and no two nullable fields share one.
pub null_bits_distinct :
    (s : Schema) (m n : ℕ) (f g : FieldInfo)
    → IsLaidOut s
    → count is_nullable_varlen s.field ≡ count is_varlen s.field
    → get_elem? s.field m ≡ some f
    → get_elem? s.field n ≡ some g
    → is_nullable f ≡ true
    → is_nullable g ≡ true
    → m < n
    → (f.nullbit_id < count_nullable s.field) × (f.nullbit_id ≢ g.nullbit_id)
null_bits_distinct s m n f g laid all e e' k k' h = ground (
  arith,
  null_bit_lem s m f laid e k,
  null_bit_lem s n g laid e' k',
  count_nullable-sum s.field,
  before-le-count is_varlen n s.field,
  before-le-count is_nullable_fixed n s.field,
  before-lt is_varlen m n s.field f e,
  before-lt is_nullable_fixed m n s.field f e,
  before-lt is_varlen n (suc n) s.field g e',
  before-le-count is_varlen (suc n) s.field,
)
