-- ===== src/Types/Undo.antt =====
-- Subtraction after addition, in the eight integer types.
use database_systems.Common.{
  ℕ, ◌%◌, ◌^◌, ◌<◌, ◌≤◌, [], ◌∷◌, ◌≡◌, subst, ◌∙◌, refl, ap, arith, Result, ◌>>=◌, ok, undefined,
  throws,
}
use database_systems.Payload.Write.{Value, rep}
use database_systems.Types.Signed.{ℤ, pos, negsuc, IntType, value, wrap}
use database_systems.Types.Integer.{add, sub, operate, arithmetic, from}
use database_systems.Types.Files.{
  int1, int2, int4, int8, uint1, uint2, uint4, uint8, IntName, int_type, name_int1, name_int2,
  name_int4, name_int8, name_uint1, name_uint2, name_uint4, name_uint8,
}
use native.Mathlib.Nat.{mod-lt}

-- Subtracting what has been added gives the pattern back.
abbrev Undoes : ℕ → IntType → Type 0
Undoes w t =
    (x y : ℕ) (z : ℤ)
    → x < 2 ^ w
    → y < 2 ^ w
    → operate t add x y ≡ ok z
    → (operate t sub (wrap w z) y >>= λ d. ok (wrap w d)) ≡ ok x

back_int1 : (x : ℕ) → x < 2 ^ 8 → wrap 64 (value int1 x) % 2 ^ 8 ≡ x
back_int1 x h = ground arith

undo_int1 : Undoes 8 int1
undo_int1 x y (pos n) h k e = ground arith
undo_int1 x y (negsuc n) h k e = ground arith

back_int2 : (x : ℕ) → x < 2 ^ 16 → wrap 64 (value int2 x) % 2 ^ 16 ≡ x
back_int2 x h = ground arith

undo_int2 : Undoes 16 int2
undo_int2 x y (pos n) h k e = ground arith
undo_int2 x y (negsuc n) h k e = ground arith

back_int4 : (x : ℕ) → x < 2 ^ 32 → wrap 64 (value int4 x) % 2 ^ 32 ≡ x
back_int4 x h = ground arith

undo_int4 : Undoes 32 int4
undo_int4 x y (pos n) h k e = ground arith
undo_int4 x y (negsuc n) h k e = ground arith

back_int8 : (x : ℕ) → x < 2 ^ 64 → wrap 64 (value int8 x) % 2 ^ 64 ≡ x
back_int8 x h = ground arith

undo_int8 : Undoes 64 int8
undo_int8 x y (pos n) h k e = ground arith
undo_int8 x y (negsuc n) h k e = ground arith

back_uint1 : (x : ℕ) → x < 2 ^ 8 → wrap 64 (value uint1 x) % 2 ^ 8 ≡ x
back_uint1 x h = ground arith

undo_uint1 : Undoes 8 uint1
undo_uint1 x y (pos n) h k e = ground arith
undo_uint1 x y (negsuc n) h k e = ground arith

back_uint2 : (x : ℕ) → x < 2 ^ 16 → wrap 64 (value uint2 x) % 2 ^ 16 ≡ x
back_uint2 x h = ground arith

undo_uint2 : Undoes 16 uint2
undo_uint2 x y (pos n) h k e = ground arith
undo_uint2 x y (negsuc n) h k e = ground arith

back_uint4 : (x : ℕ) → x < 2 ^ 32 → wrap 64 (value uint4 x) % 2 ^ 32 ≡ x
back_uint4 x h = ground arith

undo_uint4 : Undoes 32 uint4
undo_uint4 x y (pos n) h k e = ground arith
undo_uint4 x y (negsuc n) h k e = ground arith

back_uint8 : (x : ℕ) → x < 2 ^ 64 → wrap 64 (value uint8 x) % 2 ^ 64 ≡ x
back_uint8 x h = ground arith

undo_uint8 : Undoes 64 uint8
undo_uint8 x y (pos n) h k e = ground arith
undo_uint8 x y (negsuc n) h k e = ground arith

wrap-lt : (w : ℕ) (z : ℤ) → 1 ≤ 2 ^ w → wrap w z < 2 ^ w
wrap-lt w (pos n) h = omega (arith, mod-lt n h)
wrap-lt w (negsuc n) h = omega arith

ok_from :
    (t : IntType) (m : Result ℤ) (x : ℕ)
    → (m >>= λ d. ok (wrap t.width d)) ≡ ok x
    → (m >>= λ d. ok (from t d)) ≡ ok (rep (wrap 64 (value t x)))
ok_from t (ok d) x h = cc
ok_from t (throws e) x h = absurd (ground arith)
ok_from t undefined x h = absurd (ground arith)

ok_inj : {A : Type 0} {a b : A} → ok a ≡ ok b → a ≡ b
ok_inj e = cc

module _ (t : IntType) (some_value : 1 ≤ 2 ^ t.width) (undo : Undoes t.width t)
    (back : (x : ℕ) → x < 2 ^ t.width → wrap 64 (value t x) % 2 ^ t.width ≡ x) where
  sub_step :
      (z : ℤ) (v : ℕ)
      → arithmetic t sub (from t z ∷ rep v ∷ [])
        ≡ (operate t sub (wrap t.width z) (v % 2 ^ t.width) >>= λ d. ok (from t d))
  unfolding arithmetic
  sub_step z v =
      ap (λ n. operate t sub n (v % 2 ^ t.width) >>= λ d. ok (from t d))
        (back (wrap t.width z) (wrap-lt t.width z some_value))

  undo_from :
      (u v : ℕ) (m : Result ℤ) (r : Value)
      → operate t add (u % 2 ^ t.width) (v % 2 ^ t.width) ≡ m
      → (m >>= λ z. ok (from t z)) ≡ ok r
      → arithmetic t sub (r ∷ rep v ∷ []) ≡ ok (rep (wrap 64 (value t (u % 2 ^ t.width))))
  undo_from u v (ok z) r e h =
      subst
        (λ r. arithmetic t sub (r ∷ rep v ∷ []) ≡ ok (rep (wrap 64 (value t (u % 2 ^ t.width)))))
        (ok_inj h)
        (sub_step z v
          ∙ ok_from t (operate t sub (wrap t.width z) (v % 2 ^ t.width)) (u % 2 ^ t.width) (
              undo (u % 2 ^ t.width) (v % 2 ^ t.width) z (mod-lt u some_value) (mod-lt v some_value)
                e))
  undo_from u v (throws e') r e h = absurd (ground arith)
  undo_from u v undefined r e h = absurd (ground arith)

  undo_arithmetic :
      (u v : ℕ) (r : Value)
      → arithmetic t add (rep u ∷ rep v ∷ []) ≡ ok r
      → arithmetic t sub (r ∷ rep v ∷ []) ≡ ok (rep (wrap 64 (value t (u % 2 ^ t.width))))
  unfolding arithmetic
  undo_arithmetic u v r h =
      undo_from u v (operate t add (u % 2 ^ t.width) (v % 2 ^ t.width)) r refl h

-- In each of the eight types: where the sum of two arguments that are not NULL is defined,
-- subtracting the second argument from it is defined too and answers the first argument, as the
-- type reads it and `Datum::From` represents it.
pub add_then_sub :
    (name : IntName) (u v : ℕ) (r : Value)
    → let t = int_type name in
      arithmetic t add (rep u ∷ rep v ∷ []) ≡ ok r
      → arithmetic t sub (r ∷ rep v ∷ []) ≡ ok (rep (wrap 64 (value t (u % 2 ^ t.width))))
add_then_sub name_int1 = undo_arithmetic int1 (omega arith) undo_int1 back_int1
add_then_sub name_int2 = undo_arithmetic int2 (omega arith) undo_int2 back_int2
add_then_sub name_int4 = undo_arithmetic int4 (omega arith) undo_int4 back_int4
add_then_sub name_int8 = undo_arithmetic int8 (omega arith) undo_int8 back_int8
add_then_sub name_uint1 = undo_arithmetic uint1 (omega arith) undo_uint1 back_uint1
add_then_sub name_uint2 = undo_arithmetic uint2 (omega arith) undo_uint2 back_uint2
add_then_sub name_uint4 = undo_arithmetic uint4 (omega arith) undo_uint4 back_uint4
add_then_sub name_uint8 = undo_arithmetic uint8 (omega arith) undo_uint8 back_uint8
