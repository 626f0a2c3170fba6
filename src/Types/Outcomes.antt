-- ===== src/Types/Outcomes.antt =====
-- When the division functions of the eight integer types return, throw or are undefined.
use database_systems.Common.{
  ◌>>◌, not, check, Bool-cases, error, suc, leb, if◌then◌else◌, ℕ, zero, suc, ◌-◌, ◌*◌, ◌/◌, ◌%◌,
  ◌^◌, ◌<◌, ◌≤◌, Bool, true, false, [], ◌∷◌, ◌≡◌, ◌≢◌, ◌⊎◌, inl, inr, ◌∙◌, refl, ap, arith, Result,
  ◌>>=◌, ok, undefined, throws, ◌==◌, ◌&&◌,
}
use database_systems.Payload.Write.{Value, rep}
use database_systems.Types.Signed.{
  remainder, ℤ, IntType, value, evaluate, promote, quotient, magnitude,
}
use database_systems.Types.Integer.{div, modulo, operate, arithmetic, from}
use database_systems.Types.Files.{
  int1, int2, int4, int8, uint1, uint2, uint4, uint8, IntName, int_type, name_int1, name_int2,
  name_int4, name_int8, name_uint1, name_uint2, name_uint4, name_uint8,
}
use native.Mathlib.Nat.{div-mul-le_self, div-le_self, mul-le-mul_left, mod-lt}

div-half : (n m : ℕ) → 2 ≤ m → n / m * 2 ≤ n
div-half n m h = omega (arith, div-mul-le_self n m, mul-le-mul_left (n / m) h)

-- The one quotient that is too large: the least number by -1, in a type that is not promoted.
abbrev is_overflow : IntType → ℕ → ℕ → Bool
is_overflow t a b =
    t.signed && (leb 32 t.width && ((a == 2 ^ (t.width - 1)) && (b == 2 ^ t.width - 1)))

abbrev Divides : ℕ → IntType → Type 0
Divides w t =
    (a b : ℕ)
    → a < 2 ^ w
    → b < 2 ^ w
    → b ≢ 0
    → evaluate (promote t) (quotient (value t a) (value t b))
      ≡ (if is_overflow t a b then undefined else ok (quotient (value t a) (value t b)))

divides_int1 : Divides 8 int1
divides_int1 a b h k n = ground (
  arith,
  div-le_self (magnitude (value int1 a)) (magnitude (value int1 b)),
  div-half (magnitude (value int1 a)) (magnitude (value int1 b)),
)

divides_int2 : Divides 16 int2
divides_int2 a b h k n = ground (
  arith,
  div-le_self (magnitude (value int2 a)) (magnitude (value int2 b)),
  div-half (magnitude (value int2 a)) (magnitude (value int2 b)),
)

divides_int4 : Divides 32 int4
divides_int4 a b h k n = ground (
  arith,
  div-le_self (magnitude (value int4 a)) (magnitude (value int4 b)),
  div-half (magnitude (value int4 a)) (magnitude (value int4 b)),
)

divides_int8 : Divides 64 int8
divides_int8 a b h k n = ground (
  arith,
  div-le_self (magnitude (value int8 a)) (magnitude (value int8 b)),
  div-half (magnitude (value int8 a)) (magnitude (value int8 b)),
)

divides_uint1 : Divides 8 uint1
divides_uint1 a b h k n = ground (
  arith,
  div-le_self (magnitude (value uint1 a)) (magnitude (value uint1 b)),
  div-half (magnitude (value uint1 a)) (magnitude (value uint1 b)),
)

divides_uint2 : Divides 16 uint2
divides_uint2 a b h k n = ground (
  arith,
  div-le_self (magnitude (value uint2 a)) (magnitude (value uint2 b)),
  div-half (magnitude (value uint2 a)) (magnitude (value uint2 b)),
)

divides_uint4 : Divides 32 uint4
divides_uint4 a b h k n = ground (
  arith,
  div-le_self (magnitude (value uint4 a)) (magnitude (value uint4 b)),
  div-half (magnitude (value uint4 a)) (magnitude (value uint4 b)),
)

divides_uint8 : Divides 64 uint8
divides_uint8 a b h k n = ground (
  arith,
  div-le_self (magnitude (value uint8 a)) (magnitude (value uint8 b)),
  div-half (magnitude (value uint8 a)) (magnitude (value uint8 b)),
)

-- What DIV and MOD come to, from the patterns of the two arguments.
abbrev pub Outcome : IntType → ℕ → ℕ → Result Value → Result Value → Type 0
Outcome t a b quot rem =
    ((b ≡ 0) × (quot ≡ throws error) × (rem ≡ throws error))
    ⊎ (((b ≢ 0) × (is_overflow t a b ≡ true) × (quot ≡ undefined) × (rem ≡ undefined))
        ⊎ ((b ≢ 0)
            × (is_overflow t a b ≡ false)
            × (quot ≡ ok (from t (quotient (value t a) (value t b))))
            × (rem ≡ ok (from t (remainder (value t a) (value t b))))))

outcome_lem :
    (t : IntType)
    → Divides t.width t
    → (a b : ℕ) → a < 2 ^ t.width
    → b < 2 ^ t.width
    → Outcome t a b
        (operate t div a b >>= λ z. ok (from t z))
        (operate t modulo a b >>= λ z. ok (from t z))
outcome_lem t divides a zero h k = inl (refl, refl, refl)
outcome_lem t divides a (suc b) h k = elim (Bool-cases (is_overflow t a (suc b))) [
  | inl o ↦ inr (
      inl (
        suc≢0,
        o,
        ap to_quotient (div_lem ∙ quotient_lem ∙ ap choose o),
        ap to_quotient (modulo_lem ∙ ap to_remainder (quotient_lem ∙ ap choose o)),
      ))
  | inr o ↦ inr (
      inr (
        suc≢0,
        o,
        ap to_quotient (div_lem ∙ quotient_lem ∙ ap choose o),
        ap to_quotient (modulo_lem ∙ ap to_remainder (quotient_lem ∙ ap choose o)),
      ))
]
  where
    suc≢0 : suc b ≢ 0
    suc≢0 e = absurd (omega arith)

    q : ℤ
    q = quotient (value t a) (value t (suc b))

    choose : Bool → Result ℤ
    choose c = if c then undefined else ok q

    to_quotient : Result ℤ → Result Value
    to_quotient m = m >>= λ z. ok (from t z)

    to_remainder : Result ℤ → Result ℤ
    to_remainder m = m >>= λ z. ok (remainder (value t a) (value t (suc b)))

    no_zero : (suc b == 0) ≡ false
    no_zero = ground arith

    div_lem : operate t div a (suc b) ≡ evaluate (promote t) q
    div_lem = ap (λ c. check (not c) error >> evaluate (promote t) q) no_zero

    modulo_lem : operate t modulo a (suc b) ≡ to_remainder (evaluate (promote t) q)
    modulo_lem = ap (λ c. check (not c) error >> to_remainder (evaluate (promote t) q)) no_zero

    quotient_lem : evaluate (promote t) q ≡ choose (is_overflow t a (suc b))
    quotient_lem = divides a (suc b) h k suc≢0

-- DIV and MOD of two arguments that are not NULL, in each of the eight types. Both throw an error
-- if the divisor is 0. Otherwise both are undefined if the type is INT4 or INT8, the dividend
-- the least number of the type and the divisor -1. In all other cases both return: the quotient
-- rounded towards zero and the remainder with the dividend's sign.
pub division-Outcome :
    (name : IntName) (u v : ℕ)
    → let t = int_type name in
      let args = rep u ∷ rep v ∷ [] in
      Outcome t
        (u % 2 ^ t.width)
        (v % 2 ^ t.width)
        (arithmetic t div args)
        (arithmetic t modulo args)
unfolding arithmetic
division-Outcome name_int1 u v =
    outcome_lem int1 divides_int1 (u % 2 ^ 8) (v % 2 ^ 8) (mod-lt u (omega arith))
      (mod-lt v (omega arith))
division-Outcome name_int2 u v =
    outcome_lem int2 divides_int2 (u % 2 ^ 16) (v % 2 ^ 16) (mod-lt u (omega arith))
      (mod-lt v (omega arith))
division-Outcome name_int4 u v =
    outcome_lem int4 divides_int4 (u % 2 ^ 32) (v % 2 ^ 32) (mod-lt u (omega arith))
      (mod-lt v (omega arith))
division-Outcome name_int8 u v =
    outcome_lem int8 divides_int8 (u % 2 ^ 64) (v % 2 ^ 64) (mod-lt u (omega arith))
      (mod-lt v (omega arith))
division-Outcome name_uint1 u v =
    outcome_lem uint1 divides_uint1 (u % 2 ^ 8) (v % 2 ^ 8) (mod-lt u (omega arith))
      (mod-lt v (omega arith))
division-Outcome name_uint2 u v =
    outcome_lem uint2 divides_uint2 (u % 2 ^ 16) (v % 2 ^ 16) (mod-lt u (omega arith))
      (mod-lt v (omega arith))
division-Outcome name_uint4 u v =
    outcome_lem uint4 divides_uint4 (u % 2 ^ 32) (v % 2 ^ 32) (mod-lt u (omega arith))
      (mod-lt v (omega arith))
division-Outcome name_uint8 u v =
    outcome_lem uint8 divides_uint8 (u % 2 ^ 64) (v % 2 ^ 64) (mod-lt u (omega arith))
      (mod-lt v (omega arith))
