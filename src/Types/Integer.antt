-- ===== src/Types/Integer.antt =====
-- The functions that src/utils/typsupp/int1.cpp, int2.cpp, int4.cpp, int8.cpp, uint1.cpp,
-- uint2.cpp, uint4.cpp and uint8.cpp define over and over, at the type that the file is about.
-- CMakeLists.txt asks for C++11, so a shift of a negative number to the left is undefined.
use database_systems.Common.{
  ℕ, ◌-◌, ◌*◌, ◌/◌, ◌%◌, ◌^◌, Bool, true, false, not, ◌&&◌, ◌||◌, List, ltb, leb, ◌==◌,
  if◌then◌else◌, bit_and, bit_or, bit_xor, Result, ok, undefined, error, ◌>>=◌, ◌>>◌, check,
}
use database_systems.Payload.Write.{Value, rep}
use database_systems.Types.Call.{strict, strict₂}
use database_systems.Types.Signed.{
  ℤ, pos, negsuc, IntType, ◌+ℤ◌, opposite, ◌*ℤ◌, quotient, remainder, value, wrap, promote,
  evaluate,
}

pub data Arithmetic : Type 0 where
  add sub mul div modulo : Arithmetic

pub data Comparison : Type 0 where
  eq ne lt le gt ge : Comparison

pub data Bitwise : Type 0 where
  and or xor : Bitwise

pub data Shift : Type 0 where
  lsh rsh : Shift

-- `GetInt8` to `GetUInt64`: the low bits. Of a value that is passed by reference they are an
-- address's, which no caller relies on.
abbrev pub get : IntType → Value → Result ℕ
get t (rep v) = ok (v % 2 ^ t.width)
get t _ = undefined

-- `Datum::From` of a result, which the assignment to `res` converted to the type: a negative
-- number is extended with its sign to 64 bits.
abbrev pub from : IntType → ℤ → Value
from t z = rep (wrap 64 (value t (wrap t.width z)))

abbrev pub from_bool : Bool → Value
from_bool b = rep (if b then 1 else 0)

-- The operator on the promoted arguments.
abbrev pub operate : IntType → Arithmetic → ℕ → ℕ → Result ℤ
operate t add a b = evaluate (promote t) (value t a +ℤ value t b)
operate t sub a b = evaluate (promote t) (value t a +ℤ opposite (value t b))
operate t mul a b = evaluate (promote t) (value t a *ℤ value t b)
operate t div a b =
    check (not (b == 0)) error >> evaluate (promote t) (quotient (value t a) (value t b))
operate t modulo a b =
    -- `%` is undefined where `/` is.
    check (not (b == 0)) error
    >> (evaluate (promote t) (quotient (value t a) (value t b)) >>= λ q.
        ok (remainder (value t a) (value t b)))

unfoldable pub arithmetic : IntType → Arithmetic → List Value → Result Value
arithmetic t op args =
    strict₂ (λ u v. do a ← get t u; b ← get t v; z ← operate t op a b; ok (from t z)) args

unfoldable pub negate : IntType → List Value → Result Value
negate t args =
    strict (λ u. do a ← get t u; z ← evaluate (promote t) (opposite (value t a)); ok (from t z))
      args

abbrev pub less_than : ℤ → ℤ → Bool
less_than (pos a) (pos b) = ltb a b
less_than (pos a) (negsuc b) = false
less_than (negsuc a) (pos b) = true
less_than (negsuc a) (negsuc b) = ltb b a

abbrev pub equals : ℤ → ℤ → Bool
equals (pos a) (pos b) = a == b
equals (negsuc a) (negsuc b) = a == b
equals _ _ = false

abbrev pub compare_by : Comparison → ℤ → ℤ → Bool
compare_by eq a b = equals a b
compare_by ne a b = not (equals a b)
compare_by lt a b = less_than a b
compare_by le a b = less_than a b || equals a b
compare_by gt a b = less_than b a
compare_by ge a b = less_than b a || equals a b

unfoldable pub comparison : IntType → Comparison → List Value → Result Value
comparison t op args =
    strict₂
      (λ u v. do a ← get t u; b ← get t v; ok (from_bool (compare_by op (value t a) (value t b))))
      args

-- Promotion extends both patterns alike, so the low bits of the result are those of the patterns.
abbrev pub bits_by : Bitwise → ℕ → ℕ → ℕ
bits_by and a b = bit_and a b
bits_by or a b = bit_or a b
bits_by xor a b = bit_xor a b

unfoldable pub bitwise : IntType → Bitwise → List Value → Result Value
bitwise t op args =
    strict₂ (λ u v. do a ← get t u; b ← get t v; ok (from t (pos (bits_by op a b)))) args

unfoldable pub complement : IntType → List Value → Result Value
complement t args = strict (λ u. do a ← get t u; ok (from t (pos (2 ^ t.width - 1 - a)))) args

-- `<<`: the first argument must not be negative, and in a signed type the result must fit the
-- unsigned type of the same width.
abbrev pub shift_left : IntType → ℤ → ℕ → Result ℤ
shift_left p (negsuc n) k = undefined
shift_left p (pos n) k =
    if p.signed && leb (2 ^ p.width) (n * 2 ^ k) then undefined else ok (pos (n * 2 ^ k))

-- `>>`, which keeps the sign.
abbrev pub shift_right : ℤ → ℕ → ℤ
shift_right (pos n) k = pos (n / 2 ^ k)
shift_right (negsuc n) k = negsuc (n / 2 ^ k)

-- The amount, which must be neither negative nor the promoted width or more.
abbrev pub shift_amount : IntType → ℤ → Result ℕ
shift_amount p (negsuc n) = undefined
shift_amount p (pos k) = if ltb k p.width then ok k else undefined

-- `lsh` reads its second argument by the first one's getter, `rsh` as a `uint8_t` that it
-- converts to the type.
unfoldable pub shift : IntType → Shift → List Value → Result Value
shift t lsh = λ args.
    strict₂
      (λ u v. do
        a ← get t u
        b ← get t v
        k ← shift_amount (promote t) (value t b)
        z ← shift_left (promote t) (value t a) k
        ok (from t z))
      args
shift t rsh = λ args.
    strict₂
      (λ u v. do
        a ← get t u
        b ← get (record { width = 8; signed = false }) v
        k ← shift_amount (promote t) (value t (b % 2 ^ t.width))
        ok (from t (shift_right (value t a) k)))
      args
