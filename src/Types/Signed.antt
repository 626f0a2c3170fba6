-- ===== src/Types/Signed.antt =====
-- C++ integers as signed numbers: the integer types of the built-in functions, integer promotion,
-- and the operators' results before they are converted back.
use database_systems.Common.{
  ℕ, ◌+◌, ◌-◌, ◌*◌, ◌/◌, ◌%◌, ◌^◌, Bool, true, false, ◌&&◌, ltb, leb, if◌then◌else◌, Result, ok,
  undefined,
}

-- `pos n` is n and `negsuc n` is -(n + 1).
pub data ℤ : Type 0 where
  pos negsuc : ℕ → ℤ

pub record IntType : Type 0 where
  pub width : ℕ
  pub signed : Bool

-- `a - b`.
abbrev pub difference : ℕ → ℕ → ℤ
difference a b = if leb b a then pos (a - b) else negsuc (b - a - 1)

infixl 60 ◌+ℤ◌
infixl 70 ◌*ℤ◌
abbrev pub ◌+ℤ◌ : ℤ → ℤ → ℤ
pos a +ℤ pos b = pos (a + b)
pos a +ℤ negsuc b = difference a (b + 1)
negsuc a +ℤ pos b = difference b (a + 1)
negsuc a +ℤ negsuc b = negsuc (a + b + 1)

abbrev pub opposite : ℤ → ℤ
opposite (pos a) = difference 0 a
opposite (negsuc a) = pos (a + 1)

abbrev pub is_below_zero : ℤ → Bool
is_below_zero (pos n) = false
is_below_zero (negsuc n) = true

abbrev pub magnitude : ℤ → ℕ
magnitude (pos n) = n
magnitude (negsuc n) = n + 1

abbrev pub with_sign : Bool → ℕ → ℤ
with_sign true n = difference 0 n
with_sign false n = pos n

abbrev pub differ : Bool → Bool → Bool
differ true false = true
differ false true = true
differ _ _ = false

abbrev pub ◌*ℤ◌ : ℤ → ℤ → ℤ
a *ℤ b = with_sign (differ (is_below_zero a) (is_below_zero b)) (magnitude a * magnitude b)

-- `/` and `%`, which round towards zero; the divisor is not zero where they are used.
abbrev pub quotient : ℤ → ℤ → ℤ
quotient a b = with_sign (differ (is_below_zero a) (is_below_zero b)) (magnitude a / magnitude b)

abbrev pub remainder : ℤ → ℤ → ℤ
remainder a b = with_sign (is_below_zero a) (magnitude a % magnitude b)

-- The number that a bit pattern of the type stands for.
abbrev pub value : IntType → ℕ → ℤ
value t x = if t.signed && leb (2 ^ (t.width - 1)) x then negsuc (2 ^ t.width - 1 - x) else pos x

-- The conversion to a type of the given width, as a bit pattern.
abbrev pub wrap : ℕ → ℤ → ℕ
wrap w (pos n) = n % 2 ^ w
wrap w (negsuc n) = 2 ^ w - 1 - n % 2 ^ w

-- Integer promotion: everything narrower than `int` becomes `int`.
abbrev pub promote : IntType → IntType
promote t = if ltb t.width 32 then record { width = 32; signed = true } else t

abbrev pub fits : ℕ → ℤ → Bool
fits w (pos n) = ltb n (2 ^ (w - 1))
fits w (negsuc n) = ltb n (2 ^ (w - 1))

-- The result of an operator in its promoted type: an unsigned result wraps around, a signed one
-- that does not fit is undefined.
abbrev pub evaluate : IntType → ℤ → Result ℤ
evaluate t z =
    if t.signed then (if fits t.width z then ok z else undefined) else ok (pos (wrap t.width z))
