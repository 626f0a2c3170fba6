-- ===== src/Common/Bits.antt =====
-- `&` with the masks of an alignment: ones above some zeros.
use Prim.Native.Nat.{
  ℕ, zero, suc, ◌-◌, ◌*◌, ◌/◌, ◌^◌, ◌≤◌, ◌<◌, min, bit_and, digits, bit_and-bitwise,
}
use mathlib.Core.Path.{◌≡◌, refl, ap, ◌∙◌}
use native.Mathlib.Nat.{pow-suc, one-le-pow}
use native.Mathlib.Omega.{arith}

-- The operation of `bit_and`, with a number of digits to go.
abbrev masked : ℕ → ℕ → ℕ → ℕ
masked count x mask = digits (λ rest. 0) min count x mask

-- The mask makes `r` of `x`, given enough digits to go.
abbrev pub Masks : ℕ → ℕ → ℕ → Type 0
Masks mask x r = (count : ℕ) → x ≤ count → masked count x mask ≡ r

pub Masks-bit_and : (mask x r : ℕ) → Masks mask x r → bit_and x mask ≡ r
Masks-bit_and mask x r h = bit_and-bitwise x mask ∙ h x (omega arith)

-- A zero behind the mask drops the lowest digit.
pub Masks-double : (mask x r : ℕ) → Masks mask (x / 2) r → Masks (mask * 2) x (r * 2)
Masks-double mask zero r h zero k = omega (arith, h 0 (omega arith))
Masks-double mask zero r h (suc count) k = omega (arith, h 0 (omega arith))
Masks-double mask (suc x) r h zero k = absurd (omega arith)
Masks-double mask (suc x) r h (suc count) k =
    omega (arith, ap (masked count (suc x / 2)) half, h count (omega arith))
  where
    half : mask * 2 / 2 ≡ mask
    half = omega arith

-- Ones keep every number that has no more digits.
pub Masks-ones : (w x : ℕ) → x < 2 ^ w → Masks (2 ^ w - 1) x x
Masks-ones w zero h zero k = refl
Masks-ones w zero h (suc count) k = refl
Masks-ones w (suc x) h zero k = absurd (omega arith)
Masks-ones zero (suc x) h (suc count) k = absurd (omega arith)
Masks-ones (suc w) (suc x) h (suc count) k = omega (
  arith,
  ap (masked count (suc x / 2)) half,
  pow-suc 2 w,
  one-le-pow w 2 (omega arith),
  Masks-ones w (suc x / 2) (omega (arith, pow-suc 2 w)) count (omega arith),
)
  where
    half : (2 ^ suc w - 1) / 2 ≡ 2 ^ w - 1
    half = omega (arith, pow-suc 2 w, one-le-pow w 2 (omega arith))
