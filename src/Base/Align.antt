-- ===== src/Base/Align.antt =====
-- TYPEALIGN, MAXALIGN and AddWithCheck of include/base/tdb_base.h, at T = FieldOffset (int16_t).
-- A FieldOffset is kept as its 16-bit pattern: below 2 ^ 15 it is the number itself, and at or
-- above 2 ^ 15 the number less 2 ^ 16.
use database_systems.Common.{
  ℕ, ◌+◌, ◌-◌, ◌*◌, ◌/◌, ◌%◌, ◌^◌, ◌≤◌, ◌<◌, bit_and, ◌≡◌, ltb, leb, Bool, ◌&&◌, if◌then◌else◌,
  Option, none, some, arith, Masks, Masks-bit_and, Masks-double, Masks-ones, ◌⊎◌, inl, inr, not,
  refl, ap, ◌∙◌,
}

-- Whether a 16-bit pattern stands for a negative number.
abbrev pub is_negative : ℕ → Bool
is_negative x = leb 32768 x

-- The conversion to `int16_t`.
abbrev pub int16 : ℕ → ℕ
int16 x = x % 65536

-- `a < b` of two `int16_t`.
abbrev pub less : ℕ → ℕ → Bool
less a b = ltb ((a + 32768) % 65536) ((b + 32768) % 65536)

-- `TYPEALIGN(ALIGNVAL, LEN)` in 64-bit arithmetic, converted back to `int16_t`.
unfoldable pub type_align : ℕ → ℕ → ℕ
type_align align len =
    let low = (align + (2 ^ 64 - 1)) % 2 ^ 64 in
    int16 (bit_and ((len + low) % 2 ^ 64) (2 ^ 64 - 1 - low))

unfoldable pub max_align : ℕ → ℕ
max_align len = type_align 8 len

-- `MAXALIGN` at `size_t`.
unfoldable pub max_align_size : ℕ → ℕ
max_align_size len = bit_and ((len + 7) % 2 ^ 64) (2 ^ 64 - 8)

-- `AddWithCheck(left, right)`: the sum, or `none` where the function returns false.
unfoldable pub add_with_check : ℕ → ℕ → Option ℕ
add_with_check left right =
    if ltb 0 left && (not (is_negative left) && less (32767 - left) (int16 right))
    then none
    else if is_negative left && less (int16 right) (left - 32768)
    then none
    else some (int16 (left + int16 right))

-- The alignments that the catalog has.
abbrev pub IsAlignment : ℕ → Type 0
IsAlignment a = (a ≡ 1) ⊎ ((a ≡ 2) ⊎ ((a ≡ 4) ⊎ (a ≡ 8)))

align_one : (x : ℕ) → x < 2 ^ 64 → bit_and x (2 ^ 64 - 1) ≡ x
align_one x h = Masks-bit_and (2 ^ 64 - 1) x x (Masks-ones 64 x h)

align_two : (x : ℕ) → x < 2 ^ 64 → bit_and x (2 ^ 64 - 2) ≡ x / 2 * 2
align_two x h =
    Masks-bit_and (2 ^ 64 - 2) x (x / 2 * 2)
      (Masks-double (2 ^ 63 - 1) x (x / 2) (Masks-ones 63 (x / 2) (omega arith)))

-- The mask of all multiples of 4, and of 8.
drop_four : (x : ℕ) → x < 2 ^ 64 → Masks (2 ^ 64 - 4) x (x / 2 / 2 * 2 * 2)
drop_four x h =
    Masks-double (2 ^ 63 - 2) x (x / 2 / 2 * 2)
      (Masks-double (2 ^ 62 - 1) (x / 2) (x / 2 / 2) (Masks-ones 62 (x / 2 / 2) (omega arith)))

drop_eight : (x : ℕ) → x < 2 ^ 64 → Masks (2 ^ 64 - 8) x (x / 2 / 2 / 2 * 2 * 2 * 2)
drop_eight x h = Masks-double (2 ^ 63 - 4) x (x / 2 / 2 / 2 * 2 * 2) (
    Masks-double (2 ^ 62 - 2) (x / 2) (x / 2 / 2 / 2 * 2) (
      Masks-double (2 ^ 61 - 1) (x / 2 / 2) (x / 2 / 2 / 2)
        (Masks-ones 61 (x / 2 / 2 / 2) (omega arith))))

align_four : (x : ℕ) → x < 2 ^ 64 → bit_and x (2 ^ 64 - 4) ≡ x / 4 * 4
align_four x h = omega (arith, Masks-bit_and (2 ^ 64 - 4) x _ (drop_four x h))

align_eight : (x : ℕ) → x < 2 ^ 64 → bit_and x (2 ^ 64 - 8) ≡ x / 8 * 8
align_eight x h = omega (arith, Masks-bit_and (2 ^ 64 - 8) x _ (drop_eight x h))

round_up :
    (align len : ℕ)
    → ((x : ℕ)
        → x < 2 ^ 64
        → bit_and x (2 ^ 64 - 1 - ((align + (2 ^ 64 - 1)) % 2 ^ 64)) ≡ x / align * align)
    → (align + (2 ^ 64 - 1)) % 2 ^ 64 ≡ align - 1
    → align ≤ 8
    → len < 65536
    → type_align align len ≡ (len + (align - 1)) / align * align % 65536
unfolding type_align
round_up align len mask low small h =
    ap (λ x. int16 (bit_and x (2 ^ 64 - 1 - ((align + (2 ^ 64 - 1)) % 2 ^ 64)))) exact
    ∙ ap int16 (mask (len + (align - 1)) (omega arith))
  where
    exact : (len + (align + (2 ^ 64 - 1)) % 2 ^ 64) % 2 ^ 64 ≡ len + (align - 1)
    exact = omega arith

-- For an alignment of the catalog and a length that is not negative, `TYPEALIGN` rounds up to the
-- least multiple: the result is at least the length, less than one alignment above it, and
-- divisible. As a 16-bit pattern it is at most 2 ^ 15, which is the one negative result.
pub type_align_rounds_up :
    (align len : ℕ)
    → IsAlignment align
    → len < 32768
    → (len ≤ type_align align len)
      × (type_align align len < len + align)
      × (type_align align len % align ≡ 0)
      × (type_align align len ≤ 32768)
type_align_rounds_up align len (inl e) h =
    rw (e, round_up 1 len align_one' refl (omega arith) (omega arith)) (omega arith)
  where
    align_one' : (x : ℕ) → x < 2 ^ 64 → bit_and x (2 ^ 64 - 1) ≡ x / 1 * 1
    align_one' x h = omega (arith, align_one x h)
type_align_rounds_up align len (inr (inl e)) h =
    rw (e, round_up 2 len align_two refl (omega arith) (omega arith)) (omega arith)
type_align_rounds_up align len (inr (inr (inl e))) h =
    rw (e, round_up 4 len align_four refl (omega arith) (omega arith)) (omega arith)
type_align_rounds_up align len (inr (inr (inr e))) h =
    rw (e, round_up 8 len align_eight refl (omega arith) (omega arith)) (omega arith)

pub max_align_lem : (len : ℕ) → len < 65536 → max_align len ≡ (len + 7) / 8 * 8 % 65536
unfolding max_align
max_align_lem len h = round_up 8 len align_eight refl (omega arith) h

pub max_align_size_lem : (len : ℕ) → len < 2 ^ 64 - 8 → max_align_size len ≡ (len + 7) / 8 * 8
unfolding max_align_size
max_align_size_lem len h =
    ap (λ x. bit_and x (2 ^ 64 - 8)) small ∙ align_eight (len + 7) (omega arith)
  where
    small : (len + 7) % 2 ^ 64 ≡ len + 7
    small = omega arith

-- On a length that is not negative, `AddWithCheck` adds a number that is not negative exactly when
-- the sum fits, and refuses otherwise.
pub add_with_check_exact :
    (left right : ℕ)
    → left < 32768
    → right < 32768
    → ((left + right < 32768) × (add_with_check left right ≡ some (left + right)))
      ⊎ ((32768 ≤ left + right) × (add_with_check left right ≡ none))
unfolding add_with_check
add_with_check_exact left right h k = ground arith
