-- ===== src/Utils/Logn.antt =====
-- logn_floor and logn_ceil of include/utils/misc.h.
use native.Mathlib.Nat.{
  eq-or-lt_of_le, two-pow-succ, mul-le-mul_right, div-mul-le_self, lt-div-mul-add, one-le-pow,
}
use database_systems.Common.{
  ℕ, zero, suc, ◌+◌, ◌-◌, ◌*◌, ◌/◌, ◌^◌, ◌≤◌, ◌<◌, Bool, true, false, not, ◌&&◌, ◌||◌, List, ◌∷◌,
  ◌++◌, replicate, get_or, ltb, leb, ◌==◌, if◌then◌else◌, ◌≡◌, inl, inr, refl, ap, ◌∙◌, arith,
}

-- `LogTable256`; its 16 rows of 16 entries.
abbrev pub log_table256 : List ℕ
log_table256 =
    0
    ∷ 0
    ∷ 1
    ∷ 1
    ∷ 2
    ∷ 2
    ∷ 2
    ∷ 2
    ∷ 3
    ∷ 3
    ∷ 3
    ∷ 3
    ∷ 3
    ∷ 3
    ∷ 3
    ∷ 3
    ∷ (replicate 16 4
        ++ (replicate 16 5
            ++ (replicate 16 5
                ++ (replicate 16 6
                    ++ (replicate 16 6
                        ++ (replicate 16 6
                            ++ (replicate 16 6
                                ++ (replicate 16 7
                                    ++ (replicate 16 7
                                        ++ (replicate 16 7
                                            ++ (replicate 16 7
                                                ++ (replicate 16 7
                                                    ++ (replicate 16 7
                                                        ++ (replicate 16 7
                                                            ++ replicate 16 7))))))))))))))

-- Every index below is under 256.
unfoldable pub log_entry : ℕ → ℕ
log_entry i = get_or log_table256 i 0

abbrev is_set : ℕ → Bool
is_set n = not (n == 0)

unfoldable pub logn_floor : ℕ → ℕ
logn_floor x =
    if is_set (x / 2 ^ 32)
    then (if is_set (x / 2 ^ 48)
        then (if is_set (x / 2 ^ 56)
            then log_entry (x / 2 ^ 56) + 56
            else log_entry (x / 2 ^ 48) + 48)
        else (if is_set (x / 2 ^ 40)
            then log_entry (x / 2 ^ 40) + 40
            else log_entry (x / 2 ^ 32) + 32))
    else (if is_set (x / 2 ^ 16)
        then (if is_set (x / 2 ^ 24)
            then log_entry (x / 2 ^ 24) + 24
            else log_entry (x / 2 ^ 16) + 16)
        else (if is_set (x / 2 ^ 8) then log_entry (x / 2 ^ 8) + 8 else log_entry x))

unfoldable pub logn_ceil : ℕ → ℕ
logn_ceil x = if is_set x then logn_floor (x - 1) + 1 else 0

all_below : ℕ → (ℕ → Bool) → Bool
all_below zero p = true
all_below (suc n) p = p n && all_below n p

and_split : (a b : Bool) → (a && b) ≡ true → (a ≡ true) × (b ≡ true)
and_split true b h = (refl, h)
and_split false b h = absurd (ground arith)

all_below_at : (n : ℕ) (p : ℕ → Bool) (i : ℕ) → all_below n p ≡ true → i < n → p i ≡ true
unfolding all_below
all_below_at zero p i h k = absurd (omega arith)
all_below_at (suc n) p i h k =
    let (now, rest) = and_split (p n) (all_below n p) h in
    elim (eq-or-lt_of_le {n = i} {m = n} (omega arith)) [
      | inl same ↦ ap p same ∙ now
      | inr below ↦ all_below_at n p i rest below
    ]

fits_at : ℕ → ℕ → Bool
fits_at e i = (i == 0) || (leb (2 ^ e) i && ltb i (2 ^ (e + 1)))

fits_at_lem : (e i : ℕ) → 1 ≤ i → fits_at e i ≡ true → (2 ^ e ≤ i) × (i < 2 ^ (e + 1))
unfolding fits_at
fits_at_lem e i h k = ground arith

entries_fit : all_below 256 (λ i. fits_at (log_entry i) i) ≡ true
unfolding all_below fits_at log_entry
entries_fit = refl

-- The table's entry is the logarithm of an index that is not 0.
log_entry_lem : (i : ℕ) → 1 ≤ i → i < 256 → (2 ^ log_entry i ≤ i) × (i < 2 ^ (log_entry i + 1))
log_entry_lem i h k =
    fits_at_lem (log_entry i) i h (all_below_at 256 (λ i. fits_at (log_entry i) i) i entries_fit k)

abbrev IsLog : ℕ → ℕ → Type 0
IsLog x e = (2 ^ e ≤ x) × (x < 2 ^ (e + 1))

pow_add : (e s : ℕ) → 2 ^ (e + s) ≡ 2 ^ e * 2 ^ s
pow_add e zero = omega (arith, ap (λ n. 2 ^ n) (ℕ-zero e))
  where
    ℕ-zero : (e : ℕ) → e + zero ≡ e
    ℕ-zero e = omega arith
pow_add e (suc s) = omega (
  arith,
  two-pow-succ (e + s),
  two-pow-succ s,
  pow_add e s,
  ap (λ n. 2 ^ n) (step e s),
  ap (λ n. 2 ^ e * n) (two-pow-succ s),
)
  where
    step : (e s : ℕ) → e + suc s ≡ suc (e + s)
    step e s = omega arith

-- The logarithm of a number from the one of its high bits.
shifted : (x s : ℕ) → 1 ≤ x / 2 ^ s → x / 2 ^ s < 256 → IsLog x (log_entry (x / 2 ^ s) + s)
shifted x s h k =
    let (low, high) = log_entry_lem (x / 2 ^ s) h k in
    let e = log_entry (x / 2 ^ s) in
    (
      omega (arith, pow_add e s, mul-le-mul_right (2 ^ s) low, div-mul-le_self x (2 ^ s)),
      omega (
        arith,
        pow_add (e + 1) s,
        mul-le-mul_right (2 ^ s) high,
        lt-div-mul-add {a = x} {b = 2 ^ s} (one-le-pow s 2 (omega arith)),
        pow_same e s,
      ),
    )
  where
    pow_same : (e s : ℕ) → 2 ^ (e + s + 1) ≡ 2 ^ (e + 1 + s)
    pow_same e s = ap (λ n. 2 ^ n) (omega arith)

if_IsLog :
    (x : ℕ) (b : Bool) (u v : ℕ)
    → (b ≡ true → IsLog x u)
    → (b ≡ false → IsLog x v)
    → IsLog x (if b then u else v)
if_IsLog x true u v h k = h refl
if_IsLog x false u v h k = k refl

set_lem : (n : ℕ) → is_set n ≡ true → 1 ≤ n
set_lem n h = ground arith

clear_lem : (n : ℕ) → is_set n ≡ false → n ≡ 0
clear_lem n h = ground arith

-- For 0 < x < 2 ^ 64, `logn_floor` is the logarithm: 2 to its power is at most x, and 2 to the next
-- power is above x.
pub logn_floor_bounds :
    (x : ℕ) → 1 ≤ x → x < 2 ^ 64 → (2 ^ logn_floor x ≤ x) × (x < 2 ^ (logn_floor x + 1))
unfolding logn_floor
logn_floor_bounds x h k =
    if_IsLog x (is_set (x / 2 ^ 32)) _ _
      (λ a.
        if_IsLog x (is_set (x / 2 ^ 48)) _ _
          (λ b.
            if_IsLog x (is_set (x / 2 ^ 56)) _ _ (λ c. shifted x 56 (set_lem _ c) (omega arith))
              (λ c. shifted x 48 (set_lem _ b) (omega (arith, clear_lem _ c))))
          (λ b.
            if_IsLog x (is_set (x / 2 ^ 40)) _ _
              (λ c. shifted x 40 (set_lem _ c) (omega (arith, clear_lem _ b)))
              (λ c. shifted x 32 (set_lem _ a) (omega (arith, clear_lem _ c)))))
      (λ a.
        if_IsLog x (is_set (x / 2 ^ 16)) _ _
          (λ b.
            if_IsLog x (is_set (x / 2 ^ 24)) _ _
              (λ c. shifted x 24 (set_lem _ c) (omega (arith, clear_lem _ a)))
              (λ c. shifted x 16 (set_lem _ b) (omega (arith, clear_lem _ c))))
          (λ b.
            if_IsLog x (is_set (x / 2 ^ 8)) _ _
              (λ c. shifted x 8 (set_lem _ c) (omega (arith, clear_lem _ b)))
              (λ c. log_entry_lem x h (omega (arith, clear_lem _ c)))))

-- For 1 < x < 2 ^ 64, `logn_ceil` is the least exponent whose power of 2 is at least x.
pub logn_ceil_bounds :
    (x : ℕ) → 2 ≤ x → x < 2 ^ 64 → (2 ^ (logn_ceil x - 1) < x) × (x ≤ 2 ^ logn_ceil x)
unfolding logn_ceil
logn_ceil_bounds x h k = ground (arith, logn_floor_bounds (x - 1) (omega arith) (omega arith))
