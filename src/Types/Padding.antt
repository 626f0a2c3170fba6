-- ===== src/Types/Padding.antt =====
-- The padding of CHAR in src/utils/typsupp/char.cpp: CHAR_in against CHAR_to_VARCHAR.
use native.Mathlib.Nat.{eq-or-lt_of_le}
use database_systems.Common.{
  ℕ, zero, suc, ◌+◌, ◌-◌, ◌%◌, ◌^◌, ◌≤◌, ◌<◌, Bool, true, false, ◌&&◌, List, [], ◌∷◌, ◌++◌, some,
  length, get_elem?, take, replicate, ltb, leb, if◌then◌else◌, ok, throws, error, ◌≡◌, ◌⊎◌, inl,
  inr, refl, ap, ap₂, ◌∙◌, sym, arith, Bool-cases, leb→le, length-append, length-take,
  length-replicate, take_enough,
}
use database_systems.Payload.Write.{bytes, varlen_bytes}
use database_systems.Types.Text.{
  trim, is_space, remove_trailing_space, char_in, char_to_varchar, from_varlen_bytes,
}

-- Whether the loop goes on from `suc n`.
abbrev goes_on : List ℕ → ℕ → ℕ → Bool
goes_on s m n = ltb m (suc n) && is_space (get_elem? s n)

trim_on : (s : List ℕ) (m n : ℕ) → goes_on s m n ≡ true → trim s m (suc n) ≡ trim s m n
unfolding trim
trim_on s m n e = rw e refl

trim_off : (s : List ℕ) (m n : ℕ) → goes_on s m n ≡ false → trim s m (suc n) ≡ suc n
unfolding trim
trim_off s m n e = rw e refl

trim_zero : (s : List ℕ) (m : ℕ) → trim s m zero ≡ zero
unfolding trim
trim_zero s m = refl

trim-le : (s : List ℕ) (m n : ℕ) → trim s m n ≤ n
trim-le s m zero = omega (arith, trim_zero s m)
trim-le s m (suc n) = elim (Bool-cases (goes_on s m n)) [
  | inl e ↦ omega (arith, trim_on s m n e, trim-le s m n)
  | inr e ↦ omega (arith, trim_off s m n e)
]

and_right : (a b : Bool) → (a && b) ≡ true → b ≡ true
and_right true b h = h
and_right false b h = absurd (ground arith)

and_false : (a b : Bool) → (a && b) ≡ false → a ≡ true → b ≡ false
and_false true b h k = h
and_false false b h k = absurd (ground arith)

-- What the loop has dropped are spaces.
trim-spaces : (s : List ℕ) (m n i : ℕ) → trim s m n ≤ i → i < n → is_space (get_elem? s i) ≡ true
trim-spaces s m zero i h k = absurd (omega arith)
trim-spaces s m (suc n) i h k = elim (Bool-cases (goes_on s m n)) [
  | inl e ↦ elim (eq-or-lt_of_le {n = i} {m = n} (omega arith)) [
    | inl same ↦ ap (λ j. is_space (get_elem? s j)) same ∙ and_right (ltb m (suc n)) _ e
    | inr below ↦ trim-spaces s m n i (omega (arith, trim_on s m n e)) below
  ]
  | inr e ↦ absurd (omega (arith, trim_off s m n e))
]

-- Where the loop stops above the maximum, there is no space.
trim-stops :
    (s : List ℕ) (m n : ℕ)
    → m < trim s m n
    → (i : ℕ) × (m ≤ i) × (i < n) × (is_space (get_elem? s i) ≡ false)
trim-stops s m zero h = absurd (omega (arith, trim_zero s m))
trim-stops s m (suc n) h = elim (Bool-cases (goes_on s m n)) [
  | inl e ↦
      let (i, low, high, stop) = trim-stops s m n (omega (arith, trim_on s m n e)) in
      (i, low, omega arith, stop)
  | inr e ↦ (
    n,
    omega (arith, trim_off s m n e),
    omega arith,
    and_false (ltb m (suc n)) _ e (ground (arith, trim_off s m n e)),
  )
]

-- The loop looks only at the bytes before its start.
trim-agree :
    (s s' : List ℕ) (m n : ℕ)
    → ((i : ℕ) → i < n → get_elem? s i ≡ get_elem? s' i)
    → trim s m n ≡ trim s' m n
unfolding trim
trim-agree s s' m zero h = refl
trim-agree s s' m (suc n) h =
    ap₂ (λ c r. if ltb m (suc n) && is_space c then r else suc n) (h n (omega arith))
      (trim-agree s s' m n (λ i k. h i (omega arith)))

-- The loop without a maximum passes over spaces.
trim-over :
    (s : List ℕ) (k d : ℕ)
    → ((i : ℕ) → k ≤ i → i < k + d → is_space (get_elem? s i) ≡ true)
    → trim s 0 (k + d) ≡ trim s 0 k
unfolding trim
trim-over s k zero h = ap (trim s 0) {x = k + 0} {y = k} (omega arith)
trim-over s k (suc d) h =
    ap (trim s 0) next
    ∙ rw (positive, h (k + d) (omega arith) (omega arith))
        (trim-over s k d (λ i a b. h i a (omega arith)))
  where
    next : k + suc d ≡ suc (k + d)
    next = omega arith

    positive : ltb 0 (suc (k + d)) ≡ true
    positive = ground arith

get_elem?-append_before :
    (xs ys : List ℕ) (i : ℕ) → i < length xs → get_elem? (xs ++ ys) i ≡ get_elem? xs i
get_elem?-append_before [] ys i h = absurd (omega arith)
get_elem?-append_before (x ∷ xs) ys zero h = refl
get_elem?-append_before (x ∷ xs) ys (suc i) h = get_elem?-append_before xs ys i (omega arith)

get_elem?-append_after :
    (xs : List ℕ) (n a i : ℕ)
    → length xs ≤ i
    → i < length xs + n
    → get_elem? (xs ++ replicate n a) i ≡ some a
get_elem?-append_after [] zero a i h k = absurd (omega arith)
get_elem?-append_after [] (suc n) a zero h k = refl
get_elem?-append_after [] (suc n) a (suc i) h k =
    get_elem?-append_after [] n a i (omega arith) (omega arith)
get_elem?-append_after (x ∷ xs) n a zero h k = absurd (omega arith)
get_elem?-append_after (x ∷ xs) n a (suc i) h k =
    get_elem?-append_after xs n a i (omega arith) (omega arith)

get_elem?-take : (k : ℕ) (xs : List ℕ) (i : ℕ) → i < k → get_elem? (take k xs) i ≡ get_elem? xs i
get_elem?-take zero xs i h = absurd (omega arith)
get_elem?-take (suc k) [] i h = refl
get_elem?-take (suc k) (x ∷ xs) zero h = refl
get_elem?-take (suc k) (x ∷ xs) (suc i) h = get_elem?-take k xs i (omega arith)

take-take_append :
    (n k : ℕ) (xs ys : List ℕ) → n ≤ k → k ≤ length xs → take n (take k xs ++ ys) ≡ take n xs
take-take_append zero k xs ys h l = refl
take-take_append (suc n) zero xs ys h l = absurd (omega arith)
take-take_append (suc n) (suc k) [] ys h l = absurd (omega arith)
take-take_append (suc n) (suc k) (x ∷ xs) ys h l =
    ap (λ l. x ∷ l) (take-take_append n k xs ys (omega arith) (omega arith))

-- Padding with spaces what the loop has kept is undone by removing the trailing spaces.
remove_trailing_space-pad :
    (str : List ℕ) (max size : ℕ)
    → size ≡ trim str max (length str)
    → size ≤ max
    → remove_trailing_space (take size str ++ replicate (max - size) 32) ≡ remove_trailing_space str
unfolding remove_trailing_space
remove_trailing_space-pad str max size e h =
    ap (λ n. take n padded)
      (ap (trim padded 0) whole
        ∙ trim-over padded size (max - size) over
        ∙ trim-agree padded str 0 size agree
        ∙ sym below)
    ∙ take-take_append (trim str 0 (length str)) size str (replicate (max - size) 32)
        (omega (arith, below, trim-le str 0 size)) within
  where
    within : size ≤ length str
    within = omega (arith, trim-le str max (length str))

    padded : List ℕ
    padded = take size str ++ replicate (max - size) 32

    kept : length (take size str) ≡ size
    kept = omega (arith, within, length-take size str)

    whole : length padded ≡ size + (max - size)
    whole = omega (
      arith,
      length-append (take size str) (replicate (max - size) 32),
      kept,
      length-replicate {A = ℕ} (max - size) 32,
    )

    over : (i : ℕ) → size ≤ i → i < size + (max - size) → is_space (get_elem? padded i) ≡ true
    over i a b = ap is_space (
        get_elem?-append_after (take size str) (max - size) 32 i (omega (arith, kept))
          (omega (arith, kept)))

    agree : (i : ℕ) → i < size → get_elem? padded i ≡ get_elem? str i
    agree i a =
        get_elem?-append_before (take size str) (replicate (max - size) 32) i (omega (arith, kept))
        ∙ get_elem?-take size str i a

    total : length str ≡ size + (length str - size)
    total = omega (arith, within)

    below : trim str 0 (length str) ≡ trim str 0 size
    below =
        ap (trim str 0) total
        ∙ trim-over str size (length str - size)
            (λ i a b. trim-spaces str max (length str) i (omega arith) (omega arith))

-- A string of fewer than 2 ^ 32 bytes keeps its length in a Datum.
from_varlen_bytes_lem : (s : List ℕ) → length s < 2 ^ 32 → from_varlen_bytes s ≡ bytes s
from_varlen_bytes_lem s h =
    ap (λ n. bytes (take n s)) kept ∙ ap bytes (take_enough (length s) s (omega arith))
  where
    kept : length s % 2 ^ 32 ≡ length s
    kept = omega arith

length-remove : (s : List ℕ) → length (remove_trailing_space s) ≤ length s
unfolding remove_trailing_space
length-remove s = omega (arith, length-take (trim s 0 (length s)) s)

-- CHAR_in at a maximum length below 2 ^ 32. Either the string has a byte that is not a space at or
-- after the maximum, and the function throws an error; or it returns a string of exactly the
-- maximum length, and CHAR_to_VARCHAR without a maximum turns this into the given string less its
-- trailing spaces.
pub char_in_round_trip :
    (max : ℕ) (str : List ℕ)
    → max < 2 ^ 32
    → (((i : ℕ) × (max ≤ i) × (i < length str) × (is_space (get_elem? str i) ≡ false))
        × (char_in max (bytes str ∷ []) ≡ throws error))
      ⊎ ((padded : List ℕ) × (char_in max (bytes str ∷ []) ≡ ok (bytes padded))
          × (length padded ≡ max)
          × (char_to_varchar 0 (bytes padded ∷ []) ≡ ok (bytes (remove_trailing_space str))))
unfolding char_in char_to_varchar varlen_bytes
char_in_round_trip max str small = elim (Bool-cases (leb size max)) [
  | inl fits ↦ inr (
    padded,
    rw fits (ap ok (from_varlen_bytes_lem padded (omega (arith, whole (leb→le size max fits))))),
    whole (leb→le size max fits),
    stripped (leb→le size max fits),
  )
  | inr long ↦ inl (trim-stops str max (length str) (ground arith), rw long refl)
]
  where
    size : ℕ
    size = trim str max (length str)

    padded : List ℕ
    padded = take size str ++ replicate (max - size) 32

    whole : size ≤ max → length padded ≡ max
    whole h = omega (
      arith,
      h,
      trim-le str max (length str),
      length-append (take size str) (replicate (max - size) 32),
      length-take size str,
      length-replicate {A = ℕ} (max - size) 32,
    )

    stripped :
        size ≤ max
        → ok (from_varlen_bytes (remove_trailing_space padded))
          ≡ ok (bytes (remove_trailing_space str))
    stripped h = ap ok (
        from_varlen_bytes_lem (remove_trailing_space padded)
          (omega (arith, length-remove padded, whole h))
        ∙ ap bytes (remove_trailing_space-pad str max size refl h))
