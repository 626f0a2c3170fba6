-- ===== src/Payload/Places.antt =====
-- Reads of bytes that a write has stored, and of bytes in front of it.
use database_systems.Common.{
  ℕ, zero, suc, ◌+◌, ◌*◌, ◌/◌, ◌^◌, ◌≤◌, ◌<◌, true, List, [], ◌∷◌, ◌++◌, some, length, take, drop,
  leb, ◌≡◌, refl, arith, sym, ◌∙◌, ap, length-take, take-length, drop-length, store, load, to_bytes,
  of_bytes, overwrite, length-overwrite,
}

take-take : (n p : ℕ) (xs : List ℕ) → n ≤ p → take n (take p xs) ≡ take n xs
take-take zero p xs h = refl
take-take (suc n) zero xs h = absurd (omega arith)
take-take (suc n) (suc p) [] h = refl
take-take (suc n) (suc p) (x ∷ xs) h = ap (λ l. x ∷ l) (take-take n p xs (omega arith))

pub take_less : (n p : ℕ) (xs ys : List ℕ) → take p xs ≡ take p ys → n ≤ p → take n xs ≡ take n ys
take_less n p xs ys e h = sym (take-take n p xs h) ∙ ap (take n) e ∙ take-take n p ys h

take-drop-take :
    (n q p : ℕ) (xs : List ℕ) → q + n ≤ p → take n (drop q (take p xs)) ≡ take n (drop q xs)
take-drop-take n zero p xs h = take-take n p xs (omega arith)
take-drop-take n (suc q) zero xs h = absurd (omega arith)
take-drop-take n (suc q) (suc p) [] h = refl
take-drop-take n (suc q) (suc p) (x ∷ xs) h = take-drop-take n q p xs (omega arith)

-- What lies in front of `p` is read from any bytes that agree up to `p`.
pub load_in_front :
    (n q p : ℕ) (xs ys : List ℕ)
    → take p xs ≡ take p ys
    → length ys ≤ length xs
    → q + n ≤ p
    → q + n ≤ length ys
    → load xs q n ≡ load ys q n
unfolding load
load_in_front n q p xs ys e longer h k = rw (in_xs, in_ys) (ap some same)
  where
    in_xs : leb (q + n) (length xs) ≡ true
    in_xs = ground arith

    in_ys : leb (q + n) (length ys) ≡ true
    in_ys = ground arith

    same : take n (drop q xs) ≡ take n (drop q ys)
    same =
        sym (take-drop-take n q p xs h) ∙ ap (λ l. take n (drop q l)) e ∙ take-drop-take n q p ys h

pub store_fits :
    (buf : List ℕ) (p : ℕ) (bs : List ℕ)
    → p + length bs ≤ length buf
    → store buf p bs ≡ some (overwrite buf p bs)
unfolding store
store_fits buf p bs h = rw fits refl
  where
    fits : leb (p + length bs) (length buf) ≡ true
    fits = ground arith

pub load-overwrite :
    (buf : List ℕ) (p : ℕ) (bs : List ℕ)
    → p + length bs ≤ length buf
    → load (overwrite buf p bs) p (length bs) ≡ some bs
unfolding load
load-overwrite buf p bs h = rw fits (ap some (ap (take (length bs)) behind ∙ take-length bs rest))
  where
    rest : List ℕ
    rest = drop (p + length bs) buf

    front : length (take p buf) ≡ p
    front = omega (arith, length-take p buf)

    behind : drop p (overwrite buf p bs) ≡ bs ++ rest
    behind =
        ap (λ k. drop k (overwrite buf p bs)) (sym front) ∙ drop-length (take p buf) (bs ++ rest)

    fits : leb (p + length bs) (length (overwrite buf p bs)) ≡ true
    fits = ground (arith, length-overwrite buf bs p h)

pub length-to_bytes : (k n : ℕ) → length (to_bytes k n) ≡ k
unfolding to_bytes
length-to_bytes zero n = refl
length-to_bytes (suc k) n = ap suc (length-to_bytes k (n / 256))

power_suc : (k : ℕ) → 256 ^ suc k ≡ 256 * 256 ^ k
power_suc k = omega arith

pub of_bytes-to_bytes : (k n : ℕ) → n < 256 ^ k → of_bytes (to_bytes k n) ≡ n
unfolding to_bytes of_bytes
of_bytes-to_bytes zero n h = omega arith
of_bytes-to_bytes (suc k) n h =
    omega (arith, of_bytes-to_bytes k (n / 256) (omega (arith, power_suc k)))
