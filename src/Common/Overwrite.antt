-- ===== src/Common/Overwrite.antt =====
-- A part of a list of bytes with others in its place, as memory and files are written.
use Prim.Native.Nat.{ℕ, zero, suc, ◌+◌, ◌-◌, ◌≤◌}
use mathlib.Core.Path.{◌≡◌, refl, sym, ◌∙◌, ap, ap₂}
use mathlib.Core.List.{List, [], ◌∷◌, ◌++◌, append-nil}
use native.Mathlib.Omega.{arith}
use database_systems.Common.Lists.{
  length, take, drop, replicate, length-append, length-take, length-drop,
}
use database_systems.Common.Slices.{take-length, take_enough, drop_enough, drop_further}

-- The bytes `ys` in place of those at `offset` and behind.
abbrev pub overwrite : List ℕ → ℕ → List ℕ → List ℕ
overwrite xs offset ys = take offset xs ++ (ys ++ drop (offset + length ys) xs)

drop-nil : (n : ℕ) → drop {A = ℕ} n [] ≡ []
drop-nil zero = refl
drop-nil (suc n) = refl

drop-drop : (m n : ℕ) (xs : List ℕ) → drop n (drop m xs) ≡ drop (m + n) xs
drop-drop zero n xs = ap (λ k. drop k xs) same
  where
    same : n ≡ 0 + n
    same = omega arith
drop-drop (suc m) n [] = drop-nil n ∙ sym (drop-nil (suc m + n))
drop-drop (suc m) n (x ∷ xs) = drop-drop m n xs ∙ ap (λ k. drop k (x ∷ xs)) longer
  where
    longer : suc (m + n) ≡ suc m + n
    longer = omega arith

pub take-replicate : (k n a : ℕ) → k ≤ n → take k (replicate n a) ≡ replicate k a
take-replicate zero n a h = refl
take-replicate (suc k) zero a h = absurd (omega arith)
take-replicate (suc k) (suc n) a h = ap (λ l. a ∷ l) (take-replicate k n a (omega arith))

module _ (xs ys : List ℕ) (offset : ℕ) where
  front : offset ≤ length xs → length (take offset xs) ≡ offset
  front h = omega (arith, length-take offset xs)

  pub length-overwrite :
      offset + length ys ≤ length xs → length (overwrite xs offset ys) ≡ length xs
  length-overwrite h = omega (
    arith,
    length-append (take offset xs) (ys ++ drop (offset + length ys) xs),
    length-append ys (drop (offset + length ys) xs),
    length-drop (offset + length ys) xs,
    front (omega arith),
  )

  pub take-overwrite : offset ≤ length xs → take offset (overwrite xs offset ys) ≡ take offset xs
  take-overwrite h =
      ap (λ n. take n (overwrite xs offset ys)) (sym (front h))
      ∙ take-length (take offset xs) (ys ++ drop (offset + length ys) xs)

  pub drop-overwrite :
      (n : ℕ)
      → offset ≤ length xs
      → length ys ≤ n
      → drop (offset + n) (overwrite xs offset ys) ≡ drop (offset + n) xs
  drop-overwrite n h k =
      ap (λ m. drop m (overwrite xs offset ys)) in_parts
      ∙ drop_further (take offset xs) (ys ++ behind) (length ys + (n - length ys))
      ∙ drop_further ys behind (n - length ys)
      ∙ drop-drop (offset + length ys) (n - length ys) xs
      ∙ ap (λ m. drop m xs) (shifted h k)
    where
      behind : List ℕ
      behind = drop (offset + length ys) xs

      in_parts : offset + n ≡ length (take offset xs) + (length ys + (n - length ys))
      in_parts = omega (arith, front h)

      shifted :
          offset ≤ length xs → length ys ≤ n → offset + length ys + (n - length ys) ≡ offset + n
      shifted h' k' = omega arith

pub overwrite_end : (xs ys : List ℕ) → overwrite xs (length xs) ys ≡ xs ++ ys
overwrite_end xs ys =
    ap₂ ◌++◌ (take_enough (length xs) xs (omega arith))
      (ap (λ l. ys ++ l) (drop_enough (length xs + length ys) xs (omega arith)) ∙ append-nil ys)
