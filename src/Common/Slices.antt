-- ===== src/Common/Slices.antt =====
-- `take` and `drop` of lists that are appended.
use Prim.Native.Nat.{ℕ, zero, suc, ◌+◌, ◌-◌, ◌≤◌}
use mathlib.Core.Path.{◌≡◌, refl, ap, ◌∙◌}
use mathlib.Core.List.{List, [], ◌∷◌, ◌++◌}
use native.Mathlib.Omega.{arith}
use database_systems.Common.Lists.{length, take, drop, replicate}

module _ {A : Type 0} where
  pub take-length : (xs ys : List A) → take (length xs) (xs ++ ys) ≡ xs
  take-length [] ys = refl
  take-length (x ∷ xs) ys = ap (λ l. x ∷ l) (take-length xs ys)

  pub drop-length : (xs ys : List A) → drop (length xs) (xs ++ ys) ≡ ys
  drop-length [] ys = refl
  drop-length (x ∷ xs) ys = drop-length xs ys

  pub take_enough : (n : ℕ) (xs : List A) → length xs ≤ n → take n xs ≡ xs
  take_enough zero [] h = refl
  take_enough zero (x ∷ xs) h = absurd (omega arith)
  take_enough (suc n) [] h = refl
  take_enough (suc n) (x ∷ xs) h = ap (λ l. x ∷ l) (take_enough n xs (omega arith))

  pub drop_enough : (n : ℕ) (xs : List A) → length xs ≤ n → drop n xs ≡ []
  drop_enough zero [] h = refl
  drop_enough zero (x ∷ xs) h = absurd (omega arith)
  drop_enough (suc n) [] h = refl
  drop_enough (suc n) (x ∷ xs) h = drop_enough n xs (omega arith)

  pub drop_further : (xs ys : List A) (n : ℕ) → drop (length xs + n) (xs ++ ys) ≡ drop n ys
  drop_further [] ys n = ap (λ k. drop k ys) (omega arith)
  drop_further (x ∷ xs) ys n = ap (λ k. drop k (x ∷ (xs ++ ys))) step ∙ drop_further xs ys n
    where
      step : length (x ∷ xs) + n ≡ suc (length xs + n)
      step = omega arith

  pub drop-replicate : (k n : ℕ) (a : A) → drop k (replicate n a) ≡ replicate (n - k) a
  drop-replicate zero n a = ap (λ m. replicate m a) (omega arith)
  drop-replicate (suc k) zero a = ap (λ m. replicate m a) zero_less
    where
      zero_less : 0 ≡ 0 - suc k
      zero_less = omega arith
  drop-replicate (suc k) (suc n) a = drop-replicate k n a ∙ ap (λ m. replicate m a) (omega arith)
