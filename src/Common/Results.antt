-- ===== src/Common/Results.antt =====
-- What a call comes to: a value, an exception that LOG throws at a severity of kError or above
-- (src/base/logging.cpp), a std::length_error of a vector's `resize`, or behaviour that C++ leaves
-- undefined.
use mathlib.Core.Path.{◌≡◌, refl, subst}
use mathlib.Core.Bool.{Bool, true, false}
use mathlib.Core.Option.{Option, none, some}

pub data Severity : Type 0 where
  error fatal length_error : Severity

pub data Result {ℓ} (A : Type ℓ) : Type ℓ where
  ok : A → Result A
  throws : Severity → Result A
  undefined : Result A

infixl 5 ◌>>=◌ ◌>>◌
abbrev pub ◌>>=◌ {ℓ κ} : {A : Type ℓ} {B : Type κ} → Result A → (A → Result B) → Result B
ok a >>= f = f a
throws e >>= f = throws e
undefined >>= f = undefined

abbrev pub ◌>>◌ {ℓ} : {B : Type ℓ} → Result (Unit {0}) → Result B → Result B
m >> k = m >>= λ _. k

-- `LOG(severity, …)` unless the test holds.
abbrev pub check : Bool → Severity → Result (Unit {0})
check true e = ok tt
check false e = throws e

-- An access that is undefined out of range.
abbrev pub or_undefined {ℓ} : {A : Type ℓ} → Option A → Result A
or_undefined none = undefined
or_undefined (some a) = ok a

-- A postcondition: whatever value the call comes to has the property.
abbrev pub Ensures {ℓ κ} : {A : Type ℓ} → (A → Type κ) → Result A → Type κ
Ensures P (ok a) = P a
Ensures P (throws e) = Unit
Ensures P undefined = Unit

module _ {ℓ κ} {A B : Type ℓ} (P : A → Type κ) (Q : B → Type κ) where
  pub >>=-Ensures :
      (m : Result A) (f : A → Result B)
      → Ensures P m
      → ((a : A) → P a → Ensures Q (f a))
      → Ensures Q (m >>= f)
  >>=-Ensures (ok a) f h k = k a h
  >>=-Ensures (throws e) f h k = tt
  >>=-Ensures undefined f h k = tt

-- What a test or an access lets through.
pub check-Ensures {κ} :
    (Q : Unit {0} → Type κ) (b : Bool) (e : Severity) → (b ≡ true → Q tt) → Ensures Q (check b e)
check-Ensures Q true e h = h refl
check-Ensures Q false e h = tt

pub or_undefined-Ensures {ℓ κ} :
    {A : Type ℓ} (Q : A → Type κ) (o : Option A)
    → ((a : A) → o ≡ some a → Q a)
    → Ensures Q (or_undefined o)
or_undefined-Ensures Q none h = tt
or_undefined-Ensures Q (some a) h = h a refl

pub Ensures_ok {ℓ κ} :
    {A : Type ℓ} (Q : A → Type κ) (r : Result A) (a : A) → Ensures Q r → r ≡ ok a → Q a
Ensures_ok Q r a h e = subst (Ensures Q) e h
