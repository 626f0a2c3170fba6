-- ===== src/Common/Postconditions.antt =====
-- Postconditions of branches, of matches on an option, and of calls one after the other.
use mathlib.Core.Path.{◌≡◌, refl}
use mathlib.Core.Bool.{Bool, true, false}
use mathlib.Core.Option.{Option, none, some}
use database_systems.Common.Tests.{if◌then◌else◌}
use database_systems.Common.Results.{Result, ok, throws, undefined, Ensures, ◌>>=◌, or_undefined}

pub if-Ensures :
    {A : Type 0} (P : A → Type 0) (b : Bool) (m k : Result A)
    → Ensures P m
    → Ensures P k
    → Ensures P (if b then m else k)
if-Ensures P true m k h g = h
if-Ensures P false m k h g = g

pub option-Ensures :
    {A X : Type 0} (P : A → Type 0) (o : Option X) (m : Result A) (k : X → Result A)
    → Ensures P m
    → ((x : X) → Ensures P (k x))
    → Ensures P (elim o [ none ↦ m | some x ↦ k x ])
option-Ensures P none m k h g = h
option-Ensures P (some x) m k h g = g x

-- The same with the equation that the match gives.
pub option-Ensures_eq :
    {A X : Type 0} (P : A → Type 0) (o : Option X) (m : Result A) (k : X → Result A)
    → Ensures P m
    → ((x : X) → o ≡ some x → Ensures P (k x))
    → Ensures P (elim o [ none ↦ m | some x ↦ k x ])
option-Ensures_eq P none m k h g = h
option-Ensures_eq P (some x) m k h g = g x refl

pub guarded-Ensures :
    {A : Type 0} (P : A → Type 0) (b : Bool) (a : A)
    → P a
    → Ensures P (or_undefined (if b then none else some a))
guarded-Ensures P true a h = tt
guarded-Ensures P false a h = h

-- A call of which nothing is needed.
pub then-Ensures :
    {A B : Type 0} (P : B → Type 0) (m : Result A) (f : A → Result B)
    → ((a : A) → Ensures P (f a))
    → Ensures P (m >>= f)
then-Ensures P (ok a) f h = h a
then-Ensures P (throws e) f h = tt
then-Ensures P undefined f h = tt

pub Ensures-imp :
    {A : Type 0} (P Q : A → Type 0) (m : Result A)
    → ((a : A) → P a → Q a)
    → Ensures P m
    → Ensures Q m
Ensures-imp P Q (ok a) f h = f a h
Ensures-imp P Q (throws e) f h = tt
Ensures-imp P Q undefined f h = tt
