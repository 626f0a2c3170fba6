-- ===== src/Schema/Kinds.antt =====
-- The three sections of a record payload, and which fields stand in each.
use database_systems.Common.{
  ℕ, ◌+◌, ◌≡◌, Bool, true, false, not, ◌&&◌, List, [], ◌∷◌, ◌==◌, if◌then◌else◌,
}
use database_systems.Schema.Defs.{FieldInfo, minus_one, is_nullable}

abbrev pub is_varlen : FieldInfo → Bool
is_varlen f = f.typlen == minus_one

abbrev pub is_nullable_fixed : FieldInfo → Bool
is_nullable_fixed f = not (is_varlen f) && is_nullable f

abbrev pub is_fixed : FieldInfo → Bool
is_fixed f = not (is_varlen f) && not (is_nullable f)

-- The numbers of the fields with a property, counted from the given one on.
abbrev pub ids : (FieldInfo → Bool) → ℕ → List FieldInfo → List ℕ
ids p i [] = []
ids p i (f ∷ fs) = let rest = ids p (i + 1) fs in if p f then i ∷ rest else rest

module _ (p : FieldInfo → Bool) (i : ℕ) (f : FieldInfo) (fs : List FieldInfo) where
  pub ids-cons_true : p f ≡ true → ids p i (f ∷ fs) ≡ i ∷ ids p (i + 1) fs
  ids-cons_true e = rw e

  pub ids-cons_false : p f ≡ false → ids p i (f ∷ fs) ≡ ids p (i + 1) fs
  ids-cons_false e = rw e
