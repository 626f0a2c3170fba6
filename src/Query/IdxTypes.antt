-- ===== src/Query/IdxTypes.antt =====
-- The types of indexes of src/index/idxtyps.cpp and include/index/idxtyps.h. A name is its bytes.
use database_systems.Common.{
  ℕ, Bool, true, false, not, ◌&&◌, List, [], ◌∷◌, leb, ◌==◌, if◌then◌else◌, Result, ok, throws,
  fatal, ◌≡◌, arith,
}

unfoldable pub idx_type_is_valid : ℕ → Bool
idx_type_is_valid idx = not (idx == 0) && leb idx 2

unfoldable pub idx_type_get_name : ℕ → Result (List ℕ)
idx_type_get_name idx =
    if idx == 1
    then ok (118 ∷ 111 ∷ 108 ∷ 97 ∷ 116 ∷ 105 ∷ 108 ∷ 101 ∷ 32 ∷ 116 ∷ 114 ∷ 101 ∷ 101 ∷ [])
    else if idx == 2
    then ok (98 ∷ 45 ∷ 116 ∷ 114 ∷ 101 ∷ 101 ∷ [])
    else throws fatal

unfoldable pub idx_type_is_volatile : ℕ → Bool
idx_type_is_volatile idx = idx == 1

unfoldable pub idx_type_needs_equal_operator : ℕ → Result Bool
idx_type_needs_equal_operator idx =
    if idx == 1 then ok true else if idx == 2 then ok true else throws fatal

unfoldable pub idx_type_needs_less_operator : ℕ → Result Bool
idx_type_needs_less_operator idx =
    if idx == 1 then ok true else if idx == 2 then ok true else throws fatal

abbrev pub succeeds : {A : Type 0} → Result A → Bool
succeeds (ok a) = true
succeeds _ = false

-- The questions about a type of index are answered for the valid types and for no other number.
pub idx_type_valid :
    (idx : ℕ)
    → (succeeds (idx_type_get_name idx) ≡ idx_type_is_valid idx)
      × (succeeds (idx_type_needs_equal_operator idx) ≡ idx_type_is_valid idx)
      × (succeeds (idx_type_needs_less_operator idx) ≡ idx_type_is_valid idx)
unfolding idx_type_get_name idx_type_is_valid idx_type_needs_equal_operator
    idx_type_needs_less_operator
idx_type_valid idx = (ground arith, ground arith, ground arith)
