-- ===== src/Guard/Cells.antt =====
-- What a template of include/utils/ResourceGuard.h gives to a program that uses its guards. A
-- resource is a number. The functions that call `ReleaseFunc` also give the resources that they
-- call it with.
use database_systems.Common.{ℕ, Bool, List, [], ◌∷◌, if◌then◌else◌, ◌≡◌}

-- The operations, and the laws that the program relies on.
pub record Guard : Type 1 where
  pub Cell : Type 0
  -- The default constructor and the one from a value.
  pub empty : Cell
  pub hold : ℕ → Cell
  pub get : Cell → ℕ
  pub is_valid : Cell → Bool
  -- What a move copies into its target, and what it leaves in its source.
  pub copied : Cell → Cell
  pub left : Cell → Cell
  -- The destructor, and the first test of the move assignment.
  pub destroy : Cell → List ℕ
  pub reset : Cell → Cell × List ℕ
  pub release : Cell → ℕ × Cell
  pub owned : Cell → List ℕ
  pub owned_lem : (c : Cell) → owned c ≡ (if is_valid c then get c ∷ [] else [])
  pub owned-empty : owned empty ≡ []
  pub owned-copied : (c : Cell) → owned (copied c) ≡ owned c
  pub owned-left : (c : Cell) → owned (left c) ≡ []
  pub destroy_lem : (c : Cell) → destroy c ≡ owned c
  pub reset_lem : (c : Cell) → ((reset c).1 ≡ owned c) × (owned (reset c).0 ≡ [])
  pub release_lem :
      (c : Cell)
      → ((if is_valid c then (release c).0 ∷ [] else []) ≡ owned c) × (owned (release c).1 ≡ [])
