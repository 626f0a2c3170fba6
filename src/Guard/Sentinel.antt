-- ===== src/Guard/Sentinel.antt =====
-- The main template of include/utils/ResourceGuard.h: a guard is its `m_val`, and the value
-- `invalid` (`InvalidVal`) stands for no resource.
use database_systems.Common.{ℕ, Bool, not, List, [], ◌∷◌, ◌==◌, if◌then◌else◌, ◌≡◌, refl, arith}
use database_systems.Guard.Cells.{Guard}

module _ (invalid : ℕ) where
  unfoldable pub sentinel_is_valid : ℕ → Bool
  sentinel_is_valid val = not (val == invalid)

  -- The destructor, which is also the test that the move assignment begins with.
  unfoldable pub sentinel_destroy : ℕ → List ℕ
  unfolding sentinel_is_valid
  sentinel_destroy val = if sentinel_is_valid val then val ∷ [] else []

  -- The value in the target and in the source of a move.
  unfoldable pub sentinel_move : ℕ → ℕ × ℕ
  sentinel_move val = (val, invalid)

  unfoldable pub sentinel_reset : ℕ → ℕ × List ℕ
  unfolding sentinel_is_valid
  sentinel_reset val = if sentinel_is_valid val then (invalid, val ∷ []) else (val, [])

  unfoldable pub sentinel_release : ℕ → ℕ × ℕ
  sentinel_release val = (val, invalid)

  abbrev pub sentinel_owned : ℕ → List ℕ
  sentinel_owned val = if val == invalid then [] else val ∷ []

  owned_lem : (c : ℕ) → sentinel_owned c ≡ (if sentinel_is_valid c then c ∷ [] else [])
  unfolding sentinel_is_valid
  owned_lem c = ground arith

  owned-invalid : sentinel_owned invalid ≡ []
  owned-invalid = ground arith

  owned-copied : (c : ℕ) → sentinel_owned (sentinel_move c).0 ≡ sentinel_owned c
  unfolding sentinel_move
  owned-copied c = refl

  owned-left : (c : ℕ) → sentinel_owned (sentinel_move c).1 ≡ []
  unfolding sentinel_move
  owned-left c = owned-invalid

  destroy_lem : (c : ℕ) → sentinel_destroy c ≡ sentinel_owned c
  unfolding sentinel_destroy
  destroy_lem c = ground arith

  reset_lem :
      (c : ℕ)
      → ((sentinel_reset c).1 ≡ sentinel_owned c) × (sentinel_owned (sentinel_reset c).0 ≡ [])
  unfolding sentinel_reset
  reset_lem c = ground (arith, owned-invalid)

  release_lem :
      (c : ℕ)
      → ((if sentinel_is_valid c then (sentinel_release c).0 ∷ [] else []) ≡ sentinel_owned c)
        × (sentinel_owned (sentinel_release c).1 ≡ [])
  unfolding sentinel_release sentinel_is_valid
  release_lem c = ground (arith, owned-invalid)

  unfoldable pub sentinel_guard : Guard
  unfolding owned_lem owned-invalid owned-copied owned-left destroy_lem reset_lem release_lem
  sentinel_guard = record {
    Cell = ℕ;
    empty = invalid;
    hold = λ val. val;
    get = λ val. val;
    is_valid = sentinel_is_valid;
    copied = λ val. (sentinel_move val).0;
    left = λ val. (sentinel_move val).1;
    destroy = sentinel_destroy;
    reset = sentinel_reset;
    release = sentinel_release;
    owned = sentinel_owned;
    owned_lem = owned_lem;
    owned-empty = owned-invalid;
    owned-copied = owned-copied;
    owned-left = owned-left;
    destroy_lem = destroy_lem;
    reset_lem = reset_lem;
    release_lem = release_lem;
  }
