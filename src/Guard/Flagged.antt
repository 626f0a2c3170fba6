-- ===== src/Guard/Flagged.antt =====
-- The template of include/utils/ResourceGuard.h with a flag: a guard is `m_val` and `m_isvalid`.
-- `blank` is `T()`, and also stands for the `m_val` that the default constructor leaves unset.
use database_systems.Common.{ℕ, Bool, true, false, List, [], ◌∷◌, if◌then◌else◌, ◌≡◌, refl, arith}
use database_systems.Guard.Cells.{Guard}

pub record Flagged : Type 0 where
  pub val : ℕ
  pub isvalid : Bool

module _ (blank : ℕ) where
  unfoldable pub flagged_empty : Flagged
  flagged_empty = record { val = blank; isvalid = false }

  unfoldable pub flagged_hold : ℕ → Flagged
  flagged_hold val = record { val = val; isvalid = true }

  -- The destructor, which is also the test that the move assignment begins with.
  unfoldable pub flagged_destroy : Flagged → List ℕ
  flagged_destroy g = if g.isvalid then g.val ∷ [] else []

  -- The target and the source of a move.
  unfoldable pub flagged_move : Flagged → Flagged × Flagged
  flagged_move g =
      (record { val = g.val; isvalid = g.isvalid }, record { val = blank; isvalid = false })

  unfoldable pub flagged_reset : Flagged → Flagged × List ℕ
  flagged_reset g =
      if g.isvalid then (record { val = blank; isvalid = false }, g.val ∷ []) else (g, [])

  unfoldable pub flagged_release : Flagged → ℕ × Flagged
  flagged_release g = (g.val, record { val = blank; isvalid = false })

  abbrev pub flagged_owned : Flagged → List ℕ
  flagged_owned g = if g.isvalid then g.val ∷ [] else []

  reset_lem :
      (g : Flagged)
      → ((flagged_reset g).1 ≡ flagged_owned g) × (flagged_owned (flagged_reset g).0 ≡ [])
  unfolding flagged_reset
  reset_lem g = ground arith

  unfoldable pub flagged_guard : Guard
  unfolding flagged_empty flagged_hold flagged_destroy flagged_move flagged_reset flagged_release
      reset_lem
  flagged_guard = record {
    Cell = Flagged;
    empty = flagged_empty;
    hold = flagged_hold;
    get = λ g. g.val;
    is_valid = λ g. g.isvalid;
    copied = λ g. (flagged_move g).0;
    left = λ g. (flagged_move g).1;
    destroy = flagged_destroy;
    reset = flagged_reset;
    release = flagged_release;
    owned = flagged_owned;
    owned_lem = λ g. refl;
    owned-empty = refl;
    owned-copied = λ g. refl;
    owned-left = λ g. refl;
    destroy_lem = λ g. refl;
    reset_lem = reset_lem;
    release_lem = λ g. (refl, refl);
  }
