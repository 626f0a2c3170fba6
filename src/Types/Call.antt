-- ===== src/Types/Call.antt =====
-- How a built-in function takes its arguments: FMGR_ARG and the NULL tests that the functions of
-- src/utils/typsupp begin with.
use database_systems.Common.{ℕ, List, get_elem?, if◌then◌else◌, Result, ok, ◌>>=◌, or_undefined}
use database_systems.Payload.Write.{Value, null, is_null}

-- `FMGR_ARG(n)`; an index past the vector is undefined.
abbrev pub arg : List Value → ℕ → Result Value
arg args n = or_undefined (get_elem? args n)

-- A function of one argument that returns NULL on NULL.
abbrev pub strict : (Value → Result Value) → List Value → Result Value
strict f args = do a ← arg args 0; if is_null a then ok null else f a

-- A function of two arguments that returns NULL if one is NULL. The second is looked at only if
-- the first is not NULL.
abbrev pub strict₂ : (Value → Value → Result Value) → List Value → Result Value
strict₂ f args = do
  a ← arg args 0
  if is_null a then ok null else (do b ← arg args 1; if is_null b then ok null else f a b)
