-- ===== src/Types/Tests.antt =====
-- The theorems on the types' functions at single values.
use database_systems.Common.{
  ℕ, ◌-◌, ◌^◌, ◌≤◌, ◌<◌, false, List, [], ◌∷◌, length, get_elem?, ok, throws, error, ◌≡◌, ◌⊎◌, refl,
  arith,
}
use database_systems.Payload.Write.{bytes, rep}
use database_systems.Types.Integer.{sub, div, modulo, arithmetic}
use database_systems.Types.Files.{int1, int4, name_int1, name_int4, int4_arithmetic}
use database_systems.Types.Outcomes.{Outcome, division-Outcome}
use database_systems.Types.Undo.{add_then_sub}
use database_systems.Types.Text.{char_in, char_to_varchar, remove_trailing_space, is_space}
use database_systems.Types.Padding.{char_in_round_trip}

-- The least INT4 by -1.
division-Outcome_example :
    Outcome int4 2147483648 4294967295
      (arithmetic int4 div (rep 2147483648 ∷ rep 4294967295 ∷ []))
      (arithmetic int4 modulo (rep 2147483648 ∷ rep 4294967295 ∷ []))
division-Outcome_example = division-Outcome name_int4 2147483648 4294967295

-- 100 + 100 wraps around to -56 in INT1.
add_then_sub_example : arithmetic int1 sub (rep (2 ^ 64 - 56) ∷ rep 100 ∷ []) ≡ ok (rep 100)
unfolding arithmetic
add_then_sub_example = add_then_sub name_int1 100 100 (rep (2 ^ 64 - 56)) refl

-- -7 / 2 and -7 % 2.
int4_arithmetic_example :
    (int4_arithmetic div (rep 4294967289 ∷ rep 2 ∷ []) ≡ ok (rep (2 ^ 64 - 3)))
    × (int4_arithmetic modulo (rep 4294967289 ∷ rep 2 ∷ []) ≡ ok (rep (2 ^ 64 - 1)))
unfolding int4_arithmetic arithmetic
int4_arithmetic_example = (refl, refl)

-- "ab " in CHAR(5).
abbrev ab : List ℕ
ab = 97 ∷ 98 ∷ 32 ∷ []

char_in_round_trip_example :
    (((i : ℕ) × (5 ≤ i) × (i < 3) × (is_space (get_elem? ab i) ≡ false))
      × (char_in 5 (bytes ab ∷ []) ≡ throws error))
    ⊎ ((padded : List ℕ) × (char_in 5 (bytes ab ∷ []) ≡ ok (bytes padded))
        × (length padded ≡ 5)
        × (char_to_varchar 0 (bytes padded ∷ []) ≡ ok (bytes (remove_trailing_space ab))))
char_in_round_trip_example = char_in_round_trip 5 ab (omega arith)
