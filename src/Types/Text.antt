-- ===== src/Types/Text.antt =====
-- VARCHAR and CHAR of src/utils/typsupp/varchar.cpp and char.cpp: input, output, length,
-- concatenation and the casts between them. A string is its bytes; a space is 32.
use database_systems.Common.{
  ℕ, zero, suc, ◌+◌, ◌-◌, ◌%◌, ◌^◌, Bool, false, not, ◌&&◌, List, ◌++◌, Option, none, some, length,
  get_elem?, take, replicate, ltb, leb, ◌==◌, if◌then◌else◌, Result, ok, undefined, error, ◌>>=◌,
  ◌>>◌, check,
}
use database_systems.Payload.Write.{Value, rep, bytes, is_null, varlen_bytes}
use database_systems.Types.Call.{arg, strict, strict₂}

-- `Datum::FromVarlenBytes(buffer, size)`: the size becomes a `uint32_t`.
abbrev pub from_varlen_bytes : List ℕ → Value
from_varlen_bytes buffer = bytes (take (length buffer % 2 ^ 32) buffer)

abbrev pub is_space : Option ℕ → Bool
is_space none = false
is_space (some c) = c == 32

-- `while (size > max_size && str[size - 1] == ' ') --size`.
unfoldable pub trim : List ℕ → ℕ → ℕ → ℕ
trim str max_size zero = zero
trim str max_size (suc n) =
    let rest = trim str max_size n in
    if ltb max_size (suc n) && is_space (get_elem? str n) then rest else suc n

-- `remove_trailing_space`; its loop stops at 0.
unfoldable pub remove_trailing_space : List ℕ → List ℕ
unfolding trim
remove_trailing_space str = take (trim str 0 (length str)) str

unfoldable pub varchar_in : ℕ → List Value → Result Value
varchar_in max_size args =
    strict
      (λ u. do
        str ← varlen_bytes u
        let size = trim str max_size (length str)
        check (leb size max_size) error
        ok (from_varlen_bytes (take size str)))
      args

unfoldable pub char_in : ℕ → List Value → Result Value
char_in max_size args =
    strict
      (λ u. do
        str ← varlen_bytes u
        let size = trim str max_size (length str)
        check (leb size max_size) error
        ok (from_varlen_bytes (take size str ++ replicate (max_size - size) 32)))
      args

-- VARCHAR_out and CHAR_out copy the string.
unfoldable pub varchar_out : List Value → Result Value
varchar_out args = strict (λ u. do str ← varlen_bytes u; ok (from_varlen_bytes str)) args

unfoldable pub char_out : List Value → Result Value
char_out args = strict (λ u. do str ← varlen_bytes u; ok (from_varlen_bytes str)) args

-- The cast to `int16_t`, extended with its sign to 64 bits.
unfoldable pub varchar_length : List Value → Result Value
varchar_length args =
    strict
      (λ u. do
        str ← varlen_bytes u
        let n = length str % 2 ^ 16
        ok (rep (if ltb n 32768 then n else n + (2 ^ 64 - 2 ^ 16))))
      args

unfoldable pub varchar_concat : List Value → Result Value
varchar_concat args =
    strict₂
      (λ u v. do
        str0 ← varlen_bytes u
        str1 ← varlen_bytes v
        check (leb (length str0 + length str1) 32767) error
        ok (from_varlen_bytes (str0 ++ str1)))
      args

-- CHAR_typlen, of the type parameter.
unfoldable pub char_typlen : List Value → Result Value
char_typlen args = do
  u ← arg args 0
  check (not (is_null u)) error
  elim u [ rep n ↦ check (leb n 32767) error >> ok (rep n) | _ ↦ undefined ]

unfoldable pub char_to_varchar : ℕ → List Value → Result Value
char_to_varchar max_size args =
    strict
      (λ u. do
        str ← varlen_bytes u
        let str_trunc = remove_trailing_space str
        ok (from_varlen_bytes (if max_size == 0 then str_trunc else take max_size str_trunc)))
      args

unfoldable pub varchar_to_char : ℕ → List Value → Result Value
varchar_to_char max_size args =
    strict
      (λ u. do
        str ← varlen_bytes u
        ok (
            from_varlen_bytes (
              if max_size == 0
              then str
              else take max_size str ++ replicate (max_size - length str) 32)))
      args
