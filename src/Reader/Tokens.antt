-- ===== src/Reader/Tokens.antt =====
-- InitDataFileReader::FindNextToken of src/catalog/InitDataFileReader.cpp, with assertions enabled.
-- A line is its bytes: 32 is a space, 34 a quote and 92 a backslash. The result is the token, if
-- any, with the new `start_pos`.
use database_systems.Common.{
  ℕ, ◌+◌, ◌-◌, not, ◌&&◌, List, [], ◌∷◌, ◌++◌, Option, none, some, length, take, drop, leb, ◌==◌,
  if◌then◌else◌, Result, ok, throws, undefined, fatal,
}

-- `parse_limit`.
abbrev pub parse_limit : ℕ
parse_limit = 4096

abbrev pub Token : Type 0
Token = Result (Option (List ℕ) × ℕ)

-- `str.substr(s, i - s)`.
abbrev pub slice : List ℕ → ℕ → ℕ → List ℕ
slice str s i = take (i - s) (drop s str)

-- The token that ends before the quote at `i`: the buffer's contents once `cstr` is `parse_buf`.
abbrev pub quoted_token : List ℕ → ℕ → ℕ → Option (List ℕ) → List ℕ
quoted_token str s i none = slice str s i
quoted_token str s i (some buf) = buf

-- The buffer with one more byte, unless it is full.
abbrev pub push_byte : List ℕ → ℕ → Option (List ℕ)
push_byte buf c = if leb parse_limit (length buf) then none else some (buf ++ (c ∷ []))

-- The buffer before the byte behind a backslash is added: the bytes so far are copied into it if
-- it is not in use, as far as they fit.
abbrev pub start_buffer : List ℕ → ℕ → ℕ → Option (List ℕ) → Option (List ℕ)
start_buffer str s i none = if leb parse_limit (i - s) then none else some (slice str s i)
start_buffer str s i (some buf) = some buf

abbrev pub add_byte : Option (List ℕ) → ℕ → Option (List ℕ)
add_byte none c = none
add_byte (some buf) c = push_byte buf c

-- The loop over a quoted token, at the bytes from `i` on. A line that ends within the quotes comes to
-- the assertion behind the loop.
unfoldable pub quoted : List ℕ → ℕ → ℕ → ℕ → Option (List ℕ) → List ℕ → Token
quoted str pos s i copy [] = throws fatal
quoted str pos s i copy (c ∷ []) =
    if c == 34
    then ok (some (quoted_token str s i copy), i + 1)
    else if c == 92
    then ok (none, pos)
    else elim copy [
      | none ↦ throws fatal
      | some buf ↦ if leb parse_limit (length buf) then ok (none, pos) else throws fatal
    ]
quoted str pos s i copy (c ∷ d ∷ rest) =
    let escaped : Token = elim (add_byte (start_buffer str s i copy) d) [
      | none ↦ ok (none, pos)
      | some buf ↦ quoted str pos s (i + 2) (some buf) rest
    ] in
    let plain : Token = elim copy [
      | none ↦ quoted str pos s (i + 1) none (d ∷ rest)
      | some buf ↦ elim (push_byte buf c) [
        | none ↦ ok (none, pos)
        | some buf' ↦ quoted str pos s (i + 1) (some buf') (d ∷ rest)
      ]
    ] in
    if c == 34
    then (if d == 32 then ok (some (quoted_token str s i copy), i + 2) else ok (none, pos))
    else if c == 92
    then (if not (d == 92) && not (d == 34) then ok (none, pos) else escaped)
    else plain

-- The loop over a token without quotes: where it stops, from `i` on.
unfoldable pub plain_end : ℕ → List ℕ → ℕ
plain_end i [] = i
plain_end i (c ∷ rest) = let further : ℕ = plain_end (i + 1) rest in if c == 32 then i else further

-- The token at `pos`, with the line's bytes from there on.
unfoldable pub token_at : List ℕ → ℕ → List ℕ → Token
unfolding quoted plain_end
token_at str pos [] = ok (none, pos)
token_at str pos (c ∷ rest) =
    if c == 34
    then quoted str pos (pos + 1) (pos + 1) none rest
    else (let i : ℕ = plain_end (pos + 1) rest in
        ok (some (slice str pos i), if i == length str then i else i + 1))

unfoldable pub find_next_token : List ℕ → ℕ → Token
unfolding token_at
find_next_token str pos = token_at str pos (drop pos str)

-- What a caller does with a token: `fail` without one, else `k` with the token and the new `start_pos`.
abbrev pub on_token : {A : Type 0} → Token → Result A → (List ℕ → ℕ → Result A) → Result A
on_token (ok (none, next)) fail k = fail
on_token (ok (some text, next)) fail k = k text next
on_token (throws e) fail k = throws e
on_token undefined fail k = undefined
