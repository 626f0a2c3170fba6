-- ===== src/Reader/Progress.antt =====
-- Each token of InitDataFileReader::FindNextToken (src/catalog/InitDataFileReader.cpp) ends behind
-- the place where it starts.
use database_systems.Common.{
  ◌-◌, throws, ℕ, ◌+◌, ◌≤◌, ◌<◌, List, [], ◌∷◌, Option, none, some, length, drop, Result, ok,
  throws, undefined, Ensures, ◌≡◌, inl, inr, arith, Bool-cases, length-drop, leb, ◌==◌, not, ◌&&◌,
}
use database_systems.Common.{if-Ensures, option-Ensures}
use database_systems.Reader.Tokens.{
  token_at, Token, quoted, plain_end, find_next_token, on_token, start_buffer, push_byte, add_byte,
  parse_limit,
}

-- The new `start_pos` of a token is behind the old one, and within the line.
abbrev pub Advances : ℕ → ℕ → Option (List ℕ) × ℕ → Type 0
Advances pos len (none, next) = Unit
Advances pos len (some text, next) = (pos < next) × (next ≤ len)

plain_end_le :
    (i : ℕ) (rest : List ℕ) → (i ≤ plain_end i rest) × (plain_end i rest ≤ i + length rest)
unfolding plain_end
plain_end_le i [] = (omega arith, omega arith)
plain_end_le i (c ∷ rest) = elim (Bool-cases (c == 32)) [
  | inl space ↦ rw space (omega arith, omega arith)
  | inr other ↦
      rw other (omega (arith, plain_end_le (i + 1) rest), omega (arith, plain_end_le (i + 1) rest))
]

quoted-Advances :
    (str : List ℕ) (pos s i : ℕ) (copy : Option (List ℕ)) (rest : List ℕ)
    → pos < i
    → i + length rest ≤ length str
    → Ensures (Advances pos (length str)) (quoted str pos s i copy rest)
unfolding quoted
quoted-Advances str pos s i copy [] h k = tt
quoted-Advances str pos s i none (c ∷ []) h k =
    if-Ensures _ (c == 34) _ _ (omega arith, omega arith) (if-Ensures _ (c == 92) _ _ tt tt)
quoted-Advances str pos s i (some buf) (c ∷ []) h k =
    if-Ensures _ (c == 34) _ _ (omega arith, omega arith)
      (if-Ensures _ (c == 92) _ _ tt (if-Ensures _ (leb parse_limit (length buf)) _ _ tt tt))
quoted-Advances str pos s i copy (c ∷ d ∷ rest) h k =
    if-Ensures _ (c == 34) _ _ (if-Ensures _ (d == 32) _ _ (omega arith, omega arith) tt) (
      if-Ensures _ (c == 92) _ _
        (if-Ensures _ (not (d == 92) && not (d == 34)) _ _ tt (
          option-Ensures _ (add_byte (start_buffer str s i copy) d) _ _ tt
            λ buf. quoted-Advances str pos s (i + 2) (some buf) rest (omega arith) (omega arith)))
        (option-Ensures _ copy _ _
          (quoted-Advances str pos s (i + 1) none (d ∷ rest) (omega arith) (omega arith))
          λ buf. option-Ensures _ (push_byte buf c) _ _ tt λ buf'.
            quoted-Advances str pos s (i + 1) (some buf') (d ∷ rest) (omega arith) (omega arith)))

token_at-Advances :
    (str : List ℕ) (pos : ℕ) (rest : List ℕ)
    → length rest ≡ length str - pos
    → Ensures (Advances pos (length str)) (token_at str pos rest)
unfolding token_at
token_at-Advances str pos [] e = tt
token_at-Advances str pos (c ∷ rest) e =
    if-Ensures _ (c == 34) _ _
      (quoted-Advances str pos (pos + 1) (pos + 1) none rest (omega arith) (omega arith))
      (ground (arith, plain_end_le (pos + 1) rest), ground (arith, plain_end_le (pos + 1) rest))

-- A token that the reader finds at `start_pos` moves it forwards, and not beyond the line's end:
-- in no state does the loop over a line's tokens read the same bytes twice.
pub find_next_token-Advances :
    (str : List ℕ) (pos : ℕ) → Ensures (Advances pos (length str)) (find_next_token str pos)
unfolding find_next_token
find_next_token-Advances str pos = token_at-Advances str pos (drop pos str) (length-drop pos str)

pub on_token-Ensures :
    {A : Type 0} (P : A → Type 0) (str : List ℕ) (pos : ℕ) (fail : Result A)
    (k : List ℕ → ℕ → Result A)
    → Ensures P fail
    → ((text : List ℕ) (next : ℕ) → pos < next → next ≤ length str → Ensures P (k text next))
    → Ensures P (on_token (find_next_token str pos) fail k)
on_token-Ensures P str pos fail k h g =
    go (find_next_token str pos) (find_next_token-Advances str pos)
  where
    go : (t : Token) → Ensures (Advances pos (length str)) t → Ensures P (on_token t fail k)
    go (ok (none, next)) a = h
    go (ok (some text, next)) a = g text next a.0 a.1
    go (throws e) a = tt
    go undefined a = tt
