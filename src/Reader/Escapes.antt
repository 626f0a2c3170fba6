-- ===== src/Reader/Escapes.antt =====
-- Tokens within quotes, and the rounds of the loop of FindNextToken of
-- src/catalog/InitDataFileReader.cpp over them.
use database_systems.Common.{
  ℕ, ◌+◌, ◌≤◌, ◌<◌, Bool, true, false, not, ◌&&◌, ◌||◌, List, [], ◌∷◌, ◌++◌, Option, none, some,
  length, leb, ◌==◌, if◌then◌else◌, ok, ◌≡◌, refl, arith,
}
use database_systems.Reader.Tokens.{Token, quoted, quoted_token, start_buffer, parse_limit}

abbrev pub is_special : ℕ → Bool
is_special c = (c == 34) || (c == 92)

-- A token's bytes within quotes.
unfoldable pub escape : List ℕ → List ℕ
escape [] = []
escape (c ∷ cs) = (if is_special c then 92 ∷ c ∷ [] else c ∷ []) ++ escape cs

unfoldable pub quote : List ℕ → List ℕ
unfolding escape
quote token = 34 ∷ (escape token ++ (34 ∷ []))

-- What may stand behind a token: nothing, or a space and more.
pub data Rest : List ℕ → Type 0 where
  line_end : Rest []
  space : (more : List ℕ) → Rest (32 ∷ more)

-- How far behind the closing quote the next token starts, counted from the quote.
abbrev pub past : List ℕ → ℕ
past [] = 1
past (c ∷ rest) = 2

-- The quote itself is behind `past`.
pub Rest-past : {tail : List ℕ} → Rest tail → 1 ≤ past tail
Rest-past line_end = omega arith
Rest-past (space more) = omega arith

unfoldable pub found : List ℕ → ℕ → Token
found token next = ok (some token, next)

pub escape_special :
    (c : ℕ) (cs : List ℕ) → is_special c ≡ true → escape (c ∷ cs) ≡ 92 ∷ c ∷ escape cs
unfolding escape
escape_special c cs e = rw e refl

pub escape_plain : (c : ℕ) (cs : List ℕ) → is_special c ≡ false → escape (c ∷ cs) ≡ c ∷ escape cs
unfolding escape
escape_plain c cs e = rw e refl

-- The loop at a closing quote.
pub quoted_close :
    (str : List ℕ) (pos s i : ℕ) (copy : Option (List ℕ)) (tail : List ℕ)
    → Rest tail
    → quoted str pos s i copy (34 ∷ tail) ≡ found (quoted_token str s i copy) (i + past tail)
unfolding quoted found
quoted_close str pos s i copy [] line_end = refl
quoted_close str pos s i copy (c ∷ more) (space _) = refl

-- The loop at a backslash, in front of a byte that may be escaped.
pub quoted_escape :
    (str : List ℕ) (pos s i c : ℕ) (copy : Option (List ℕ)) (buf rest : List ℕ)
    → is_special c ≡ true
    → start_buffer str s i copy ≡ some buf
    → length buf < parse_limit
    → quoted str pos s i copy (92 ∷ c ∷ rest)
      ≡ quoted str pos s (i + 2) (some (buf ++ (c ∷ []))) rest
unfolding quoted
quoted_escape str pos s i c copy buf rest e h k = rw (known, h, space_left) refl
  where
    known : (not (c == 92) && not (c == 34)) ≡ false
    known = ground arith

    space_left : leb parse_limit (length buf) ≡ false
    space_left = ground arith

-- The loop at a byte that stands for itself, with bytes in the buffer.
pub quoted_push :
    (str : List ℕ) (pos s i c : ℕ) (buf rest : List ℕ)
    → is_special c ≡ false
    → length buf < parse_limit
    → 0 < length rest
    → quoted str pos s i (some buf) (c ∷ rest)
      ≡ quoted str pos s (i + 1) (some (buf ++ (c ∷ []))) rest
unfolding quoted
quoted_push str pos s i c buf [] e k more = elim more [ ]
quoted_push str pos s i c buf (d ∷ rest) e k more = rw (not_quote, not_backslash, space_left) refl
  where
    not_quote : (c == 34) ≡ false
    not_quote = ground arith

    not_backslash : (c == 92) ≡ false
    not_backslash = ground arith

    space_left : leb parse_limit (length buf) ≡ false
    space_left = ground arith

-- The same before anything is copied.
pub quoted_skip :
    (str : List ℕ) (pos s i c : ℕ) (rest : List ℕ)
    → is_special c ≡ false
    → 0 < length rest
    → quoted str pos s i none (c ∷ rest) ≡ quoted str pos s (i + 1) none rest
unfolding quoted
quoted_skip str pos s i c [] e more = elim more [ ]
quoted_skip str pos s i c (d ∷ rest) e more = rw (not_quote, not_backslash) refl
  where
    not_quote : (c == 34) ≡ false
    not_quote = ground arith

    not_backslash : (c == 92) ≡ false
    not_backslash = ground arith
