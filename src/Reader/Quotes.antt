-- ===== src/Reader/Quotes.antt =====
-- Quoted tokens, as FindNextToken of src/catalog/InitDataFileReader.cpp reads them back.
use database_systems.Common.{
  ℕ, ◌+◌, ◌-◌, ◌≤◌, ◌<◌, false, List, [], ◌∷◌, ◌++◌, none, some, length, take, drop, leb, ok, ◌≡◌,
  inl, inr, refl, ap, sym, ◌∙◌, ap₂, arith, Bool-cases, drop-length, take-length, length-append,
}
use mathlib.Core.List.{append-nil, append_assoc}
use database_systems.Reader.Tokens.{quoted, slice, parse_limit, find_next_token}
use database_systems.Reader.Escapes.{
  escape, quote, is_special, Rest, past, Rest-past, found, escape_special, escape_plain,
  quoted_close, quoted_escape, quoted_push, quoted_skip,
}

found_cong : {a b : List ℕ} {m n : ℕ} → a ≡ b → m ≡ n → found a m ≡ found b n
found_cong e h = cc

-- A list that ends in a quote is not empty.
quote_behind : (xs tail : List ℕ) → 0 < length (xs ++ (34 ∷ tail))
quote_behind xs tail = omega (arith, length-append xs (34 ∷ tail))

-- The loop once bytes are copied.
copied :
    (str : List ℕ) (pos s i : ℕ) (buf token tail : List ℕ)
    → Rest tail
    → length buf + length token ≤ parse_limit
    → quoted str pos s i (some buf) (escape token ++ (34 ∷ tail))
      ≡ found (buf ++ token) (i + length (escape token) + past tail)
unfolding escape
copied str pos s i buf [] tail r k =
    quoted_close str pos s i (some buf) tail r ∙ found_cong (sym (append-nil buf)) (omega arith)
copied str pos s i buf (c ∷ cs) tail r k = elim (Bool-cases (is_special c)) [
  | inl special ↦ rw (escape_special c cs special) (
      quoted_escape str pos s i c (some buf) buf (escape cs ++ (34 ∷ tail)) special refl
        (omega arith)
      ∙ copied str pos s (i + 2) (buf ++ (c ∷ [])) cs tail r space_left
      ∙ found_cong (append_assoc buf (c ∷ []) cs) (omega arith))
  | inr plain ↦ rw (escape_plain c cs plain) (
      quoted_push str pos s i c buf (escape cs ++ (34 ∷ tail)) plain (omega arith)
        (quote_behind (escape cs) tail)
      ∙ copied str pos s (i + 1) (buf ++ (c ∷ [])) cs tail r space_left
      ∙ found_cong (append_assoc buf (c ∷ []) cs) (omega arith))
]
  where
    space_left : length (buf ++ (c ∷ [])) + length cs ≤ parse_limit
    space_left = omega (arith, length-append buf (c ∷ []))

slice-append :
    (str before acc rest : List ℕ) (i : ℕ)
    → str ≡ before ++ (acc ++ rest)
    → i ≡ length before + length acc
    → slice str (length before) i ≡ acc
slice-append str before acc rest i e h =
    ap₂ take width (ap (drop (length before)) e ∙ drop-length before (acc ++ rest))
    ∙ take-length acc rest
  where
    width : i - length before ≡ length acc
    width = omega arith

-- The loop from the opening quote on: up to the first backslash the token is a part of the line.
scanned :
    (str before : List ℕ) (pos i : ℕ) (acc token tail : List ℕ)
    → str ≡ before ++ (acc ++ (escape token ++ (34 ∷ tail)))
    → i ≡ length before + length acc
    → Rest tail
    → length acc + length token ≤ parse_limit
    → quoted str pos (length before) i none (escape token ++ (34 ∷ tail))
      ≡ found (acc ++ token) (i + length (escape token) + past tail)
unfolding escape
scanned str before pos i acc [] tail e h r k =
    quoted_close str pos (length before) i none tail r
    ∙ found_cong (slice-append str before acc (34 ∷ tail) i e h ∙ sym (append-nil acc))
        (omega arith)
scanned str before pos i acc (c ∷ cs) tail e h r k = elim (Bool-cases (is_special c)) [
  | inl special ↦
      let whole : slice str (length before) i ≡ acc =
        slice-append str before acc (escape (c ∷ cs) ++ (34 ∷ tail)) i e h in
      let fits : leb parse_limit (i - length before) ≡ false = ground arith in
      rw (escape_special c cs special) (
        quoted_escape str pos (length before) i c none acc (escape cs ++ (34 ∷ tail)) special
          (rw (fits, whole) refl) (omega arith)
        ∙ copied str pos (length before) (i + 2) (acc ++ (c ∷ [])) cs tail r space_left
        ∙ found_cong (append_assoc acc (c ∷ []) cs) (omega arith))
  | inr plain ↦
      let line : str ≡ before ++ (acc ++ (c ∷ (escape cs ++ (34 ∷ tail)))) =
        e ∙ ap (λ l. before ++ (acc ++ (l ++ (34 ∷ tail)))) (escape_plain c cs plain) in
      let now : str ≡ before ++ ((acc ++ (c ∷ [])) ++ (escape cs ++ (34 ∷ tail))) =
        line ∙ ap (λ l. before ++ l) (sym (append_assoc acc (c ∷ []) (escape cs ++ (34 ∷ tail)))) in
      rw (escape_plain c cs plain) (
        quoted_skip str pos (length before) i c (escape cs ++ (34 ∷ tail)) plain
          (quote_behind (escape cs) tail)
        ∙ scanned str before pos (i + 1) (acc ++ (c ∷ [])) cs tail now (omega (arith, longer)) r
            space_left
        ∙ found_cong (append_assoc acc (c ∷ []) cs) (omega arith))
]
  where
    longer : length (acc ++ (c ∷ [])) ≡ length acc + 1
    longer = length-append acc (c ∷ [])

    space_left : length (acc ++ (c ∷ [])) + length cs ≤ parse_limit
    space_left = omega (arith, longer)

-- A token that begins with a quote.
find_next_token-quoted :
    (str : List ℕ) (pos : ℕ) (rest : List ℕ)
    → drop pos str ≡ 34 ∷ rest
    → find_next_token str pos ≡ quoted str pos (pos + 1) (pos + 1) none rest
unfolding find_next_token
find_next_token-quoted str pos rest e = rw (find_next_token, e) refl

-- A token of at most 4096 bytes that is written within quotes, with a backslash in front of each
-- quote and each backslash, is read back as it was, wherever it stands in the line, if the line
-- ends behind it or a space follows; and the next token is looked for behind that space.
pub find_next_token-quote :
    (before token tail : List ℕ)
    → Rest tail
    → length token ≤ parse_limit
    → find_next_token (before ++ (quote token ++ tail)) (length before)
      ≡ ok (some token, length before + length (quote token) + (past tail - 1))
unfolding quote found
find_next_token-quote before token tail r k =
    find_next_token-quoted str (length before) inside
      (drop-length before (quote token ++ tail) ∙ opening)
    ∙ ap (λ i. quoted str (length before) i i none inside) (sym longer)
    ∙ scanned str (before ++ (34 ∷ [])) (length before) (length (before ++ (34 ∷ []))) [] token tail
        line (omega arith) r (omega arith)
    ∙ found_cong refl (omega (arith, longer, length-append (escape token) (34 ∷ []), Rest-past r))
  where
    str : List ℕ
    str = before ++ (quote token ++ tail)

    inside : List ℕ
    inside = escape token ++ (34 ∷ tail)

    opening : quote token ++ tail ≡ 34 ∷ inside
    opening = ap (λ l. 34 ∷ l) (append_assoc (escape token) (34 ∷ []) tail)

    longer : length (before ++ (34 ∷ [])) ≡ length before + 1
    longer = length-append before (34 ∷ [])

    line : str ≡ (before ++ (34 ∷ [])) ++ inside
    line = ap (λ l. before ++ l) opening ∙ sym (append_assoc before (34 ∷ []) inside)
