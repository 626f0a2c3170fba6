-- ===== src/Reader/Fields.antt =====
-- The loop of InitDataFileReader::next (src/catalog/InitDataFileReader.cpp) over quoted fields.
use database_systems.Common.{
  ℕ, zero, suc, ◌+◌, ◌-◌, ◌≤◌, ◌<◌, ◌==◌, ◌%◌, true, false, List, [], ◌∷◌, ◌++◌, some, length,
  Result, ok, ◌≡◌, ◌≢◌, refl, arith, sym, ◌∙◌, ap, ap₂, length-append,
}
use mathlib.Core.List.{append-nil, append_assoc}
use database_systems.Schema.Defs.{Schema}
use database_systems.Payload.Write.{Value, is_null}
use database_systems.Reader.Tokens.{parse_limit, find_next_token}
use database_systems.Reader.Escapes.{quote, Rest, line_end, space, past}
use database_systems.Reader.Quotes.{find_next_token-quote}
use database_systems.Reader.State.{Services, Infuncs}
use database_systems.Reader.Next.{Loop, finished, num_fields, input_value, read_values}

-- The fields' texts, each behind a space and within quotes.
unfoldable pub fields_text : List (List ℕ) → List ℕ
unfolding quote
fields_text [] = []
fields_text (w ∷ ws) = 32 ∷ (quote w ++ fields_text ws)

fields_text-Rest : (ws : List (List ℕ)) → Rest (fields_text ws)
unfolding fields_text
fields_text-Rest [] = line_end
fields_text-Rest (w ∷ ws) = space (quote w ++ fields_text ws)

module _ (services : Services) (s : Schema) (infuncs : Infuncs) where
  -- From field `i` on the texts are of at most 4096 bytes and the input functions of the fields' types
  -- make these values of them.
  pub data Reads : ℕ → List (List ℕ) → List Value → Type 0 where
    none_left : {i : ℕ} → Reads i [] []
    field :
        {i : ℕ} {w : List ℕ} {ws : List (List ℕ)} {v : Value} {vs : List Value}
        → length w ≤ parse_limit
        → input_value services s infuncs i w ≡ ok v
        → is_null v ≡ false
        → Reads (i + 1) ws vs
        → Reads i (w ∷ ws) (v ∷ vs)

  read_values_end :
      (n : ℕ) (line : List ℕ) (pos i : ℕ) (values : List Value)
      → pos ≡ length line
      → read_values services s infuncs n line pos i values ≡ ok (finished (values, i))
  unfolding read_values
  read_values_end zero line pos i values e = rw at_end refl
    where
      at_end : (pos == length line) ≡ true
      at_end = ground arith
  read_values_end (suc n) line pos i values e = rw at_end refl
    where
      at_end : (pos == length line) ≡ true
      at_end = ground arith

  read_values_one :
      (n : ℕ) (line : List ℕ) (pos pos' i : ℕ) (values : List Value) (w : List ℕ) (v : Value)
      → pos ≢ length line
      → i < num_fields s
      → find_next_token line pos ≡ ok (some w, pos')
      → input_value services s infuncs i w ≡ ok v
      → is_null v ≡ false
      → read_values services s infuncs (suc n) line pos i values
        ≡ read_values services s infuncs n line pos' ((i + 1) % 65536) (values ++ (v ∷ []))
  unfolding read_values
  read_values_one n line pos pos' i values w v inside more e f g =
      rw (going, field_left, e, f, g) refl
    where
      going : (pos == length line) ≡ false
      going = ground arith

      field_left : (i == num_fields s) ≡ false
      field_left = ground arith

  pub found_values :
      {a b : List Value} {i j : ℕ}
      → a ≡ b
      → i ≡ j
      → ◌≡◌ {A = Result (Loop (List Value × ℕ))} (ok (finished (a, i))) (ok (finished (b, j)))
  found_values e h = cc

  pub read_values_back :
      (n : ℕ) (line before : List ℕ) (pos i : ℕ) (values : List Value) {ws : List (List ℕ)}
      {vs : List Value}
      → Reads i ws vs
      → i + length ws ≡ num_fields s
      → line ≡ before ++ fields_text ws
      → pos ≡ length before + (past (fields_text ws) - 1)
      → length ws ≤ n
      → read_values services s infuncs n line pos i values
        ≡ ok (finished (values ++ vs, i + length ws))
  unfolding fields_text
  read_values_back n line before pos i values none_left total e at k =
      read_values_end n line pos i values (omega (arith, ap length e, length-append before []))
      ∙ found_values (sym (append-nil values)) (omega arith)
  read_values_back zero line before pos i values (field short read some_v rest) total e at k =
      elim k [ ]
  read_values_back (suc n) line before pos i values {ws = w ∷ ws} {vs = v ∷ vs}
        (field short read some_v rest) total e at k =
      read_values_one n line pos pos' i values w v (λ stop. absurd (omega (arith, stop, long)))
        (omega arith) token read some_v
      ∙ ap (λ j. read_values services s infuncs n line pos' j (values ++ (v ∷ []))) no_wrap
      ∙ read_values_back n line before' pos' (i + 1) (values ++ (v ∷ [])) rest (omega arith) line'
          (omega (arith, length-append (before ++ (32 ∷ [])) (quote w))) (omega arith)
      ∙ found_values (append_assoc values (v ∷ []) vs) (omega arith)
    where
      before' : List ℕ
      before' = (before ++ (32 ∷ [])) ++ quote w

      pos' : ℕ
      pos' = length (before ++ (32 ∷ [])) + length (quote w) + (past (fields_text ws) - 1)

      no_wrap : (i + 1) % 65536 ≡ i + 1
      no_wrap = omega (arith, total)

      line_here : line ≡ (before ++ (32 ∷ [])) ++ (quote w ++ fields_text ws)
      line_here = e ∙ sym (append_assoc before (32 ∷ []) (quote w ++ fields_text ws))

      line' : line ≡ before' ++ fields_text ws
      line' = line_here ∙ sym (append_assoc (before ++ (32 ∷ [])) (quote w) (fields_text ws))

      long : length line ≡ length before + (1 + (length (quote w) + length (fields_text ws)))
      long =
          ap length e
          ∙ omega (
            arith,
            length-append before (32 ∷ (quote w ++ fields_text ws)),
            length-append (quote w) (fields_text ws),
          )

      here : pos ≡ length (before ++ (32 ∷ []))
      here = omega (arith, length-append before (32 ∷ []))

      token : find_next_token line pos ≡ ok (some w, pos')
      token =
          ap₂ find_next_token line_here here
          ∙ find_next_token-quote (before ++ (32 ∷ [])) w (fields_text ws) (fields_text-Rest ws)
              short
