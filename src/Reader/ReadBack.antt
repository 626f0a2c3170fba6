-- ===== src/Reader/ReadBack.antt =====
-- A data line of quoted fields, as InitDataFileReader::next of
-- src/catalog/InitDataFileReader.cpp reads it.
use database_systems.Common.{
  ℕ, ◌+◌, ◌-◌, ◌≤◌, ◌==◌, ◌%◌, ◌^◌, Bool, true, false, List, [], ◌∷◌, ◌++◌, some, length, ok, ◌≡◌,
  refl, arith, ◌∙◌, ap, length-append, ◌||◌,
}
use database_systems.Base.Align.{int16}
use database_systems.Schema.Defs.{Schema}
use database_systems.Payload.Write.{Value, write_payload}
use database_systems.Reader.Tokens.{find_next_token}
use database_systems.Reader.Escapes.{quote, past}
use database_systems.Reader.State.{
  Services, Reader, is_final, getline, split_line, Stream, data_line,
}
use database_systems.Reader.Next.{
  finished, num_fields, read_values, read_line, read_data, use_values, use_line, next,
}
use database_systems.Reader.Fields.{fields_text, Reads, read_values_back, found_values}

abbrev data_word : List ℕ
data_word = 100 ∷ 97 ∷ 116 ∷ 97 ∷ []

-- A data line of these fields.
unfoldable pub data_text : List (List ℕ) → List ℕ
unfolding fields_text
data_text ws = data_word ++ fields_text ws

length-fields_text : (ws : List (List ℕ)) → length ws ≤ length (fields_text ws)
unfolding fields_text
length-fields_text [] = omega arith
length-fields_text (w ∷ ws) =
    omega (arith, length-append (quote w) (fields_text ws), length-fields_text ws)

data_text-split : (ws : List (List ℕ)) → data_text ws ≡ data_word ++ fields_text ws
unfolding data_text
data_text-split ws = refl

first_token :
    (ws : List (List ℕ))
    → find_next_token (data_text ws) 0 ≡ ok (some data_word, 4 + (past (fields_text ws) - 1))
unfolding find_next_token fields_text data_text
first_token [] = refl
first_token (w ∷ ws) = rw longer refl
  where
    longer : (4 == length (data_text (w ∷ ws))) ≡ false
    longer = ground arith

abbrev pub has_newline : List ℕ → Bool
has_newline [] = false
has_newline (c ∷ cs) = (c == 10) || has_newline cs

split_line-append :
    (line more : List ℕ)
    → has_newline line ≡ false
    → split_line (line ++ (10 ∷ more)) ≡ (line, some more)
unfolding split_line
split_line-append [] more e = refl
split_line-append (c ∷ cs) more e = rw (not_newline, split_line-append cs more rest) refl
  where
    not_newline : (c == 10) ≡ false
    not_newline = ground arith

    rest : has_newline cs ≡ false
    rest = ground arith

-- An input stream in a good state.
abbrev pub good_stream : List ℕ → Stream
good_stream left = record { left = left; eofbit = false; failbit = false }

getline-good_stream :
    (line more : List ℕ)
    → has_newline line ≡ false
    → getline (good_stream (line ++ (10 ∷ more))) ≡ (line, good_stream more)
unfolding getline
getline-good_stream line more e =
    rw (split_line-append line more e, split_line-append line more e) refl

module _ (services : Services) where
  read_data-text :
      (r : Reader) (s : Schema) (ws : List (List ℕ)) (vs : List Value) (buf : List ℕ × ℕ)
      → r.schema ≡ some s
      → Reads services s r.infuncs 0 ws vs
      → length ws ≡ num_fields s
      → write_payload s vs [] ≡ ok (some buf)
      → read_data services r (data_text ws) (4 + (past (fields_text ws) - 1))
        ≡ ok (record r { last_state = data_line }, some (buf.0, int16 (length buf.0)))
  unfolding read_data use_values
  read_data-text r s ws vs buf known reads total written = rw (known, loop, all_there, written) refl
    where
      loop :
          read_values services s r.infuncs
            (length (data_text ws))
            (data_text ws)
            (4 + (past (fields_text ws) - 1))
            0
            []
          ≡ ok (finished (vs, length ws))
      loop =
          read_values_back services s r.infuncs (length (data_text ws)) (data_text ws) data_word
            (4 + (past (fields_text ws) - 1)) 0 [] reads (omega (arith, total)) (data_text-split ws)
            refl
            (omega (
              arith,
              ap length (data_text-split ws),
              length-append data_word (fields_text ws),
              length-fields_text ws,
            ))
          ∙ found_values services s r.infuncs refl (omega arith)

      all_there : (length ws == num_fields s) ≡ true
      all_there = ground arith

  use_line-data_text :
      (r : Reader) (ws : List (List ℕ))
      → use_line services r (data_text ws) ≡ read_line services r (data_text ws)
  unfolding use_line data_text
  use_line-data_text r ws = refl

  read_line-data_text :
      (r : Reader) (ws : List (List ℕ))
      → use_line services r (data_text ws)
        ≡ read_data services r (data_text ws) (4 + (past (fields_text ws) - 1))
  unfolding read_line
  read_line-data_text r ws = use_line-data_text r ws ∙ rw (first_token ws) refl

  -- A line that consists of the word `data` and, for each field of the schema, a space and a text of at
  -- most 4096 bytes within quotes, with a backslash in front of each quote and each backslash. If
  -- the input functions make values of the texts, none of them NULL, and the record of these
  -- values can be written, then `next` consumes this line, counts it, and gives that record, and
  -- nothing else of the reader changes.
  pub next-data_text :
      (r : Reader) (s : Schema) (ws : List (List ℕ)) (vs : List Value) (more : List ℕ)
      (buf : List ℕ × ℕ)
      → is_final r.last_state ≡ false
      → r.input ≡ good_stream (data_text ws ++ (10 ∷ more))
      → has_newline (data_text ws) ≡ false
      → r.schema ≡ some s
      → Reads services s r.infuncs 0 ws vs
      → length ws ≡ num_fields s
      → write_payload s vs [] ≡ ok (some buf)
      → next services r
        ≡ ok (
          record r {
            input = good_stream more;
            lineno = (r.lineno + 1) % 2 ^ 64;
            last_state = data_line;
          },
          some (buf.0, int16 (length buf.0)),
        )
  unfolding next
  next-data_text r s ws vs more buf going input one_line known reads total written =
      rw (going, got)
        (read_line-data_text r' ws ∙ read_data-text r' s ws vs buf known reads total written)
    where
      r' : Reader
      r' = record r { input = good_stream more; lineno = (r.lineno + 1) % 2 ^ 64 }

      got : getline r.input ≡ (data_text ws, good_stream more)
      got = ap getline input ∙ getline-good_stream (data_text ws) more one_line
