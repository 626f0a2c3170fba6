-- ===== src/Reader/Tests.antt =====
-- The theorems on the reader at a small catalog and short files.
use database_systems.Common.{
  fatal, throws, undefined, ℕ, ◌+◌, ◌*◌, ◌-◌, Bool, true, false, ◌&&◌, List, [], ◌∷◌, ◌++◌, Option,
  none, some, Result, ok, ◌==◌, leb, if◌then◌else◌, ◌≡◌, refl, arith, Ensures, store, load,
  to_bytes,
}
use database_systems.Schema.Defs.{create, Schema, construct}
use database_systems.Schema.Compute.{compute_layout}
use database_systems.Schema.Visit.{GivesAlignments}
use database_systems.Schema.Samples.{
  varchar_type, plain_type, call_length, call_length-GivesLengths, or_else,
}
use database_systems.Payload.Write.{rep, bytes, write_payload}
use database_systems.Reader.Tokens.{find_next_token}
use database_systems.Reader.Escapes.{quote, line_end}
use database_systems.Reader.Quotes.{find_next_token-quote}
use database_systems.Reader.State.{
  InitLineType, getline, Step, Services, TypeRow, Reader, table, data_line, find_type_in,
  construct_reader,
}
use database_systems.Reader.Next.{find_infuncs, next, input_value, read_values}
use database_systems.Reader.Fields.{field, none_left, Reads}
use database_systems.Reader.ReadBack.{next-data_text, data_text, good_stream}
use database_systems.Reader.Ends.{call_next, call_next-IsEnded, IsEnded}
use database_systems.Reader.Layouts.{next-IsSound, IsSound}
use database_systems.Reader.Termination.{read_values-Finishes, Finishes}

abbrev digits : ℕ → List ℕ → Bool × ℕ
digits n [] = (true, n)
digits n (c ∷ cs) = if leb 48 c && leb c 57 then digits (10 * n + (c - 48)) cs else (false, 0)

-- An INT4 (4) and a VARCHAR (9).
abbrev find_row : ℕ → Option TypeRow
find_row t =
    if t == 9
    then some (record { typid = 9; typinfunc = 19; layout = varchar_type })
    else if t == 4
    then some (record { typid = 4; typinfunc = 14; layout = plain_type 4 4 })
    else none

abbrev services : Services
services = record {
  atoi_oid = digits 0;
  atoi_uint64 = digits 0;
  find_row = find_row;
  call_length = call_length;
  find_builtin = λ f. some f;
  call_infunc = λ f p text. ok (if f == 19 then bytes text else rep (digits 0 text).1);
}

services-GivesAlignments : GivesAlignments (find_type_in services)
services-GivesAlignments id t e = ground arith

-- `12` and a text of a quote and a backslash.
abbrev texts : List (List ℕ)
texts = (49 ∷ 50 ∷ []) ∷ (34 ∷ 92 ∷ []) ∷ []

abbrev two_columns : Schema
two_columns = construct (4 ∷ 9 ∷ []) (0 ∷ 0 ∷ []) (false ∷ false ∷ []) []

abbrev two_laid : Schema
unfolding compute_layout construct
two_laid = or_else (compute_layout (find_type_in services) call_length two_columns) two_columns

abbrev reader : Reader
reader = record {
  input = good_stream (data_text texts ++ (10 ∷ []));
  lineno = 7;
  last_state = table;
  tabid = 3;
  schema = some two_laid;
  infuncs = (9, some 19) ∷ (4, some 14) ∷ [];
}

abbrev written : List ℕ
written = 12 ∷ 0 ∷ 0 ∷ 0 ∷ 8 ∷ 0 ∷ 34 ∷ 92 ∷ []

find_next_token-quote_example :
    find_next_token (32 ∷ (quote (97 ∷ 34 ∷ []) ++ [])) 1 ≡ ok (some (97 ∷ 34 ∷ []), 6)
unfolding quote
find_next_token-quote_example =
    find_next_token-quote (32 ∷ []) (97 ∷ 34 ∷ []) [] line_end (omega arith)

texts_read : Reads services two_laid reader.infuncs 0 texts (rep 12 ∷ bytes (34 ∷ 92 ∷ []) ∷ [])
unfolding compute_layout construct input_value
texts_read = field (omega arith) refl refl (field (omega arith) refl refl none_left)

next-data_text_example :
    next services reader
    ≡ ok (
      record reader { input = good_stream []; lineno = 8; last_state = data_line },
      some (written, 8),
    )
unfolding compute_layout construct write_payload store to_bytes data_text load
next-data_text_example =
    next-data_text services reader two_laid texts (rep 12 ∷ bytes (34 ∷ 92 ∷ []) ∷ []) []
      (written, 8) refl refl refl refl texts_read refl refl

-- A file of one table line, from the start.
abbrev table_file : List ℕ
table_file = 116 ∷ 97 ∷ 98 ∷ 108 ∷ 101 ∷ 32 ∷ 51 ∷ 32 ∷ 52 ∷ 32 ∷ 48 ∷ 10 ∷ []

abbrev new_reader : Reader
unfolding construct_reader
new_reader = construct_reader (good_stream table_file) 0 0

read_values-Finishes_example :
    Ensures Finishes (read_values services two_laid reader.infuncs 20 (data_text texts) 5 0 [])
unfolding data_text
read_values-Finishes_example =
    read_values-Finishes services two_laid reader.infuncs 20 (data_text texts) 5 0 [] (omega arith)
      (omega arith)

call_next-IsEnded_example :
    Ensures
      (λ r. IsEnded services r × (call_next services 3 r ≡ ok r))
      (call_next services 13 new_reader)
unfolding construct_reader
call_next-IsEnded_example = call_next-IsEnded services new_reader 3

next-IsSound_example :
    Ensures
      (λ st. IsSound services services-GivesAlignments call_length-GivesLengths st.0)
      (next services new_reader)
unfolding construct_reader getline
next-IsSound_example =
    next-IsSound services services-GivesAlignments call_length-GivesLengths new_reader (λ s e. cc e)
      (omega arith)

-- A reader at the start of a file.
abbrev at_start : List ℕ → Reader
unfolding construct_reader
at_start file = construct_reader (good_stream file) 0 0

abbrev state_of : Result Step → Option InitLineType
state_of (ok st) = some st.0.last_state
state_of _ = none

table_file_read : state_of (next services new_reader) ≡ some table
unfolding construct_reader next find_next_token getline compute_layout create find_infuncs
table_file_read = refl

-- A table line without columns: the null pointer of `Schema::Create` is used.
no_columns : next services (at_start (116 ∷ 97 ∷ 98 ∷ 108 ∷ 101 ∷ 32 ∷ 51 ∷ 10 ∷ [])) ≡ undefined
unfolding construct_reader next find_next_token getline create
no_columns = refl

-- A data line before any table line: there is no schema to ask.
no_table : next services (at_start (data_text texts)) ≡ undefined
unfolding construct_reader next find_next_token getline data_text
no_table = refl

-- A line that ends within a quoted token comes to the assertion behind the loop.
open_quote : next services (at_start (34 ∷ 97 ∷ 10 ∷ [])) ≡ throws fatal
unfolding construct_reader next find_next_token getline
open_quote = refl
