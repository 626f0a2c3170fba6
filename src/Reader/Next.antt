-- ===== src/Reader/Next.antt =====
-- InitDataFileReader::next of src/catalog/InitDataFileReader.cpp, with assertions enabled.
use database_systems.Common.{
  same_bytes, ℕ, zero, suc, ◌+◌, ◌%◌, ◌^◌, false, not, List, [], ◌∷◌, ◌++◌, none, some, length,
  get_elem?, replicate, leb, ◌==◌, if◌then◌else◌, Result, ok, throws, undefined, fatal, ◌>>=◌, ◌>>◌,
  check, or_undefined,
}
use database_systems.Base.Align.{int16}
use database_systems.Schema.Defs.{Schema, create}
use database_systems.Schema.Compute.{compute_layout}
use database_systems.Payload.Write.{Value, is_null, write_payload}
use database_systems.Reader.Tokens.{find_next_token, on_token}
use database_systems.Reader.State.{
  eof, error, table, data_line, Services, find_type_in, Infuncs, find_infunc, Reader, Step, stop,
  is_final, getline,
}

-- How a loop over the tokens of a line ends: with its result, with the line refused, or, which
-- the fuel given below excludes, not at all.
pub data Loop (A : Type 0) : Type 0 where
  finished : A → Loop A
  rejected : Loop A
  out_of_fuel : Loop A

-- `(FieldId) m_field.size()`, as 16 bits.
abbrev pub num_fields : Schema → ℕ
num_fields s = length s.field % 65536

module _ (services : Services) where
  -- The value of field `i` that its type's input function makes of a token. A field of a
  -- negative number is out of range.
  unfoldable pub input_value : Schema → Infuncs → ℕ → List ℕ → Result Value
  unfolding find_infunc
  input_value s infuncs i text = do
    f ← or_undefined (if leb 32768 i then none else get_elem? s.field i)
    elim (find_infunc infuncs f.typid) [
      | some (some fn) ↦ services.call_infunc fn f.typparam text
      | some none ↦ throws fatal
      | none ↦ throws fatal
    ]

  -- The loop over a data line, from `start_pos` and field `i` on: the values and the last `i`.
  unfoldable pub read_values :
      Schema → Infuncs → ℕ → List ℕ → ℕ → ℕ → List Value → Result (Loop (List Value × ℕ))
  unfolding find_next_token input_value
  read_values s infuncs zero line pos i values =
      if pos == length line then ok (finished (values, i)) else ok out_of_fuel
  read_values s infuncs (suc n) line pos i values =
      if pos == length line
      then ok (finished (values, i))
      else if i == num_fields s
      then ok rejected
      else on_token (find_next_token line pos) (ok rejected) λ text pos'.
        input_value s infuncs i text >>= λ v.
        if is_null v
        then ok rejected
        else read_values s infuncs n line pos' ((i + 1) % 65536) (values ++ (v ∷ []))

  -- The loop over a table line: the types' Oids and their parameters.
  unfoldable pub read_columns : ℕ → List ℕ → ℕ → List ℕ → List ℕ → Result (Loop (List ℕ × List ℕ))
  unfolding find_next_token
  read_columns zero line pos typids typparams =
      if pos == length line then ok (finished (typids, typparams)) else ok out_of_fuel
  read_columns (suc n) line pos typids typparams =
      if pos == length line
      then ok (finished (typids, typparams))
      else on_token (find_next_token line pos) (ok rejected) λ text pos'.
        if not (services.atoi_oid text).0
        then ok rejected
        else on_token (find_next_token line pos') (ok rejected) λ text' pos''.
          if not (services.atoi_uint64 text').0
          then ok rejected
          else read_columns n line pos'' (typids ++ ((services.atoi_oid text).1 ∷ []))
              (typparams ++ ((services.atoi_uint64 text').1 ∷ []))

  -- The loop that finds the input functions of the types.
  unfoldable pub find_infuncs : List ℕ → Infuncs → Result Infuncs
  unfolding find_infunc
  find_infuncs [] infuncs = ok infuncs
  find_infuncs (t ∷ ts) infuncs = do
    row ← or_undefined (services.find_row t)
    find_infuncs ts (elim (find_infunc infuncs row.typid) [
      | some f ↦ infuncs
      | none ↦ (row.typid, services.find_builtin row.typinfunc) ∷ infuncs
    ])

  -- What follows the loop over a data line.
  unfoldable pub use_values : Reader → Schema → Loop (List Value × ℕ) → Result Step
  unfolding write_payload
  use_values r s out_of_fuel = undefined
  use_values r s rejected = stop r error
  use_values r s (finished found) =
      if not (found.1 == num_fields s)
      then stop r error
      else (write_payload s found.0 [] >>= λ written. elim written [
        | none ↦ stop r error
        | some buf ↦ ok (record r { last_state = data_line }, some (buf.0, int16 (length buf.0)))
      ])

  -- A data line behind its first token.
  unfoldable pub read_data : Reader → List ℕ → ℕ → Result Step
  unfolding read_values use_values
  read_data r line pos = do
    s ← or_undefined r.schema
    loop ← read_values s r.infuncs (length line) line pos 0 []
    use_values r s loop

  -- What follows the loop over a table line.
  unfoldable pub use_columns : Reader → Loop (List ℕ × List ℕ) → Result Step
  unfolding create compute_layout find_infuncs
  use_columns r out_of_fuel = undefined
  use_columns r rejected = stop r error
  use_columns r (finished found) = do
    fresh ← or_undefined (create found.0 found.1 (replicate (length found.0) false) [])
    elim (compute_layout (find_type_in services) services.call_length fresh) [
      | none ↦ throws fatal
      | some s ↦ do
        check s.layout_computed fatal
        infuncs ← find_infuncs found.0 r.infuncs
        ok (record r { schema = some s; infuncs = infuncs; last_state = table }, none)
    ]

  -- A table line behind its first token.
  unfoldable pub read_table : Reader → List ℕ → ℕ → Result Step
  unfolding read_columns use_columns find_next_token
  read_table r line pos = on_token (find_next_token line pos) (stop r error) λ text pos'.
      let r' : Reader = record r { tabid = (services.atoi_oid text).1 } in
      if not (services.atoi_oid text).0
      then stop r' error
      else (read_columns (length line) line pos' [] [] >>= use_columns r')

  -- A line that is not empty.
  unfoldable pub read_line : Reader → List ℕ → Result Step
  unfolding read_data read_table find_next_token
  read_line r line = on_token (find_next_token line 0) (stop r error) λ text pos.
      if same_bytes text (100 ∷ 97 ∷ 116 ∷ 97 ∷ [])
      then read_data r line pos
      else if same_bytes text (116 ∷ 97 ∷ 98 ∷ 108 ∷ 101 ∷ [])
      then read_table r line pos
      else stop r error

  -- What `next` does with the line that `getline` gives.
  unfoldable pub use_line : Reader → List ℕ → Result Step
  unfolding read_line
  use_line r [] = stop r (if r.input.eofbit then eof else error)
  use_line r (c ∷ cs) = read_line r (c ∷ cs)

  unfoldable pub next : Reader → Result Step
  unfolding use_line getline
  next r =
      if is_final r.last_state
      then ok (r, none)
      else use_line (record r { input = (getline r.input).1; lineno = (r.lineno + 1) % 2 ^ 64 })
          (getline r.input).0
