-- ===== src/Reader/State.antt =====
-- The state of an InitDataFileReader (include/catalog/InitDataFileReader.h), what it uses of its
-- input stream, and the services of the other parts that it calls.
use database_systems.Common.{
  ok, ℕ, Bool, true, false, ◌||◌, List, [], ◌∷◌, Option, none, some, ◌==◌, if◌then◌else◌, Result,
}
use database_systems.Schema.Defs.{Schema, CatType}
use database_systems.Payload.Write.{Value}

-- `InitLineType`.
pub data InitLineType : Type 0 where
  eof error table data_line : InitLineType

-- A `std::ifstream`: the bytes left and its flags eofbit and failbit. One that could not be opened
-- starts with failbit.
pub record Stream : Type 0 where
  pub left : List ℕ
  pub eofbit : Bool
  pub failbit : Bool

-- The bytes in front of the first newline and those behind it, if there is one.
unfoldable pub split_line : List ℕ → List ℕ × Option (List ℕ)
split_line [] = ([], none)
split_line (c ∷ cs) = if c == 10 then ([], some cs) else (c ∷ (split_line cs).0, (split_line cs).1)

abbrev is_empty : List ℕ → Bool
is_empty [] = true
is_empty (c ∷ cs) = false

-- `std::getline(m_input, line)` with an empty `line`: the line and the stream behind it.
unfoldable pub getline : Stream → List ℕ × Stream
unfolding split_line
getline s =
    if s.eofbit || s.failbit
    then ([], record s { failbit = true })
    else elim (split_line s.left).1 [
      | some rest ↦ ((split_line s.left).0, record s { left = rest })
      | none ↦ (s.left, record { left = []; eofbit = true; failbit = is_empty s.left })
    ]

-- What the reader looks at in a row of the system table of types.
pub record TypeRow : Type 0 where
  pub typid : ℕ
  pub typinfunc : ℕ
  pub layout : CatType

-- The code that the reader calls: `absl::SimpleAtoi` into an `Oid` and into a `uint64_t`, with
-- what it leaves in its out parameter; `FindType` of the catalog cache; the length functions;
-- `FindBuiltinFunction`; and the call of an input function with a type parameter.
pub record Services : Type 0 where
  pub atoi_oid : List ℕ → Bool × ℕ
  pub atoi_uint64 : List ℕ → Bool × ℕ
  pub find_row : ℕ → Option TypeRow
  pub call_length : ℕ → ℕ → Option ℕ
  pub find_builtin : ℕ → Option ℕ
  pub call_infunc : ℕ → ℕ → List ℕ → Result Value

abbrev layout_of : Option TypeRow → Option CatType
layout_of none = none
layout_of (some row) = some row.layout

abbrev pub find_type_in : Services → ℕ → Option CatType
find_type_in services t = layout_of (services.find_row t)

-- `m_typ_infuncs`: a type's Oid with its input function, which may be missing.
abbrev pub Infuncs : Type 0
Infuncs = List (ℕ × Option ℕ)

unfoldable pub find_infunc : Infuncs → ℕ → Option (Option ℕ)
find_infunc [] t = none
find_infunc ((k, f) ∷ m) t = if k == t then some f else find_infunc m t

-- The reader. `m_buf` is part of the result of a call.
pub record Reader : Type 0 where
  pub input : Stream
  pub lineno : ℕ
  pub last_state : InitLineType
  pub tabid : ℕ
  pub schema : Option Schema
  pub infuncs : Infuncs

-- The constructor: it leaves `m_lineno` and `m_tabid` as they are in memory.
unfoldable pub construct_reader : Stream → ℕ → ℕ → Reader
construct_reader file lineno tabid = record {
  input = file;
  lineno = lineno;
  last_state = table;
  tabid = tabid;
  schema = none;
  infuncs = [];
}

-- A call's result: the reader, and `*rec` and `*rec_size` where they are set.
abbrev pub Step : Type 0
Step = Reader × Option (List ℕ × ℕ)

abbrev pub stop : Reader → InitLineType → Result Step
stop r t = ok (record r { last_state = t }, none)

abbrev pub is_final : InitLineType → Bool
is_final eof = true
is_final error = true
is_final table = false
is_final data_line = false
