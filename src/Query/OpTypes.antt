-- ===== src/Query/OpTypes.antt =====
-- The operators of src/query/expr/optypes.cpp and include/query/expr/optypes.h. A symbol is its bytes.
use database_systems.Common.{
  ℕ, zero, suc, ◌+◌, ◌-◌, ◌≤◌, ◌<◌, Bool, true, false, not, ◌&&◌, List, [], ◌∷◌, ◌++◌, Option, none,
  some, get_or, ltb, ◌==◌, if◌then◌else◌, same_bytes, ◌≡◌, refl, arith, Bool-cases, inl, inr, ◌∙◌,
  ap, subst, sym, ==_iff,
}

abbrev num_op_types : ℕ
num_op_types = 23

-- `s_optype_symbols`.
abbrev symbols : List (List ℕ)
symbols =
    (35 ∷ 105 ∷ 110 ∷ 118 ∷ 97 ∷ 108 ∷ 105 ∷ 100 ∷ [])
    ∷ (35 ∷ 105 ∷ 109 ∷ 112 ∷ 108 ∷ 105 ∷ 99 ∷ 105 ∷ 116 ∷ 32 ∷ 99 ∷ 97 ∷ 115 ∷ 116 ∷ [])
    ∷ (35 ∷ 99 ∷ 97 ∷ 115 ∷ 116 ∷ [])
    ∷ (43 ∷ [])
    ∷ (45 ∷ [])
    ∷ (42 ∷ [])
    ∷ (47 ∷ [])
    ∷ (37 ∷ [])
    ∷ (60 ∷ 60 ∷ [])
    ∷ (62 ∷ 62 ∷ [])
    ∷ (61 ∷ [])
    ∷ (60 ∷ 62 ∷ [])
    ∷ (60 ∷ [])
    ∷ (60 ∷ 61 ∷ [])
    ∷ (62 ∷ [])
    ∷ (62 ∷ 61 ∷ [])
    ∷ (78 ∷ 79 ∷ 84 ∷ [])
    ∷ (65 ∷ 78 ∷ 68 ∷ [])
    ∷ (79 ∷ 82 ∷ [])
    ∷ (126 ∷ [])
    ∷ (124 ∷ [])
    ∷ (38 ∷ [])
    ∷ (94 ∷ [])
    ∷ (45 ∷ [])
    ∷ []

-- `s_num_operands`.
abbrev num_operands : List ℕ
num_operands =
    0 ∷ 1 ∷ 1 ∷ 2 ∷ 2 ∷ 2 ∷ 2 ∷ 2 ∷ 2 ∷ 2 ∷ 2 ∷ 2 ∷ 2 ∷ 2 ∷ 2 ∷ 2 ∷ 1 ∷ 2 ∷ 2 ∷ 1 ∷ 2 ∷ 2 ∷ 2 ∷ 1
    ∷ []

-- `s_optype_lookup_table`.
abbrev SymbolTable : Type 0
SymbolTable = List (List ℕ × ℕ)

unfoldable pub find_symbol : SymbolTable → List ℕ → Option ℕ
find_symbol [] str = none
find_symbol ((k, v) ∷ table) str = if same_bytes k str then some v else find_symbol table str

-- `emplace` keeps the entry that a symbol has.
unfoldable pub emplace : SymbolTable → List ℕ → ℕ → SymbolTable
unfolding find_symbol
emplace table str v = elim (find_symbol table str) [
  | none ↦ table ++ ((str, v) ∷ [])
  | some w ↦ table
]

-- The loop of `InitOpTypes`, with so many operators left.
unfoldable pub enter_symbols : ℕ → ℕ → SymbolTable → SymbolTable
unfolding emplace
enter_symbols zero op table = table
enter_symbols (suc left) op table =
    enter_symbols left (op + 1) (emplace table (get_or symbols op []) op)

unfoldable pub init_op_types : SymbolTable
unfolding enter_symbols
init_op_types = enter_symbols num_op_types 1 []

unfoldable pub get_op_type_symbol : ℕ → List ℕ
get_op_type_symbol op = get_or symbols (if ltb num_op_types op then 0 else op) []

unfoldable pub parse_op_types_symbol : SymbolTable → List ℕ → ℕ
unfolding find_symbol
parse_op_types_symbol table str = elim (find_symbol table str) [ none ↦ 0 | some op ↦ op ]

unfoldable pub op_type_is_unary : ℕ → Bool
op_type_is_unary op = if ltb num_op_types op then false else (get_or num_operands op 0 == 1)

unfoldable pub op_type_is_binary : ℕ → Bool
op_type_is_binary op = if ltb num_op_types op then false else (get_or num_operands op 0 == 2)

-- A test that holds of all numbers below a bound.
abbrev all_below : ℕ → (ℕ → Bool) → Bool
all_below zero p = true
all_below (suc n) p = p n && all_below n p

all_below_lem : (n : ℕ) (p : ℕ → Bool) (i : ℕ) → all_below n p ≡ true → i < n → p i ≡ true
all_below_lem zero p i e h = elim h [ ]
all_below_lem (suc n) p i e h = elim (Bool-cases (i == n)) [
  | inl last ↦
      subst (λ j. p j ≡ true) (omega (arith, (==_iff i n).0 last))
        (and_left (p n) (all_below n p) e)
  | inr other ↦ all_below_lem n p i (and_right (p n) (all_below n p) e) (ground arith)
]
  where
    and_left : (a b : Bool) → (a && b) ≡ true → a ≡ true
    and_left true b k = refl
    and_left false b k = k

    and_right : (a b : Bool) → (a && b) ≡ true → b ≡ true
    and_right true b k = k
    and_right false b k = cc k

-- The operator that the symbol of an operator is read back as: `-` is that of SUB and of NEG.
abbrev pub read_as : ℕ → ℕ
read_as op = if ltb num_op_types op then 0 else if op == 23 then 4 else op

-- `op` is read back as it should be.
abbrev reads_back : ℕ → Bool
reads_back op = parse_op_types_symbol init_op_types (get_op_type_symbol op) == read_as op

all_read_back : all_below 24 reads_back ≡ true
unfolding parse_op_types_symbol init_op_types get_op_type_symbol
all_read_back = refl

symbol_beyond : (op : ℕ) → ltb num_op_types op ≡ true → get_op_type_symbol op ≡ get_op_type_symbol 0
unfolding get_op_type_symbol
symbol_beyond op e = ap (λ (b : Bool). get_or symbols (if b then 0 else op) []) e

read_as_beyond : (op : ℕ) → ltb num_op_types op ≡ true → read_as op ≡ 0
read_as_beyond op e = ap (λ (b : Bool). if b then 0 else if op == 23 then 4 else op) e

-- With the table that InitOpTypes makes, the symbol of each operator is read back as that
-- operator, but for NEG, whose symbol is read as SUB; and a number that is no operator is
-- read back as invalid.
pub parse_op_types_symbol-get_op_type_symbol :
    (op : ℕ) → parse_op_types_symbol init_op_types (get_op_type_symbol op) ≡ read_as op
parse_op_types_symbol-get_op_type_symbol op = elim (Bool-cases (ltb num_op_types op)) [
  | inl beyond ↦
      ap (parse_op_types_symbol init_op_types) (symbol_beyond op beyond)
      ∙ (==_iff (parse_op_types_symbol init_op_types (get_op_type_symbol 0)) 0).0
          (all_below_lem 24 reads_back 0 all_read_back (omega arith))
      ∙ sym (read_as_beyond op beyond)
  | inr within ↦
      (==_iff (parse_op_types_symbol init_op_types (get_op_type_symbol op)) (read_as op)).0
        (all_below_lem 24 reads_back op all_read_back (ground arith))
]

abbrev pub exactly_one : Bool → Bool → Bool
exactly_one a b = if a then not b else b

all_one_arity :
    all_below 23 (λ k. exactly_one (op_type_is_unary (k + 1)) (op_type_is_binary (k + 1))) ≡ true
unfolding op_type_is_unary op_type_is_binary
all_one_arity = refl

-- Each of the operators 1 to 23 is either unary or binary, and not both.
pub op_type_arity :
    (op : ℕ) → 1 ≤ op → op ≤ 23 → exactly_one (op_type_is_unary op) (op_type_is_binary op) ≡ true
op_type_arity op h k =
    subst (λ j. exactly_one (op_type_is_unary j) (op_type_is_binary j) ≡ true) whole
      (all_below_lem 23 (λ j. exactly_one (op_type_is_unary (j + 1)) (op_type_is_binary (j + 1)))
        (op - 1) all_one_arity (omega arith))
  where
    whole : op - 1 + 1 ≡ op
    whole = omega arith
