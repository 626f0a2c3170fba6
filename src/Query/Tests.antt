-- ===== src/Query/Tests.antt =====
-- The theorems on operators at single numbers.
use database_systems.Common.{◌≡◌, refl, [], ◌∷◌}
use database_systems.Query.OpTypes.{
  parse_op_types_symbol, init_op_types, get_op_type_symbol,
  parse_op_types_symbol-get_op_type_symbol,
}

-- NEG is read back as SUB.
parse_op_types_symbol-get_op_type_symbol_example :
    parse_op_types_symbol init_op_types (get_op_type_symbol 23) ≡ 4
parse_op_types_symbol-get_op_type_symbol_example = parse_op_types_symbol-get_op_type_symbol 23

-- `#cast` is found.
cast_read : parse_op_types_symbol init_op_types (35 ∷ 99 ∷ 97 ∷ 115 ∷ 116 ∷ []) ≡ 2
unfolding parse_op_types_symbol init_op_types
cast_read = refl
