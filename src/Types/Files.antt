-- ===== src/Types/Files.antt =====
-- The functions of each integer type: src/utils/typsupp/int1.cpp to uint8.cpp, and the comparisons
-- of oid.cpp.
use database_systems.Common.{true, false, List, Result}
use database_systems.Payload.Write.{Value}
use database_systems.Types.Signed.{IntType}
use database_systems.Types.Integer.{
  Arithmetic, Comparison, Bitwise, Shift, arithmetic, negate, comparison, bitwise, complement,
  shift,
}

-- `int8_t`.
abbrev pub int1 : IntType
int1 = record { width = 8; signed = true }

-- INT1_add, INT1_sub, INT1_mul, INT1_div and INT1_mod.
unfoldable pub int1_arithmetic : Arithmetic → List Value → Result Value
int1_arithmetic op args = arithmetic int1 op args

unfoldable pub int1_neg : List Value → Result Value
int1_neg args = negate int1 args

-- INT1_eq, INT1_ne, INT1_lt, INT1_le, INT1_gt and INT1_ge.
unfoldable pub int1_comparison : Comparison → List Value → Result Value
int1_comparison op args = comparison int1 op args

unfoldable pub int1_not : List Value → Result Value
int1_not args = complement int1 args

-- INT1_and, INT1_or and INT1_xor.
unfoldable pub int1_bitwise : Bitwise → List Value → Result Value
int1_bitwise op args = bitwise int1 op args

-- INT1_lsh and INT1_rsh.
unfoldable pub int1_shift : Shift → List Value → Result Value
int1_shift op args = shift int1 op args

-- `int16_t`.
abbrev pub int2 : IntType
int2 = record { width = 16; signed = true }

-- INT2_add, INT2_sub, INT2_mul, INT2_div and INT2_mod.
unfoldable pub int2_arithmetic : Arithmetic → List Value → Result Value
int2_arithmetic op args = arithmetic int2 op args

unfoldable pub int2_neg : List Value → Result Value
int2_neg args = negate int2 args

-- INT2_eq, INT2_ne, INT2_lt, INT2_le, INT2_gt and INT2_ge.
unfoldable pub int2_comparison : Comparison → List Value → Result Value
int2_comparison op args = comparison int2 op args

unfoldable pub int2_not : List Value → Result Value
int2_not args = complement int2 args

-- INT2_and, INT2_or and INT2_xor.
unfoldable pub int2_bitwise : Bitwise → List Value → Result Value
int2_bitwise op args = bitwise int2 op args

-- INT2_lsh and INT2_rsh.
unfoldable pub int2_shift : Shift → List Value → Result Value
int2_shift op args = shift int2 op args

-- `int32_t`.
abbrev pub int4 : IntType
int4 = record { width = 32; signed = true }

-- INT4_add, INT4_sub, INT4_mul, INT4_div and INT4_mod.
unfoldable pub int4_arithmetic : Arithmetic → List Value → Result Value
int4_arithmetic op args = arithmetic int4 op args

unfoldable pub int4_neg : List Value → Result Value
int4_neg args = negate int4 args

-- INT4_eq, INT4_ne, INT4_lt, INT4_le, INT4_gt and INT4_ge.
unfoldable pub int4_comparison : Comparison → List Value → Result Value
int4_comparison op args = comparison int4 op args

unfoldable pub int4_not : List Value → Result Value
int4_not args = complement int4 args

-- INT4_and, INT4_or and INT4_xor.
unfoldable pub int4_bitwise : Bitwise → List Value → Result Value
int4_bitwise op args = bitwise int4 op args

-- INT4_lsh and INT4_rsh.
unfoldable pub int4_shift : Shift → List Value → Result Value
int4_shift op args = shift int4 op args

-- `int64_t`.
abbrev pub int8 : IntType
int8 = record { width = 64; signed = true }

-- INT8_add, INT8_sub, INT8_mul, INT8_div and INT8_mod.
unfoldable pub int8_arithmetic : Arithmetic → List Value → Result Value
int8_arithmetic op args = arithmetic int8 op args

unfoldable pub int8_neg : List Value → Result Value
int8_neg args = negate int8 args

-- INT8_eq, INT8_ne, INT8_lt, INT8_le, INT8_gt and INT8_ge.
unfoldable pub int8_comparison : Comparison → List Value → Result Value
int8_comparison op args = comparison int8 op args

unfoldable pub int8_not : List Value → Result Value
int8_not args = complement int8 args

-- INT8_and, INT8_or and INT8_xor.
unfoldable pub int8_bitwise : Bitwise → List Value → Result Value
int8_bitwise op args = bitwise int8 op args

-- INT8_lsh and INT8_rsh.
unfoldable pub int8_shift : Shift → List Value → Result Value
int8_shift op args = shift int8 op args

-- `uint8_t`.
abbrev pub uint1 : IntType
uint1 = record { width = 8; signed = false }

-- UINT1_add, UINT1_sub, UINT1_mul, UINT1_div and UINT1_mod.
unfoldable pub uint1_arithmetic : Arithmetic → List Value → Result Value
uint1_arithmetic op args = arithmetic uint1 op args

unfoldable pub uint1_neg : List Value → Result Value
uint1_neg args = negate uint1 args

-- UINT1_eq, UINT1_ne, UINT1_lt, UINT1_le, UINT1_gt and UINT1_ge.
unfoldable pub uint1_comparison : Comparison → List Value → Result Value
uint1_comparison op args = comparison uint1 op args

unfoldable pub uint1_not : List Value → Result Value
uint1_not args = complement uint1 args

-- UINT1_and, UINT1_or and UINT1_xor.
unfoldable pub uint1_bitwise : Bitwise → List Value → Result Value
uint1_bitwise op args = bitwise uint1 op args

-- UINT1_lsh and UINT1_rsh.
unfoldable pub uint1_shift : Shift → List Value → Result Value
uint1_shift op args = shift uint1 op args

-- `uint16_t`.
abbrev pub uint2 : IntType
uint2 = record { width = 16; signed = false }

-- UINT2_add, UINT2_sub, UINT2_mul, UINT2_div and UINT2_mod.
unfoldable pub uint2_arithmetic : Arithmetic → List Value → Result Value
uint2_arithmetic op args = arithmetic uint2 op args

unfoldable pub uint2_neg : List Value → Result Value
uint2_neg args = negate uint2 args

-- UINT2_eq, UINT2_ne, UINT2_lt, UINT2_le, UINT2_gt and UINT2_ge.
unfoldable pub uint2_comparison : Comparison → List Value → Result Value
uint2_comparison op args = comparison uint2 op args

unfoldable pub uint2_not : List Value → Result Value
uint2_not args = complement uint2 args

-- UINT2_and, UINT2_or and UINT2_xor.
unfoldable pub uint2_bitwise : Bitwise → List Value → Result Value
uint2_bitwise op args = bitwise uint2 op args

-- UINT2_lsh and UINT2_rsh.
unfoldable pub uint2_shift : Shift → List Value → Result Value
uint2_shift op args = shift uint2 op args

-- `uint32_t`.
abbrev pub uint4 : IntType
uint4 = record { width = 32; signed = false }

-- UINT4_add, UINT4_sub, UINT4_mul, UINT4_div and UINT4_mod.
unfoldable pub uint4_arithmetic : Arithmetic → List Value → Result Value
uint4_arithmetic op args = arithmetic uint4 op args

unfoldable pub uint4_neg : List Value → Result Value
uint4_neg args = negate uint4 args

-- UINT4_eq, UINT4_ne, UINT4_lt, UINT4_le, UINT4_gt and UINT4_ge.
unfoldable pub uint4_comparison : Comparison → List Value → Result Value
uint4_comparison op args = comparison uint4 op args

unfoldable pub uint4_not : List Value → Result Value
uint4_not args = complement uint4 args

-- UINT4_and, UINT4_or and UINT4_xor.
unfoldable pub uint4_bitwise : Bitwise → List Value → Result Value
uint4_bitwise op args = bitwise uint4 op args

-- UINT4_lsh and UINT4_rsh.
unfoldable pub uint4_shift : Shift → List Value → Result Value
uint4_shift op args = shift uint4 op args

-- `uint64_t`.
abbrev pub uint8 : IntType
uint8 = record { width = 64; signed = false }

-- UINT8_add, UINT8_sub, UINT8_mul, UINT8_div and UINT8_mod.
unfoldable pub uint8_arithmetic : Arithmetic → List Value → Result Value
uint8_arithmetic op args = arithmetic uint8 op args

unfoldable pub uint8_neg : List Value → Result Value
uint8_neg args = negate uint8 args

-- UINT8_eq, UINT8_ne, UINT8_lt, UINT8_le, UINT8_gt and UINT8_ge.
unfoldable pub uint8_comparison : Comparison → List Value → Result Value
uint8_comparison op args = comparison uint8 op args

unfoldable pub uint8_not : List Value → Result Value
uint8_not args = complement uint8 args

-- UINT8_and, UINT8_or and UINT8_xor.
unfoldable pub uint8_bitwise : Bitwise → List Value → Result Value
uint8_bitwise op args = bitwise uint8 op args

-- UINT8_lsh and UINT8_rsh.
unfoldable pub uint8_shift : Shift → List Value → Result Value
uint8_shift op args = shift uint8 op args

-- OID_eq, OID_ne, OID_lt, OID_le, OID_gt and OID_ge, which read an Oid by `GetUInt32`.
unfoldable pub oid_comparison : Comparison → List Value → Result Value
oid_comparison op args = comparison uint4 op args

-- The eight types.
pub data IntName : Type 0 where
  name_int1 name_int2 name_int4 name_int8 name_uint1 name_uint2 name_uint4 name_uint8 : IntName

abbrev pub int_type : IntName → IntType
int_type name_int1 = int1
int_type name_int2 = int2
int_type name_int4 = int4
int_type name_int8 = int8
int_type name_uint1 = uint1
int_type name_uint2 = uint2
int_type name_uint4 = uint4
int_type name_uint8 = uint8
