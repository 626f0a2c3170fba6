-- ===== src/Schema/Defs.antt =====
-- The data of include/catalog/Schema.h and Schema::Create of src/catalog/Schema.cpp.
-- An int16_t is kept as its 16-bit pattern (see Base.Align).
use database_systems.Common.{
  ℕ, Bool, false, not, ◌||◌, ◌&&◌, List, [], ◌∷◌, Option, none, some, length, ◌==◌, if◌then◌else◌,
}
use database_systems.Base.Align.{is_negative}
use Prim.Native.String.{String}

-- -1 as an `int16_t`.
abbrev pub minus_one : ℕ
minus_one = 65535

-- `Schema::FieldInfo`.
pub record FieldInfo : Type 0 where
  pub typid : ℕ
  pub typlen : ℕ
  pub typalign : ℕ
  pub typbyref : Bool
  pub typparam : ℕ
  pub nullbit_id : ℕ
  pub offset : ℕ

-- The row of the type catalog that the layout reads.
pub record CatType : Type 0 where
  pub typlen : ℕ
  pub typalign : ℕ
  pub typisvarlen : Bool
  pub typbyref : Bool
  pub typlenfunc : ℕ

pub record Schema : Type 0 where
  pub layout_computed : Bool
  pub has_only_nonnullable_fixedlen_fields : Bool
  pub num_nonnullable_fixedlen_fields : ℕ
  pub num_nullable_fixedlen_fields : ℕ
  pub num_varlen_fields : ℕ
  pub null_bitmap_begin : ℕ
  pub varlen_end_array_begin : ℕ
  pub varlen_payload_begin : ℕ
  pub field_reorder_idx : List ℕ
  pub field : List FieldInfo
  pub field_names : List String

-- `FieldIsNullable`.
abbrev pub is_nullable : FieldInfo → Bool
is_nullable f = not (is_negative f.nullbit_id)

-- The constructor's loop over the three vectors.
unfoldable pub make_fields : List ℕ → List ℕ → List Bool → List FieldInfo
make_fields (t ∷ ts) (p ∷ ps) (n ∷ ns) =
    record {
      typid = t;
      typlen = 0;
      typalign = 0;
      typbyref = false;
      typparam = p;
      nullbit_id = if n then 0 else minus_one;
      offset = 0;
    }
    ∷ make_fields ts ps ns
make_fields _ _ _ = []

-- `Schema::Schema`. The members that it leaves unset are 0 here.
unfoldable pub construct : List ℕ → List ℕ → List Bool → List String → Schema
unfolding make_fields
construct typid typparam nullable field_names = record {
  layout_computed = false;
  has_only_nonnullable_fixedlen_fields = false;
  num_nonnullable_fixedlen_fields = 0;
  num_nullable_fixedlen_fields = 0;
  num_varlen_fields = 0;
  null_bitmap_begin = 0;
  varlen_end_array_begin = 0;
  varlen_payload_begin = 0;
  field_reorder_idx = [];
  field = make_fields typid typparam nullable;
  field_names = field_names;
}

-- `Schema::Create` with field names; `none` is the null pointer.
unfoldable pub create : List ℕ → List ℕ → List Bool → List String → Option Schema
unfolding construct
create typid typparam nullable field_names =
    if (length typid == 0)
      || (not (length typid == length typparam)
          || (not (length typid == length nullable)
              || (not (length field_names == 0) && not (length typid == length field_names))))
    then none
    else some (construct typid typparam nullable field_names)
