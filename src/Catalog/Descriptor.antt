-- ===== src/Catalog/Descriptor.antt =====
-- TableDesc::Create of src/catalog/TableDesc.cpp: the schema of a table from the rows of its
-- columns, in any order.
pub mod Fill
use Prim.Native.String.{String}
use database_systems.Common.{
  ℕ, ◌+◌, Bool, false, not, ◌&&◌, ◌||◌, List, [], ◌∷◌, Option, none, some, length, set, replicate,
  ltb, ◌==◌, if◌then◌else◌, Result, ok, undefined, throws, fatal, ◌>>=◌, or_undefined,
}
use database_systems.Base.Align.{is_negative}
use database_systems.Schema.Defs.{Schema, CatType, create}
use database_systems.Schema.Compute.{compute_layout}
use database_systems.Catalog.Interface.{SysTables}
use database_systems.Catalog.State.{TableDesc}

-- The four vectors.
pub record Columns : Type 0 where
  pub typid : List ℕ
  pub typparam : List ℕ
  pub isnullable : List Bool
  pub field_names : List String

abbrev pub resized : ℕ → Columns
resized n = record {
  typid = replicate n 0;
  typparam = replicate n 0;
  isnullable = replicate n false;
  field_names = replicate n "";
}

module _ (gen : SysTables) where
  -- The stores of one round, at the column's ID.
  abbrev pub place_column : gen.Row → Columns → Columns
  place_column col v = record {
    typid = set v.typid (gen.colid col) (gen.coltypid col);
    typparam = set v.typparam (gen.colid col) (gen.coltypparam col);
    isnullable = set v.isnullable (gen.colid col) (gen.colisnullable col);
    field_names = set v.field_names (gen.colid col) (gen.colname col);
  }

  -- The loop. `none` is the early return of a null pointer. A column ID out of range makes the
  -- stores undefined.
  unfoldable pub fill_columns : gen.Row → List gen.Row → Columns → Result (Option Columns)
  fill_columns table [] v = ok (some v)
  fill_columns table (col ∷ cols) v =
      let rest = fill_columns table cols (place_column col v) in
      if not (gen.coltabid col == gen.tabid table)
      then ok none
      else if not (is_negative (gen.colid col)) && ltb (gen.colid col) (length v.typid)
      then rest
      else undefined

  module _ (find_type : ℕ → Option CatType) (call_length : ℕ → ℕ → Option ℕ) where
    -- ComputeLayout, and the descriptor.
    unfoldable pub laid_out : gen.Row → Option Schema → Result (Option (TableDesc gen))
    laid_out table none = throws fatal
    laid_out table (some s) = ok (some (record { table_entry = table; schema = s }))

    -- `Schema::Create` with the vectors and `ComputeLayout`.
    unfoldable pub described : gen.Row → Option Columns → Result (Option (TableDesc gen))
    unfolding laid_out
    described table none = ok none
    described table (some v) = do
      schema ← or_undefined (create v.typid v.typparam v.isnullable v.field_names)
      laid_out table (compute_layout find_type call_length schema)

    unfoldable pub create_table_desc : gen.Row → List gen.Row → Result (Option (TableDesc gen))
    unfolding fill_columns described
    create_table_desc table columns =
        if length columns == 0
        then ok none
        else fill_columns table columns (resized (length columns)) >>= described table
