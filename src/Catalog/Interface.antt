-- ===== src/Catalog/Interface.antt =====
-- What CatCacheBase of include/catalog/CatCacheBase.h takes from the class that derives from it,
-- the access to catalog files, and from the code that the build generates for the system tables.
use Prim.Native.String.{String}
use database_systems.Common.{ℕ, Bool, true, false, List, [], ◌∷◌, Option, Result, ok, ◌≡◌}
use database_systems.Storage.RecordId.{RecordId}
use database_systems.Schema.Defs.{CatType}
use database_systems.Payload.Write.{Value}

-- The functions of CatCacheCls. A file handle is the file's ID.
pub record CatalogFiles : Type 1 where
  pub Files : Type 0
  pub Iterator : Type 0
  pub create_file : Bool → Files → Result (ℕ × Files)
  pub open_catalog : ℕ → Files → Result ℕ
  pub append : ℕ → List ℕ → Files → Result (RecordId × Files)
  pub iterate : ℕ → Files → Result Iterator
  pub iterate_from : ℕ → RecordId → Files → Result Iterator
  pub next_entry : Iterator → Files → Result (Bool × Iterator)
  pub current : Iterator → Files → Result (List ℕ)
  pub current_id : Iterator → RecordId
  pub update_current : Iterator → List ℕ → Files → Result (RecordId × Files)

-- The SysTable_xxx structs and their object IDs, which the build generates, and the built-in
-- functions. `create_row` is CreateSysTableStruct, `call_function` is FunctionCall with two
-- arguments, and has no value where the result is NULL. The getters have the columns' names;
-- `cat_type` is what the layout reads of a row of Type. `table_values` and `column_values` are
-- GetDatumVector of a struct constructed from the arguments, and `default_name` is
-- `StrCat("col_", i)`.
pub record SysTables : Type 1 where
  pub Row : Type 0
  pub create_row : ℕ → List Value → Result Row
  pub call_function : ℕ → Value → Value → Result (Option Bool)
  pub cat_type : Row → CatType
  pub tabid : Row → ℕ
  pub tabncols : Row → ℕ
  pub tabfid : Row → ℕ
  pub funcid : Row → ℕ
  pub idxid : Row → ℕ
  pub opfuncid : Row → ℕ
  pub coltabid : Row → ℕ
  pub colid : Row → ℕ
  pub coltypid : Row → ℕ
  pub coltypparam : Row → ℕ
  pub colisnullable : Row → Bool
  pub colname : Row → String
  pub tab_table : ℕ
  pub tab_type : ℕ
  pub tab_function : ℕ
  pub tab_function_args : ℕ
  pub tab_index : ℕ
  pub tab_operator : ℕ
  pub tab_column : ℕ
  pub tabid_colid : ℕ
  pub tabname_colid : ℕ
  pub typid_colid : ℕ
  pub funcid_colid : ℕ
  pub funcname_colid : ℕ
  pub args_funcid_colid : ℕ
  pub args_funcargid_colid : ℕ
  pub idxid_colid : ℕ
  pub idxname_colid : ℕ
  pub table_values : ℕ → Bool → Bool → ℕ → ℕ → List ℕ → List Value
  pub column_values : ℕ → ℕ → Bool → Bool → ℕ → ℕ → List ℕ → List Value
  pub default_name : ℕ → List ℕ
  pub coltabid_colid : ℕ
  pub optype_colid : ℕ
  pub oparg0typid_colid : ℕ
  pub oparg1typid_colid : ℕ
  pub oid_eq : ℕ
  pub int2_eq : ℕ
  pub uint1_eq : ℕ
  pub string_eq_ci : ℕ

-- What the iteration from an iterator on visits: the entries' record IDs and bytes, in order.
pub data Scans (io : CatalogFiles) (s : io.Files)
    : io.Iterator → List (RecordId × List ℕ) → Type 0 where
  ended : {it it' : io.Iterator} → io.next_entry it s ≡ ok (false, it') → Scans io s it []
  entry :
      {it it' : io.Iterator} {r : RecordId} {buf : List ℕ} {es : List (RecordId × List ℕ)}
      → io.next_entry it s ≡ ok (true, it')
      → io.current it' s ≡ ok buf
      → io.current_id it' ≡ r
      → Scans io s it' es
      → Scans io s it ((r, buf) ∷ es)
