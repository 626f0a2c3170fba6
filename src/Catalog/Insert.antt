-- ===== src/Catalog/Insert.antt =====
-- AddTable and InsertCatalogEntries of src/catalog/CatCacheBase_private.inc, with assertions
-- enabled. The number of columns is converted to a FieldId, which is negative from 2 ^ 15 on.
use database_systems.Common.{
  ℕ, zero, suc, ◌+◌, Bool, true, false, not, List, [], ◌∷◌, none, some, length, replicate, ltb,
  ◌==◌, if◌then◌else◌, take, length_error, Result, ok, undefined, throws, fatal, error, ◌>>=◌, ◌>>◌,
  check,
}
use database_systems.Base.Align.{is_negative, int16}
use database_systems.Schema.Defs.{Schema}
use database_systems.Payload.Write.{Value, write_payload}
use database_systems.Catalog.Interface.{CatalogFiles, SysTables}
use database_systems.Catalog.Oids.{invalid_oid}
use database_systems.Catalog.State.{CatCache, allocate_oid}
use database_systems.Catalog.Find.{FindDesc, find_type}

-- A vector that the caller may leave empty: its default, or its size is compared as a FieldId.
unfoldable pub or_default {ℓ} : {A : Type ℓ} → ℕ → Result (List A) → List A → Result (List A)
or_default num_fields default [] = default
or_default num_fields default (x ∷ xs) = do
  check (int16 (length (x ∷ xs)) == num_fields) error
  ok (x ∷ xs)

-- The rounds of a loop up to a FieldId.
abbrev pub rounds : ℕ → ℕ
rounds num_fields = if is_negative num_fields then 0 else num_fields

-- An empty vector that is resized to a FieldId, which is a number above the largest size of a
-- vector if it is negative.
unfoldable pub sized_by_id {ℓ} : {A : Type ℓ} → ℕ → A → Result (List A)
sized_by_id num_fields a =
    if is_negative num_fields then throws length_error else ok (replicate num_fields a)

pub record TableArgs : Type 0 where
  pub tabname : List ℕ
  pub coltypid : List ℕ
  pub coltypparam : List ℕ
  pub field_names : List (List ℕ)
  pub colisnullable : List Bool
  pub colisarray : List Bool
  pub tabfid : ℕ

module _ (io : CatalogFiles) (gen : SysTables) where
  abbrev pub default_names : ℕ → ℕ → List (List ℕ)
  default_names i zero = []
  default_names i (suc n) = gen.default_name i ∷ default_names (i + 1) n

  -- The checks of AddTable on its arguments, and the defaults.
  unfoldable pub complete_args : TableArgs → Result TableArgs
  unfolding or_default sized_by_id
  complete_args a = do
    let num_fields = int16 (length a.coltypid)
    check (not (a.tabfid == 0)) error
    check (not (length a.coltypid == 0)) error
    check (not (ltb 65535 (length a.coltypid))) error
    params ← or_default num_fields (sized_by_id num_fields 0) a.coltypparam
    names ← or_default num_fields (ok (default_names 0 (rounds num_fields))) a.field_names
    nullable ← or_default num_fields (sized_by_id num_fields true) a.colisnullable
    arrays ← or_default num_fields (sized_by_id num_fields false) a.colisarray
    ok (record a {
      coltypparam = params;
      field_names = names;
      colisnullable = nullable;
      colisarray = arrays;
    })

  -- The rows of Column, from column `i` on.
  unfoldable pub column_rows :
      ℕ → ℕ → List ℕ → List ℕ → List (List ℕ) → List Bool → List Bool → Result (List (List Value))
  column_rows tabid i [] ps ns us rs = ok []
  column_rows tabid i (t ∷ ts) (p ∷ ps) (n ∷ ns) (u ∷ us) (r ∷ rs) = do
    rows ← column_rows tabid (i + 1) ts ps ns us rs
    ok (gen.column_values tabid i r u t p n ∷ rows)
  column_rows tabid i (t ∷ ts) ps ns us rs = undefined

  -- The loop of InsertCatalogEntries.
  unfoldable pub append_rows : ℕ → Schema → List (List Value) → io.Files → Result io.Files
  append_rows fh schema [] s = ok s
  append_rows fh schema (recdata ∷ rows) s = do
    written ← write_payload schema recdata []
    recbuf ← elim written [ none ↦ throws fatal | some w ↦ ok w ]
    appended ← io.append fh recbuf.0 s
    append_rows fh schema rows appended.1

  module _ (fuel : ℕ) (find_desc : FindDesc io gen fuel) where
    unfoldable pub insert_catalog_entries :
        ℕ → List (List Value) → CatCache io gen → Result (CatCache io gen)
    unfolding append_rows
    insert_catalog_entries systabid rows c = do
      found ← find_desc systabid c
      let (desc, c1) = found
      tabdesc ← elim desc [ none ↦ throws fatal | some d ↦ ok d ]
      fh ← io.open_catalog (gen.tabfid tabdesc.table_entry) c1.files
      s ← append_rows fh tabdesc.schema rows c1.files
      ok (record c1 { files = s })

    -- The loop over the types of the columns.
    unfoldable pub check_types : List ℕ → CatCache io gen → Result (CatCache io gen)
    unfolding find_type
    check_types [] c = ok c
    check_types (t ∷ ts) c = do
      found ← find_type io gen fuel find_desc t c
      elim (found.0) [ none ↦ throws error | some typ ↦ check_types ts found.1 ]

    unfoldable pub add_table : TableArgs → CatCache io gen → Result (ℕ × CatCache io gen)
    unfolding complete_args check_types allocate_oid column_rows insert_catalog_entries
    add_table args c = do
      a ← complete_args args
      let cols = take (rounds (int16 (length a.coltypid))) a.coltypid
      c1 ← check_types cols c
      let (tabid, c2) = allocate_oid c1
      check (not (tabid == invalid_oid)) error
      columns ← column_rows tabid 0 cols a.coltypparam a.field_names a.colisnullable a.colisarray
      let row = gen.table_values tabid false true (int16 (length a.coltypid)) a.tabfid a.tabname
      c3 ← insert_catalog_entries gen.tab_table (row ∷ []) c2
      c4 ← insert_catalog_entries gen.tab_column columns c3
      ok (tabid, c4)
