-- ===== src/Catalog/Find.antt =====
-- The lookups of include/catalog/CatCacheBase.h and FindTableDesc and FindOperator of
-- src/catalog/CatCacheBase_private.inc, with assertions enabled.
use database_systems.Common.{
  ℕ, zero, suc, ◌+◌, ◌-◌, ◌^◌, not, ◌||◌, List, [], ◌∷◌, Option, none, some, length, ◌==◌,
  if◌then◌else◌, Result, ok, undefined, throws, fatal, error, ◌>>=◌, ◌>>◌, check, or_undefined,
}
use database_systems.Base.Align.{is_negative, less}
use database_systems.Schema.Defs.{CatType}
use database_systems.Payload.Write.{rep, bytes}
use database_systems.Query.OpTypes.{op_type_is_unary, op_type_is_binary}
use database_systems.Catalog.Interface.{CatalogFiles, SysTables}
use database_systems.Catalog.Oids.{invalid_oid}
use database_systems.Catalog.State.{CatCache, TableDesc, find, emplace_entry, oid_key}
use database_systems.Catalog.Search.{Predicate, search_unique, search_all}
use database_systems.Catalog.Descriptor.{create_table_desc}

module _ (io : CatalogFiles) (gen : SysTables) (fuel : ℕ) where
  -- FindTableDesc, which the searches call.
  abbrev pub FindDesc : Type 0
  FindDesc = ℕ → CatCache io gen → Result (Option (TableDesc gen) × CatCache io gen)

  module _ (find_desc : FindDesc) where
    -- The part of Impl before its loop: the descriptor and an iterator over the table's file.
    unfoldable pub open_systable :
        ℕ → CatCache io gen → Result (TableDesc gen × io.Iterator × CatCache io gen)
    open_systable systabid c = do
      found ← find_desc systabid c
      let (desc, c1) = found
      tabdesc ← or_undefined desc
      check (not c1.use_index) fatal
      fh ← io.open_catalog (gen.tabfid tabdesc.table_entry) c1.files
      it ← io.iterate fh c1.files
      ok (tabdesc, it, c1)

    -- SearchForCatalogEntry with `expect_unique`, cached.
    unfoldable pub search_for_unique :
        ℕ → List Predicate → CatCache io gen → Result (Option gen.Row × CatCache io gen)
    unfolding open_systable
    search_for_unique systabid ps c = do
      opened ← open_systable systabid c
      search_unique io gen fuel systabid opened.0.schema ps opened.1 opened.2

    -- And without `expect_unique`, not cached.
    unfoldable pub search_for_all :
        ℕ → ℕ → List Predicate → CatCache io gen → Result (List gen.Row × CatCache io gen)
    unfolding open_systable
    search_for_all systabid expect_n ps c = do
      opened ← open_systable systabid c
      rows ← search_all io gen fuel systabid expect_n opened.0.schema ps opened.1 opened.2 []
      ok (rows, opened.2)

    unfoldable pub search_by_oid :
        ℕ → ℕ → ℕ → CatCache io gen → Result (Option gen.Row × CatCache io gen)
    unfolding search_for_unique
    search_by_oid systabid oid_colid oid c =
        search_for_unique systabid
          (record { fieldid = oid_colid; rhs = rep oid; eq_funcid = gen.oid_eq } ∷ []) c

    -- The caller's hint is not used.
    unfoldable pub search_by_name :
        ℕ → ℕ → List ℕ → CatCache io gen → Result (Option gen.Row × CatCache io gen)
    unfolding search_for_unique
    search_by_name systabid name_colid name c =
        search_for_unique systabid
          (record { fieldid = name_colid; rhs = bytes name; eq_funcid = gen.string_eq_ci } ∷ []) c

    unfoldable pub find_table : ℕ → CatCache io gen → Result (Option gen.Row × CatCache io gen)
    unfolding search_by_oid
    find_table tabid c = search_by_oid gen.tab_table gen.tabid_colid tabid c

    unfoldable pub find_type : ℕ → CatCache io gen → Result (Option gen.Row × CatCache io gen)
    unfolding search_by_oid
    find_type typid c = search_by_oid gen.tab_type gen.typid_colid typid c

    unfoldable pub find_function : ℕ → CatCache io gen → Result (Option gen.Row × CatCache io gen)
    unfolding search_by_oid
    find_function funcid c = search_by_oid gen.tab_function gen.funcid_colid funcid c

    unfoldable pub find_index : ℕ → CatCache io gen → Result (Option gen.Row × CatCache io gen)
    unfolding search_by_oid
    find_index idxid c = search_by_oid gen.tab_index gen.idxid_colid idxid c

    -- A field of the row, or the invalid OID.
    abbrev pub oid_of : (gen.Row → ℕ) → Option gen.Row → ℕ
    oid_of get none = invalid_oid
    oid_of get (some row) = get row

    unfoldable pub find_table_by_name : List ℕ → CatCache io gen → Result (ℕ × CatCache io gen)
    unfolding search_by_name
    find_table_by_name tabname c = do
      found ← search_by_name gen.tab_table gen.tabname_colid tabname c
      ok (oid_of gen.tabid found.0, found.1)

    unfoldable pub find_function_by_name : List ℕ → CatCache io gen → Result (ℕ × CatCache io gen)
    unfolding search_by_name
    find_function_by_name funcname c = do
      found ← search_by_name gen.tab_function gen.funcname_colid funcname c
      ok (oid_of gen.funcid found.0, found.1)

    unfoldable pub find_index_by_name : List ℕ → CatCache io gen → Result (ℕ × CatCache io gen)
    unfolding search_by_name
    find_index_by_name idxname c = do
      found ← search_by_name gen.tab_index gen.idxname_colid idxname c
      ok (oid_of gen.idxid found.0, found.1)

    -- `funcargid` is an `int16_t`.
    unfoldable pub find_function_args :
        ℕ → ℕ → CatCache io gen → Result (Option gen.Row × CatCache io gen)
    unfolding search_for_unique
    find_function_args funcid funcargid c =
        search_for_unique gen.tab_function_args
          (record { fieldid = gen.args_funcid_colid; rhs = rep funcid; eq_funcid = gen.oid_eq }
            ∷ record {
              fieldid = gen.args_funcargid_colid;
              rhs = rep funcargid;
              eq_funcid = gen.int2_eq;
            }
            ∷ [])
          c

    -- The tests of FindOperator: an operand that is missing is an error.
    unfoldable pub check_operands : ℕ → ℕ → ℕ → Result (Unit {0})
    unfolding op_type_is_unary op_type_is_binary
    check_operands optype arg0 arg1 =
        if op_type_is_unary optype then check (not (arg0 == invalid_oid)) error else (do
          check (op_type_is_binary optype) fatal
          check (not ((arg0 == invalid_oid) || (arg1 == invalid_oid))) error)

    unfoldable pub find_operator : ℕ → ℕ → ℕ → CatCache io gen → Result (ℕ × CatCache io gen)
    unfolding check_operands search_for_unique
    find_operator optype arg0 arg1 c = do
      check_operands optype arg0 arg1
      found ←
          search_for_unique gen.tab_operator
            (record { fieldid = gen.optype_colid; rhs = rep optype; eq_funcid = gen.uint1_eq }
              ∷ record { fieldid = gen.oparg0typid_colid; rhs = rep arg0; eq_funcid = gen.oid_eq }
              ∷ record { fieldid = gen.oparg1typid_colid; rhs = rep arg1; eq_funcid = gen.oid_eq }
              ∷ [])
            c
      ok (oid_of gen.opfuncid found.0, found.1)

  -- The rows in the order of their column IDs. The order that `std::sort` gives rows with the same
  -- ID is not specified.
  unfoldable pub insert_column : gen.Row → List gen.Row → List gen.Row
  insert_column col [] = col ∷ []
  insert_column col (other ∷ cols) =
      let rest = insert_column col cols in
      if less (gen.colid other) (gen.colid col) then other ∷ rest else col ∷ other ∷ cols

  unfoldable pub sort_columns : List gen.Row → List gen.Row
  unfolding insert_column
  sort_columns [] = []
  sort_columns (col ∷ cols) = insert_column col (sort_columns cols)

  -- The types that ComputeLayout asks the catalog cache for, one for each column.
  unfoldable pub find_types :
      FindDesc → List gen.Row → CatCache io gen → Result (List (ℕ × CatType) × CatCache io gen)
  unfolding find_type
  find_types find_desc [] c = ok ([], c)
  find_types find_desc (col ∷ cols) c = do
    found ← find_type find_desc (gen.coltypid col) c
    more ← find_types find_desc cols found.1
    ok (
      elim (found.0) [ none ↦ more.0 | some typ ↦ (gen.coltypid col, gen.cat_type typ) ∷ more.0 ],
      more.1,
    )

  -- `(size_t)` of an `int16_t`.
  abbrev pub to_size : ℕ → ℕ
  to_size n = if is_negative n then n + (2 ^ 64 - 2 ^ 16) else n

  module _ (call_length : ℕ → ℕ → Option ℕ) where
    -- FindTableDesc for a table whose row is found: its columns, and the new descriptor.
    unfoldable pub build_table_desc :
        FindDesc → ℕ → gen.Row → CatCache io gen → Result (Option (TableDesc gen) × CatCache io gen)
    unfolding search_for_all sort_columns find_types create_table_desc
    build_table_desc find_desc tabid table c = do
      let ncols = to_size (gen.tabncols table)
      cols ←
          search_for_all find_desc gen.tab_column ncols
            (record { fieldid = gen.coltabid_colid; rhs = rep tabid; eq_funcid = gen.oid_eq } ∷ [])
            c
      check (length cols.0 == ncols) fatal
      let sorted = sort_columns cols.0
      types ← find_types find_desc sorted cols.1
      created ← create_table_desc gen (λ typid. find typid types.0) call_length table sorted
      desc ← elim created [ none ↦ throws fatal | some d ↦ ok d ]
      ok (
        some desc,
        record types.1 { table_desc = emplace_entry (gen.tabid table) desc types.1.table_desc },
      )

    unfoldable pub build_if_found :
        FindDesc
        → ℕ
        → Option gen.Row
        → CatCache io gen
        → Result (Option (TableDesc gen) × CatCache io gen)
    unfolding build_table_desc
    build_if_found find_desc tabid none c = ok (none, c)
    build_if_found find_desc tabid (some table) c = build_table_desc find_desc tabid table c

    -- FindTableDesc for a table that is not in the cache.
    unfoldable pub missing_table_desc : FindDesc → FindDesc
    unfolding find_table build_if_found
    missing_table_desc find_desc tabid c = do
      check (not (tabid == gen.tab_column)) fatal
      check c.initialized fatal
      found ← find_table find_desc tabid c
      build_if_found find_desc tabid found.0 found.1

    unfoldable pub desc_in_cache :
        FindDesc
        → ℕ
        → CatCache io gen
        → Option (TableDesc gen)
        → Result (Option (TableDesc gen) × CatCache io gen)
    unfolding missing_table_desc
    desc_in_cache find_desc tabid c (some d) = ok (some d, c)
    desc_in_cache find_desc tabid c none = missing_table_desc find_desc tabid c

    -- FindTableDesc, at most `depth` calls deep in itself.
    unfoldable pub find_table_desc : ℕ → FindDesc
    unfolding desc_in_cache
    find_table_desc zero tabid c = undefined
    find_table_desc (suc depth) tabid c =
        desc_in_cache (find_table_desc depth) tabid c (find tabid c.table_desc)
