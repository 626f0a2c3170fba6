-- ===== src/Catalog/Search.antt =====
-- CheckIfEqual, GetOrCreateCachedEntry and SearchForCatalogEntry of
-- src/catalog/CatCacheBase_private.inc, with assertions enabled. `fuel` bounds the rounds of a scan.
use database_systems.Common.{
  ℕ, zero, suc, Bool, true, false, not, List, [], ◌∷◌, ◌++◌, Option, none, some, length, ◌==◌, ◌&&◌,
  if◌then◌else◌, Result, ok, undefined, throws, fatal, ◌>>=◌, ◌>>◌, check, or_undefined,
}
use database_systems.Storage.RecordId.{RecordId}
use database_systems.Schema.Defs.{Schema}
use database_systems.Payload.Write.{Value}
use database_systems.Payload.Read.{get_field, dissemble_payload}
use database_systems.Catalog.Interface.{CatalogFiles, SysTables}
use database_systems.Catalog.State.{
  CatCache, TableDesc, find, emplace_entry, record_id_key, oid_key,
}

-- One element of each of the arrays `fieldid`, `rhs_datum` and `eq_funcid`.
pub record Predicate : Type 0 where
  pub fieldid : ℕ
  pub rhs : Value
  pub eq_funcid : ℕ

module _ (io : CatalogFiles) (gen : SysTables) where
  -- `ASSERT(!res.isnull())` and `GetBool`.
  abbrev pub asserted_bool : Option Bool → Result Bool
  asserted_bool none = throws fatal
  asserted_bool (some b) = ok b

  unfoldable pub check_if_equal : Schema → List Predicate → List ℕ → Result Bool
  check_if_equal schema [] recbuf = ok true
  check_if_equal schema (p ∷ ps) recbuf =
      let rest = check_if_equal schema ps recbuf in
      (do
        lhs ← get_field schema p.fieldid recbuf
        res ← gen.call_function p.eq_funcid lhs p.rhs
        b ← asserted_bool res
        if b then rest else ok false)

  -- The struct of an entry whose bytes the caller has.
  unfoldable pub systable_struct : ℕ → Schema → List ℕ → Result gen.Row
  systable_struct systabid schema buf = do
    values ← dissemble_payload schema buf
    gen.create_row systabid values

  unfoldable pub entry_in_cache :
      ℕ
      → RecordId
      → Schema
      → List ℕ
      → CatCache io gen
      → Option gen.Row
      → Result (gen.Row × CatCache io gen)
  unfolding systable_struct
  entry_in_cache systabid recid schema buf c (some row) = ok (row, c)
  entry_in_cache systabid recid schema buf c none = do
    row ← systable_struct systabid schema buf
    ok (row, record c { recid_lookup_table = emplace_entry recid row c.recid_lookup_table })

  -- GetOrCreateCachedEntry<false> with the schema and the bytes of the entry.
  unfoldable pub get_or_create_cached_entry :
      ℕ → RecordId → Schema → List ℕ → CatCache io gen → Result (gen.Row × CatCache io gen)
  unfolding entry_in_cache
  get_or_create_cached_entry systabid recid schema buf c =
      entry_in_cache systabid recid schema buf c (find recid c.recid_lookup_table)

  -- The rest of GetOrCreateCachedEntry<false> with a null `buf`, for a record that is not cached
  -- and the descriptor that FindTableDesc returned. `schema` is the parameter, not the descriptor's.
  unfoldable pub read_systable_struct :
      ℕ → RecordId → Option Schema → TableDesc gen → CatCache io gen → Result gen.Row
  unfolding systable_struct
  read_systable_struct systabid recid schema tabdesc c = do
    fh ← io.open_catalog (gen.tabfid tabdesc.table_entry) c.files
    it ← io.iterate_from fh recid c.files
    moved ← io.next_entry it c.files
    check moved.0 fatal
    buf ← io.current moved.1 c.files
    s ← or_undefined schema
    systable_struct systabid s buf

  -- The loop of Impl with `expect_unique`, at the iterator's next entry.
  unfoldable pub search_unique :
      ℕ
      → ℕ
      → Schema
      → List Predicate
      → io.Iterator
      → CatCache io gen
      → Result (Option gen.Row × CatCache io gen)
  unfolding check_if_equal get_or_create_cached_entry
  search_unique zero systabid schema ps it c = undefined
  search_unique (suc fuel) systabid schema ps it c = do
    moved ← io.next_entry it c.files
    let (more, it') = moved
    let rest = search_unique fuel systabid schema ps it' c
    if more
        then (do
          recbuf ← io.current it' c.files
          equal ← check_if_equal schema ps recbuf
          if equal
              then (do
                entry ← get_or_create_cached_entry systabid (io.current_id it') schema recbuf c
                ok (some entry.0, entry.1))
              else rest)
        else ok (none, c)

  -- The loop of Impl without `expect_unique` and with `no_cache`, after the rows found so far.
  unfoldable pub search_all :
      ℕ
      → ℕ
      → ℕ
      → Schema
      → List Predicate
      → io.Iterator
      → CatCache io gen
      → List gen.Row
      → Result (List gen.Row)
  unfolding check_if_equal systable_struct
  search_all zero systabid expect_n schema ps it c ret = undefined
  search_all (suc fuel) systabid expect_n schema ps it c ret = do
    moved ← io.next_entry it c.files
    let (more, it') = moved
    let rest = search_all fuel systabid expect_n schema ps it' c
    if more
        then (do
          recbuf ← io.current it' c.files
          equal ← check_if_equal schema ps recbuf
          if equal
              then (do
                row ← systable_struct systabid schema recbuf
                let ret' = ret ++ (row ∷ [])
                if not (expect_n == 0) && (length ret' == expect_n) then ok ret' else rest ret')
              else rest ret)
        else ok ret
