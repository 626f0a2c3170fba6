-- ===== src/Catalog/Lookups.antt =====
-- The lookups of include/catalog/CatCacheBase.h over the files of VolatileCatCache,
-- src/catalog/VolatileCatCache.cpp.
use database_systems.Common.{
  ℕ, suc, ◌+◌, ◌≤◌, ◌<◌, Bool, true, false, not, ◌&&◌, List, [], ◌∷◌, Option, some, length, ltb,
  leb, ◌==◌, Result, ok, fatal, ◌>>=◌, check, or_undefined, get_elem?, ◌≡◌, refl, ap, arith, ◌-◌,
}
use database_systems.Storage.RecordId.{RecordId}
use database_systems.Volatile.Files.{
  InmemFile, VolatileCatCache, asserted_file, open_catalog_file, iterate_cat_entry,
}
use database_systems.Catalog.Interface.{SysTables, Scans}
use database_systems.Catalog.State.{CatCache, TableDesc, find, oid_key}
use database_systems.Catalog.Search.{Predicate}
use database_systems.Catalog.Find.{find_table_desc, desc_in_cache, open_systable, search_for_unique}
use database_systems.Catalog.Volatile.{volatile_files, entries_of, live, iterate_cat_entry-Scans}
use database_systems.Catalog.Matches.{
  first_match, source_of, Decides, Agrees, IsCoherent, Found, search_unique-first_match,
}

-- The test of the callers that assert, which OpenCatalogFile makes in part.
opened :
    (fid : ℕ) (c : VolatileCatCache) (f : InmemFile)
    → asserted_file fid c ≡ ok f
    → open_catalog_file fid c ≡ ok fid
unfolding open_catalog_file
opened fid c f h = on (ltb 1 fid && leb fid (length c.systables + 1)) refl h
  where
    on :
        (b : Bool)
        → (ltb 1 fid && leb fid (length c.systables + 1)) ≡ b
        → (check b fatal >>= λ _. or_undefined (get_elem? c.systables (fid - 2))) ≡ ok f
        → (check (not (fid == 0) && leb fid (length c.systables + 1)) fatal >>= λ _. ok fid)
          ≡ ok fid
    on false e h = absurd (cc)
    on true e h = rw valid refl
      where
        valid : (not (fid == 0) && leb fid (length c.systables + 1)) ≡ true
        valid = ground arith

length-live :
    (fh : ℕ) (bytes : List ℕ) (i : ℕ) (vs : List Bool) (os : List ℕ)
    → length (live fh bytes i vs os) ≤ length os
length-live fh bytes i [] os = omega arith
length-live fh bytes i (true ∷ vs) [] = omega arith
length-live fh bytes i (false ∷ vs) [] = omega arith
length-live fh bytes i (true ∷ vs) (o ∷ os) = omega (arith, length-live fh bytes (i + 1) vs os)
length-live fh bytes i (false ∷ vs) (o ∷ os) = omega (arith, length-live fh bytes (i + 1) vs os)

module _ (gen : SysTables) (fuel depth : ℕ) (call_length : ℕ → ℕ → Option ℕ) where
  abbrev find_desc :
      ℕ
      → CatCache volatile_files gen
      → Result (Option (TableDesc gen) × CatCache volatile_files gen)
  find_desc = find_table_desc volatile_files gen fuel call_length (suc depth)

  find_table_desc-cached :
      (tabid : ℕ) (d : TableDesc gen) (c : CatCache volatile_files gen)
      → find tabid c.table_desc ≡ some d
      → find_desc tabid c ≡ ok (some d, c)
  unfolding find_table_desc desc_in_cache
  find_table_desc-cached tabid d c h = rw h refl

  -- A search for a unique entry of a system table whose descriptor is cached, while no index is
  -- used, where the table's file is open, has as many flags as offsets and fewer than 65535
  -- records, and the fuel is more than these. If the predicates come to a test on every valid
  -- entry, every valid entry is read as the row of its record ID, and the cache holds such rows
  -- only, the search returns the row of the first valid entry that passes the test, or nothing if
  -- none does, and the cache holds such rows only again.
  pub search_for_unique-first_match :
      (systabid : ℕ) (ps : List Predicate) (test : List ℕ → Bool)
      (source : RecordId → Option gen.Row) (c : CatCache volatile_files gen) (d : TableDesc gen)
      (f : InmemFile)
      → find systabid c.table_desc ≡ some d
      → c.use_index ≡ false
      → asserted_file (gen.tabfid d.table_entry) c.files ≡ ok f
      → length f.valid ≡ length f.offsets
      → length f.offsets < 65535
      → length f.offsets < fuel
      → Decides volatile_files gen d.schema ps test (entries_of (gen.tabfid d.table_entry) f)
      → Agrees volatile_files gen systabid d.schema source (entries_of (gen.tabfid d.table_entry) f)
      → IsCoherent volatile_files gen source c
      → Found volatile_files gen source
          (source_of volatile_files gen source
            (first_match test (entries_of (gen.tabfid d.table_entry) f)))
          c
          (search_for_unique volatile_files gen fuel find_desc systabid ps c)
  unfolding search_for_unique open_systable
  search_for_unique-first_match systabid ps test source c d f cached plain here flags small enough
        decides agrees coherent =
      on (iterate_cat_entry-Scans c.files f fh here flags small)
    where
      fh : ℕ
      fh = gen.tabfid d.table_entry

      used : check (not c.use_index) fatal ≡ ok tt
      used = ap (λ b. check (not b) fatal) plain

      on :
          ((it : volatile_files.Iterator) × (iterate_cat_entry fh c.files ≡ ok it)
            × Scans volatile_files c.files it (entries_of fh f))
          → Found volatile_files gen source
              (source_of volatile_files gen source (first_match test (entries_of fh f)))
              c
              (search_for_unique volatile_files gen fuel find_desc systabid ps c)
      on (it, e, scans) =
          rw (find_table_desc-cached systabid d c cached, used, opened fh c.files f here, e)
            (search_unique-first_match volatile_files gen fuel systabid d.schema ps test source c it
              (entries_of fh f) scans (omega (arith, length-live fh f.bytes 0 f.valid f.offsets))
              decides agrees coherent)
