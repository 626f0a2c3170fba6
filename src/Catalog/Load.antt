-- ===== src/Catalog/Load.antt =====
-- CreateDBMeta and LoadInitFile of src/catalog/CatCacheBase_private.inc, with assertions enabled:
-- the meta file is created, and the reader's lines become files of the catalog. `fuel` bounds the
-- calls of the reader.
use database_systems.Common.{
  ℕ, zero, suc, ◌+◌, ◌%◌, ◌^◌, Bool, true, false, not, List, [], Option, take, ◌==◌, if◌then◌else◌,
  Result, ok, undefined, throws, error, fatal, ◌>>=◌, ◌>>◌, check, or_undefined,
}
use database_systems.Base.Align.{max_align}
use database_systems.Reader.State.{
  InitLineType, eof, error as error_line, table, data_line, Services, Reader,
}
use database_systems.Reader.Next.{next}
use database_systems.Catalog.Interface.{CatalogFiles, SysTables}
use database_systems.Catalog.Oids.{invalid_oid}
use database_systems.Catalog.State.{emplace_entry, oid_key, CatCache}

abbrev pub dbmeta_fid : ℕ
dbmeta_fid = 1

abbrev pub dbmeta_magic : ℕ
dbmeta_magic = 0xfe135724427531ef

-- `max_sys_oid` is generated.
unfoldable pub create_db_meta :
    {io : CatalogFiles} {gen : SysTables} (max_sys_oid : ℕ)
    → CatCache io gen
    → Result (CatCache io gen)
create_db_meta {io} max_sys_oid c = do
  created ← io.create_file false c.files
  check (created.0 == dbmeta_fid) fatal
  fh ← io.open_catalog dbmeta_fid created.1
  ok (record c {
    files = created.1;
    meta = record {
      magic = dbmeta_magic;
      next_oid = (max_sys_oid + 1) % 2 ^ 32;
      systable_table_fid = 0;
    };
  })

-- The loop's variables. The file handle is `fid`, which is 0 while no file is open.
pub record Loading (io : CatalogFiles) : Type 0 where
  pub tabid : ℕ
  pub fid : ℕ
  pub tabid2fid : List (ℕ × ℕ)
  pub files : io.Files

module _ (io : CatalogFiles) where
  -- A table line, with the reader's table ID.
  unfoldable pub load_table : ℕ → Loading io → Result (Loading io)
  load_table last_tabid l =
      if l.tabid == invalid_oid
      then ok (record l { tabid = last_tabid })
      else (do check (not (l.fid == 0)) fatal; ok (record l { tabid = last_tabid; fid = 0 }))

  -- The file of the table's records, which the first of them creates.
  unfoldable pub file_for_table : Loading io → Result (Loading io)
  file_for_table l =
      if l.fid == 0
      then (do
        created ← io.create_file true l.files
        fh ← io.open_catalog created.0 created.1
        ok (record l {
          fid = created.0;
          tabid2fid = emplace_entry l.tabid created.0 l.tabid2fid;
          files = created.1;
        }))
      else ok l

  -- A data line, with the buffer and its size.
  unfoldable pub load_data : List ℕ → ℕ → Loading io → Result (Loading io)
  unfolding file_for_table
  load_data buf size l = do
    check (max_align size == size) fatal
    opened ← file_for_table l
    appended ← io.append opened.fid (take size buf) opened.files
    ok (record opened { files = appended.1 })

  -- The cases of the switch, by what `next` returns: the loop's variables, and whether it is done.
  unfoldable pub load_line :
      InitLineType → ℕ → Option (List ℕ × ℕ) → Loading io → Result (Bool × Loading io)
  unfolding load_table load_data
  load_line eof t rec l = ok (true, l)
  load_line table t rec l = load_table t l >>= λ l'. ok (false, l')
  load_line data_line t rec l =
      or_undefined rec >>= λ r. load_data r.0 r.1 l >>= λ l'. ok (false, l')
  load_line error_line t rec l = throws error

  module _ (services : Services) where
    unfoldable pub load_lines : ℕ → Reader → Loading io → Result (Loading io)
    unfolding load_line
    load_lines zero reader l = undefined
    load_lines (suc fuel) reader l = do
      st ← next services reader
      loaded ← load_line st.0.last_state st.0.tabid st.1 l
      let rest = load_lines fuel st.0 loaded.1
      if loaded.0 then ok loaded.1 else rest

    -- The map from table IDs to file IDs, and the files.
    unfoldable pub load_init_file : ℕ → Reader → io.Files → Result (List (ℕ × ℕ) × io.Files)
    unfolding load_lines
    load_init_file fuel reader files = do
      l ←
          load_lines fuel reader
            (record { tabid = invalid_oid; fid = 0; tabid2fid = []; files = files })
      ok (l.tabid2fid, l.files)
