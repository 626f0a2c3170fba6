-- ===== src/Catalog/TableTests.antt =====
-- The theorems on AddTable at arguments with too few type parameters, and with 40000 columns.
use database_systems.Common.{true, false, [], ◌∷◌, none, ok, ◌>>=◌, ◌>>◌, replicate}
use database_systems.Catalog.Find.{FindDesc}
use database_systems.Catalog.Insert.{TableArgs}
use database_systems.Catalog.Volatile.{volatile_files}
use database_systems.Catalog.Tests.{toy}

-- Two columns, with one type parameter only.
abbrev short_args : TableArgs
short_args = record {
  tabname = [];
  coltypid = 4 ∷ 4 ∷ [];
  coltypparam = 0 ∷ [];
  field_names = [];
  colisnullable = [];
  colisarray = [];
  tabfid = 3;
}

-- No table is known.
abbrev no_tables : FindDesc volatile_files toy 0
no_tables tabid c = ok (none, c)

-- 40000 columns of the type 4.
abbrev wide_args : TableArgs
wide_args = record {
  tabname = [];
  coltypid = replicate 40000 4;
  coltypparam = replicate 40000 0;
  field_names = [];
  colisnullable = replicate 40000 true;
  colisarray = replicate 40000 false;
  tabfid = 3;
}
