-- ===== src/Catalog/Tests.antt =====
-- The theorems on the catalog cache at a table with two rows of two numbers each.
use database_systems.Common.{
  load, of_bytes, to_bytes, store, ◌++◌, ℕ, ◌≤◌, Bool, true, false, List, [], ◌∷◌, Option, none,
  some, get_elem?, get_or, ◌==◌, if◌then◌else◌, Result, ok, ◌≡◌, ◌≢◌, ◌⊎◌, refl, arith,
}
use database_systems.Storage.RecordId.{RecordId}
use database_systems.Schema.Defs.{Schema, construct}
use database_systems.Schema.Compute.{compute_layout}
use database_systems.Schema.Samples.{
  layout_of, or_else, sample_schema, plain_type, find_type, call_length,
}
use database_systems.Payload.Write.{Value, rep}
use database_systems.Payload.Read.{get_field, dissemble_payload}
use database_systems.Volatile.Files.{
  InmemFile, VolatileCatCache, CatFileIterator, iterate_cat_entry,
}
use database_systems.Catalog.Oids.{
  step, holding, returned, Counter, interleave, max_oid, invalid_oid,
}
use database_systems.Catalog.Allocate.{fresh_counter, allocate_oid_unique}
use database_systems.Catalog.Returns.{allocate_oid_returns}
use database_systems.Catalog.Interface.{SysTables, Scans}
use database_systems.Catalog.State.{CatCache, TableDesc, find, oid_key, record_id_key}
use database_systems.Catalog.Search.{Predicate, check_if_equal, systable_struct}
use database_systems.Catalog.Find.{search_for_unique, find_table_desc}
use database_systems.Catalog.Descriptor.{Columns, create_table_desc, laid_out}
use database_systems.Catalog.Descriptor.Fill.{IsSized, AllHold, create_table_desc-AllHold}
use database_systems.Catalog.Insert.{append_rows}
use database_systems.Catalog.Rows.{Appended, Written, append_rows-Appended}
use database_systems.Payload.Write.{write_payload}
use database_systems.Catalog.Volatile.{volatile_files, entries_of, iterate_cat_entry-Scans}
use database_systems.Catalog.Matches.{Found, Decides, Agrees, IsCoherent}
use database_systems.Catalog.Lookups.{search_for_unique-first_match}

allocate_oid_unique_example :
    (◌≡◌ {A = ℕ} 11 invalid_oid) ⊎ ((10 ≤ 11) × (11 ≤ max_oid) × (◌≢◌ {A = ℕ} 11 10))
unfolding interleave step
allocate_oid_unique_example =
    allocate_oid_unique 10 2 (0 ∷ 1 ∷ 1 ∷ 0 ∷ 0 ∷ []) 0 1 11 10 (omega arith) (omega arith)
      (λ e. omega arith) first second
  where
    first :
        get_elem? (interleave (0 ∷ 1 ∷ 1 ∷ 0 ∷ 0 ∷ []) (fresh_counter 10 2)).calls 0
        ≡ some (returned 11)
    first = refl

    second :
        get_elem? (interleave (0 ∷ 1 ∷ 1 ∷ 0 ∷ 0 ∷ []) (fresh_counter 10 2)).calls 1
        ≡ some (returned 10)
    second = refl

-- A call whose value is out of date.
abbrev stale_counter : Counter
stale_counter = record { next_oid = 12; calls = holding 10 ∷ [] }

allocate_oid_returns_example :
    (u : ℕ) × (get_elem? (interleave (0 ∷ 0 ∷ []) stale_counter).calls 0 ≡ some (returned u))
allocate_oid_returns_example = allocate_oid_returns 0 (holding 10) stale_counter refl

-- Rows are lists of values, and functions compare numbers.
abbrev Row : Type 0
Row = List Value

abbrev number : Value → ℕ
number (rep n) = n
number v = 0

abbrev column : ℕ → Row → ℕ
column i row = number (get_or row i (rep 0))

abbrev compare_values : ℕ → Value → Value → Result (Option Bool)
compare_values f a b = ok (some (number a == number b))

abbrev pub toy : SysTables
toy = record {
  Row = Row;
  create_row = λ tab values. ok values;
  call_function = compare_values;
  cat_type = λ row. plain_type 4 4;
  tabid = column 0;
  tabncols = λ row. 2;
  tabfid = column 1;
  funcid = column 0;
  idxid = column 0;
  opfuncid = column 0;
  coltabid = λ row. 1;
  colid = column 0;
  coltypid = column 1;
  coltypparam = λ row. 0;
  colisnullable = λ row. false;
  colname = λ row. "";
  tab_table = 1;
  tab_type = 2;
  tab_function = 3;
  tab_function_args = 4;
  tab_index = 5;
  tab_operator = 6;
  tab_column = 7;
  tabid_colid = 0;
  tabname_colid = 1;
  typid_colid = 0;
  funcid_colid = 0;
  funcname_colid = 1;
  args_funcid_colid = 0;
  args_funcargid_colid = 1;
  idxid_colid = 0;
  idxname_colid = 1;
  table_values = λ tabid issys isvarlen ncols fid name. rep tabid ∷ rep fid ∷ [];
  column_values = λ tabid i isarray nullable typid param name. rep i ∷ rep typid ∷ [];
  default_name = λ i. i ∷ [];
  coltabid_colid = 0;
  optype_colid = 0;
  oparg0typid_colid = 1;
  oparg1typid_colid = 1;
  oid_eq = 1;
  int2_eq = 2;
  uint1_eq = 3;
  string_eq_ci = 4;
}

abbrev pair_schema : Schema
pair_schema = or_else (layout_of (4 ∷ 4 ∷ []) (false ∷ false ∷ [])) sample_schema

abbrev row_bytes : ℕ → ℕ → List ℕ
row_bytes a b = a ∷ 0 ∷ 0 ∷ 0 ∷ b ∷ 0 ∷ 0 ∷ 0 ∷ []

-- The rows (5, 2) and (7, 3), with a deleted one between them.
abbrev two_rows : InmemFile
two_rows = record {
  bytes = row_bytes 5 2 ++ (row_bytes 6 6 ++ row_bytes 7 3);
  offsets = 0 ∷ 8 ∷ 16 ∷ [];
  valid = true ∷ false ∷ true ∷ [];
}

abbrev toy_files : VolatileCatCache
toy_files = record { systables = two_rows ∷ []; dbmeta_page = true }

iterate_cat_entry-Scans_example :
    (it : CatFileIterator) × (iterate_cat_entry 2 toy_files ≡ ok it)
    × Scans volatile_files toy_files it (entries_of 2 two_rows)
iterate_cat_entry-Scans_example =
    iterate_cat_entry-Scans toy_files two_rows 2 refl refl (omega arith)

-- The descriptor of the table 1, whose file is the file 2.
abbrev pair_desc : TableDesc toy
pair_desc = record { table_entry = rep 1 ∷ rep 2 ∷ []; schema = pair_schema }

abbrev pub toy_cache : CatCache volatile_files toy
toy_cache = record {
  initialized = true;
  use_index = false;
  recid_lookup_table = [];
  table_desc = (1, pair_desc) ∷ [];
  files = toy_files;
  meta = record { magic = 0; next_oid = 10; systable_table_fid = 2 };
}

abbrev is_seven : Predicate
is_seven = record { fieldid = 0; rhs = rep 7; eq_funcid = 1 }

abbrev starts_with_seven : List ℕ → Bool
starts_with_seven b = get_or b 0 0 == 7

abbrev rows_by_id : RecordId → Option Row
rows_by_id r =
    if r.sid == 0
    then some (rep 5 ∷ rep 2 ∷ [])
    else if r.sid == 2
    then some (rep 7 ∷ rep 3 ∷ [])
    else none

toy-Decides :
    Decides volatile_files toy pair_schema (is_seven ∷ []) starts_with_seven (entries_of 2 two_rows)
unfolding check_if_equal get_field compute_layout construct load of_bytes
toy-Decides = (refl, (refl, tt))

toy-Agrees : Agrees volatile_files toy 1 pair_schema rows_by_id (entries_of 2 two_rows)
unfolding systable_struct dissemble_payload compute_layout construct load of_bytes
toy-Agrees = ((rep 5 ∷ rep 2 ∷ [], refl, refl), ((rep 7 ∷ rep 3 ∷ [], refl, refl), tt))

toy-IsCoherent : IsCoherent volatile_files toy rows_by_id toy_cache
unfolding find
toy-IsCoherent r row h = absurd (cc)

toy_desc : find 1 toy_cache.table_desc ≡ some pair_desc
unfolding find
toy_desc = refl

search_for_unique-first_match_example :
    Found volatile_files toy rows_by_id (some (rep 7 ∷ rep 3 ∷ [])) toy_cache (
      search_for_unique volatile_files toy 10
        (find_table_desc volatile_files toy 10 call_length 1)
        1
        (is_seven ∷ [])
        toy_cache)
search_for_unique-first_match_example =
    search_for_unique-first_match toy 10 0 call_length 1 (is_seven ∷ []) starts_with_seven
      rows_by_id toy_cache pair_desc two_rows toy_desc refl refl refl (omega arith) (omega arith)
      toy-Decides toy-Agrees toy-IsCoherent

abbrev new_row : List Value
new_row = rep 8 ∷ rep 9 ∷ []

new_row-Written : Written pair_schema (new_row ∷ []) (row_bytes 8 9 ∷ [])
unfolding write_payload compute_layout construct store to_bytes
new_row-Written = ((8, refl), omega arith, tt)

append_rows-Appended_example :
    Appended 2 toy_files two_rows
      (row_bytes 8 9 ∷ [])
      (append_rows volatile_files toy 2 pair_schema (new_row ∷ []) toy_files)
append_rows-Appended_example =
    append_rows-Appended toy 2 pair_schema (new_row ∷ []) (row_bytes 8 9 ∷ []) toy_files two_rows
      refl refl (refl, refl) (omega arith) (omega arith) new_row-Written

-- Columns in another order than their IDs.
abbrev two_columns : List Row
two_columns = (rep 1 ∷ rep 2 ∷ []) ∷ (rep 0 ∷ rep 4 ∷ []) ∷ []

create_table_desc-AllHold_example :
    (v : Columns) × (create_table_desc toy find_type call_length (rep 1 ∷ rep 2 ∷ []) two_columns
      ≡ laid_out toy find_type call_length (rep 1 ∷ rep 2 ∷ []) (
          compute_layout find_type call_length
            (construct v.typid v.typparam v.isnullable v.field_names)))
    × IsSized toy 2 v
    × AllHold toy two_columns v
create_table_desc-AllHold_example =
    create_table_desc-AllHold toy find_type call_length (rep 1 ∷ rep 2 ∷ []) two_columns
      (omega arith) (omega arith)
      (refl, omega arith, (λ e. omega arith, tt), (refl, omega arith, tt, tt))
