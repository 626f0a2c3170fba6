-- ===== src/Catalog/LoadTests.antt =====
-- LoadInitFile at a file with one table of one record.
use database_systems.Common.{
  ℕ, ◌+◌, ◌*◌, ◌-◌, ◌<◌, Bool, true, false, ◌&&◌, List, [], ◌∷◌, Option, none, some, ok, ◌==◌, leb,
  if◌then◌else◌, ◌≡◌, refl, arith, length, get_elem?, store, to_bytes,
}
use database_systems.Schema.Defs.{Schema, create, construct}
use database_systems.Schema.Compute.{compute_layout}
use database_systems.Schema.Samples.{plain_type, call_length, find_type, or_else}
use database_systems.Payload.Write.{rep, write_payload}
use database_systems.Volatile.Files.{VolatileCatCache}
use database_systems.Reader.Tokens.{find_next_token}
use database_systems.Reader.State.{
  eof, table, data_line, Services, TypeRow, Reader, getline, construct_reader,
}
use database_systems.Reader.Next.{find_infuncs, next, input_value, read_values}
use database_systems.Catalog.Load.{load_init_file}
use database_systems.Catalog.Blocks.{Block, lines_of, map_of}
use database_systems.Catalog.Loaded.{Reads, ended, table_read, row_read}
use database_systems.Catalog.LoadedFiles.{HoldsBlocks, load_init_file-HoldsBlocks}
use database_systems.Catalog.Volatile.{volatile_files}

abbrev digits : ℕ → List ℕ → Bool × ℕ
digits n [] = (true, n)
digits n (c ∷ cs) = if leb 48 c && leb c 57 then digits (10 * n + (c - 48)) cs else (false, 0)

abbrev find_row : ℕ → Option TypeRow
find_row t =
    if t == 4 then some (record { typid = 4; typinfunc = 14; layout = plain_type 4 4 }) else none

abbrev services : Services
services = record {
  atoi_oid = digits 0;
  atoi_uint64 = digits 0;
  find_row = find_row;
  call_length = call_length;
  find_builtin = λ f. some f;
  call_infunc = λ f p text. ok (rep (digits 0 text).1);
}

-- `table 5 4 0` and `data 12`.
abbrev init_text : List ℕ
init_text =
    116 ∷ 97 ∷ 98 ∷ 108 ∷ 101 ∷ 32 ∷ 53 ∷ 32 ∷ 52 ∷ 32 ∷ 48 ∷ 10 ∷ 100 ∷ 97 ∷ 116 ∷ 97 ∷ 32 ∷ 49
    ∷ 50 ∷ 10 ∷ []

abbrev init_reader : Reader
unfolding construct_reader
init_reader = construct_reader (record { left = init_text; eofbit = false; failbit = false }) 0 0

abbrev one_block : List Block
one_block = (5, (12 ∷ 0 ∷ 0 ∷ 0 ∷ 0 ∷ 0 ∷ 0 ∷ 0 ∷ []) ∷ []) ∷ []

abbrev no_files : VolatileCatCache
no_files = record { systables = []; dbmeta_page = true }

abbrev one_field : Schema
one_field = construct (4 ∷ []) (0 ∷ []) (false ∷ []) []

abbrev one_laid : Schema
unfolding compute_layout construct
one_laid = or_else (compute_layout find_type call_length one_field) one_field

-- The reader behind its first, its second and its last line.
abbrev after_table : Reader
after_table = record {
  input = record {
    left = 100 ∷ 97 ∷ 116 ∷ 97 ∷ 32 ∷ 49 ∷ 50 ∷ 10 ∷ [];
    eofbit = false;
    failbit = false;
  };
  lineno = 1;
  last_state = table;
  tabid = 5;
  schema = some one_laid;
  infuncs = (4, some 14) ∷ [];
}

abbrev after_row : Reader
after_row = record after_table {
  input = record { left = []; eofbit = false; failbit = false };
  lineno = 2;
  last_state = data_line;
}

abbrev at_end : Reader
at_end = record after_row {
  input = record { left = []; eofbit = true; failbit = true };
  lineno = 3;
  last_state = eof;
}

abbrev twelve : List ℕ
twelve = 12 ∷ 0 ∷ 0 ∷ 0 ∷ 0 ∷ 0 ∷ 0 ∷ 0 ∷ []

first_read : next services init_reader ≡ ok (after_table, none)
unfolding construct_reader next find_next_token getline compute_layout create find_infuncs construct
first_read = refl

second_read : next services after_table ≡ ok (after_row, some (twelve, length twelve))
unfolding next find_next_token getline input_value read_values write_payload store to_bytes
    compute_layout construct
second_read = refl

third_read : next services after_row ≡ ok (at_end, none)
unfolding next getline compute_layout construct
third_read = refl

init_reader-Reads : Reads services init_reader (lines_of one_block)
init_reader-Reads = table_read {r' = after_table} {rec = none} {t = 5} first_read refl refl (
    row_read {r' = after_row} {buf = twelve} second_read refl
      (ended {r' = at_end} {rec = none} third_read refl))

load_init_file-HoldsBlocks_example :
    (c' : VolatileCatCache) × (load_init_file volatile_files services 3 init_reader no_files
      ≡ ok (map_of 0 one_block [], c'))
    × (length c'.systables ≡ 1)
    × ((i : ℕ) → i < 0 → get_elem? c'.systables i ≡ none)
    × HoldsBlocks 0 one_block c'
load_init_file-HoldsBlocks_example =
    load_init_file-HoldsBlocks services 3 init_reader one_block no_files init_reader-Reads
      (omega arith) ((λ e. omega arith), omega arith, omega arith, (omega arith, refl, tt), tt)
      (omega arith)
