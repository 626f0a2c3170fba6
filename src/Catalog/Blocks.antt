-- ===== src/Catalog/Blocks.antt =====
-- The lines of one table in LoadInitFile of src/catalog/CatCacheBase_private.inc, over the files of
-- VolatileCatCache.
use database_systems.Common.{
  ℕ, ◌+◌, ◌%◌, ◌^◌, ◌<◌, true, false, not, ◌&&◌, List, [], ◌∷◌, ◌++◌, length, take, ◌==◌, leb,
  Result, ok, throws, undefined, ◌>>=◌, check, fatal, ◌≡◌, ◌≢◌, ◌⊎◌, inl, inr, refl, ap, sym, ◌∙◌,
  arith, length-append, take_enough,
}
use database_systems.Base.Align.{max_align, max_align_lem}
use database_systems.Storage.RecordId.{RecordId}
use database_systems.Volatile.Files.{
  InmemFile, VolatileCatCache, empty_file, create_catalog_file, open_catalog_file, append_record,
}
use database_systems.Catalog.State.{emplace_entry, oid_key}
use database_systems.Catalog.Load.{Loading, load_table, file_for_table, load_data}
use database_systems.Catalog.Loaded.{InitLine, table_line, row_line, use_lines}
use database_systems.Catalog.Rows.{AllShort, append_all}
use database_systems.Catalog.Volatile.{volatile_files}

-- A table ID with the records of its data lines.
abbrev pub Block : Type 0
Block = ℕ × List (List ℕ)

abbrev pub row_lines : List (List ℕ) → List InitLine
row_lines [] = []
row_lines (p ∷ ps) = row_line p ∷ row_lines ps

abbrev pub lines_of : List Block → List InitLine
lines_of [] = []
lines_of ((t, rows) ∷ bs) = table_line t ∷ (row_lines rows ++ lines_of bs)

-- The map that the blocks give when their files come from index `n` on.
abbrev pub map_of : ℕ → List Block → List (ℕ × ℕ) → List (ℕ × ℕ)
map_of n [] m = m
map_of n ((t, rows) ∷ bs) m = map_of (n + 1) bs (emplace_entry t (n + 2) m)

-- Records of less than 2 ^ 15 bytes, in whole units of 8.
abbrev pub AllRows : List (List ℕ) → Type 0
AllRows [] = Unit {0}
AllRows (p ∷ ps) = (length p < 32768) × (length p % 8 ≡ 0) × AllRows ps

pub AllRows-AllShort : (ps : List (List ℕ)) → AllRows ps → AllShort ps
AllRows-AllShort [] a = tt
AllRows-AllShort (p ∷ ps) (s, m, a) = (s, AllRows-AllShort ps a)

abbrev pub L : Type 0
L = Loading volatile_files

chained :
    (m : Result L) (k f g : L → Result L)
    → ((l : L) → k l ≡ (f l >>= g))
    → (m >>= k) ≡ ((m >>= f) >>= g)
chained (ok l) k f g h = h l
chained (throws e) k f g h = refl
chained undefined k f g h = refl

pub use_lines-append :
    (xs ys : List InitLine) (l : L)
    → use_lines volatile_files (xs ++ ys) l
      ≡ (use_lines volatile_files xs l >>= use_lines volatile_files ys)
unfolding use_lines
use_lines-append [] ys l = refl
use_lines-append (table_line t ∷ xs) ys l =
    chained (load_table volatile_files t l) (use_lines volatile_files (xs ++ ys))
      (use_lines volatile_files xs) (use_lines volatile_files ys) (use_lines-append xs ys)
use_lines-append (row_line b ∷ xs) ys l =
    chained (load_data volatile_files b (length b) l) (use_lines volatile_files (xs ++ ys))
      (use_lines volatile_files xs) (use_lines volatile_files ys) (use_lines-append xs ys)

whole_row : (p : List ℕ) → take (length p) p ≡ p
whole_row p = take_enough (length p) p (omega arith)

abbrev pub with_files : L → VolatileCatCache → Result L
with_files l s = ok (record l { files = s })

-- Data lines while the table's file is open.
rows_run :
    (rows : List (List ℕ)) (l : L)
    → l.fid ≢ 0
    → AllRows rows
    → use_lines volatile_files (row_lines rows) l ≡ (append_all l.fid rows l.files >>= with_files l)
unfolding use_lines load_data file_for_table append_all
rows_run [] l is_open a = refl
rows_run (p ∷ ps) l is_open (short, units, a) =
    rw (aligned, given, whole_row p)
      (on (append_record l.fid p l.files) λ s. rows_run ps (record l { files = s }) is_open a)
  where
    aligned : (max_align (length p) == length p) ≡ true
    aligned = ground (arith, max_align_lem (length p) (omega arith))

    given : (l.fid == 0) ≡ false
    given = ground arith

    on :
        (m : Result (RecordId × VolatileCatCache))
        → ((s : VolatileCatCache)
            → use_lines volatile_files (row_lines ps) (record l { files = s })
              ≡ (append_all l.fid ps s >>= with_files l))
        → ((m >>= λ x. with_files l x.1) >>= use_lines volatile_files (row_lines ps))
          ≡ ((m >>= λ x. append_all l.fid ps x.1) >>= with_files l)
    on (ok x) h = h x.1
    on (throws e) h = refl
    on undefined h = refl

-- Between two tables, a file is open exactly if there was a table.
abbrev pub IsBetween : L → Type 0
IsBetween l = ((l.tabid ≡ 0) × (l.fid ≡ 0)) ⊎ ((l.tabid ≢ 0) × (l.fid ≢ 0))

table_run :
    (t : ℕ) (l : L)
    → IsBetween l
    → load_table volatile_files t l ≡ ok (record l { tabid = t; fid = 0 })
unfolding load_table
table_run t l (inl (a, b)) = ground arith
table_run t l (inr (a, b)) = ground arith

-- The first data line of a table creates its file.
file_run :
    (l : L)
    → l.fid ≡ 0
    → length l.files.systables + 3 < 2 ^ 32
    → file_for_table volatile_files l
      ≡ ok (record l {
        fid = length l.files.systables + 2;
        tabid2fid = emplace_entry l.tabid (length l.files.systables + 2) l.tabid2fid;
        files = record l.files { systables = l.files.systables ++ (empty_file ∷ []) };
      })
unfolding file_for_table create_catalog_file open_catalog_file
file_run l closed small = rw (none_open, valid, count) refl
  where
    tables : List InmemFile
    tables = l.files.systables ++ (empty_file ∷ [])

    none_open : (l.fid == 0) ≡ true
    none_open = ground arith

    grown : length tables ≡ length l.files.systables + 1
    grown = length-append l.files.systables (empty_file ∷ [])

    valid :
        (not ((length tables + 1) % 2 ^ 32 == 0)
          && leb ((length tables + 1) % 2 ^ 32) (length tables + 1))
        ≡ true
    valid = ground (arith, grown)

    count : (length tables + 1) % 2 ^ 32 ≡ length l.files.systables + 2
    count = omega (arith, grown)

file_stays : (l : L) → l.fid ≢ 0 → file_for_table volatile_files l ≡ ok l
unfolding file_for_table
file_stays l h = rw given refl
  where
    given : (l.fid == 0) ≡ false
    given = ground arith

-- The variables when a table's file has just been created.
abbrev pub begun : ℕ → L → L
begun t l = record l {
  tabid = t;
  fid = length l.files.systables + 2;
  tabid2fid = emplace_entry t (length l.files.systables + 2) l.tabid2fid;
  files = record l.files { systables = l.files.systables ++ (empty_file ∷ []) };
}

-- The lines of a table with at least one record.
pub block_run :
    (t : ℕ) (p : List ℕ) (ps : List (List ℕ)) (l : L)
    → IsBetween l
    → length l.files.systables + 3 < 2 ^ 32
    → AllRows (p ∷ ps)
    → use_lines volatile_files (table_line t ∷ row_lines (p ∷ ps)) l ≡ (
        append_all (length l.files.systables + 2) (p ∷ ps) (begun t l).files
        >>= with_files (begun t l))
unfolding use_lines load_data
block_run t p ps l between small a = rw (table_run t l between) (
    ap
      (λ m.
        (check (max_align (length p) == length p) fatal >>= λ _. (m >>= added))
        >>= use_lines volatile_files (row_lines ps))
      (file_run (record l { tabid = t; fid = 0 }) refl small ∙ sym already)
    ∙ rows_run (p ∷ ps) (begun t l) (λ e. omega arith) a)
  where
    added : L → Result L
    added k = append_record k.fid (take (length p) p) k.files >>= λ x. with_files k x.1

    already : file_for_table volatile_files (begun t l) ≡ ok (begun t l)
    already = file_stays (begun t l) (λ e. omega arith)
