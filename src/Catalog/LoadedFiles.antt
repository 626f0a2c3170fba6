-- ===== src/Catalog/LoadedFiles.antt =====
-- The files of VolatileCatCache after LoadInitFile of src/catalog/CatCacheBase_private.inc.
use database_systems.Common.{
  subst, ℕ, zero, suc, ◌+◌, ◌^◌, ◌<◌, List, [], ◌∷◌, ◌++◌, some, length, get_elem?, ok, ◌>>=◌, ◌≡◌,
  ◌≢◌, inl, inr, refl, ap, ◌∙◌, arith, length-append,
}
use database_systems.Volatile.Files.{InmemFile, VolatileCatCache, empty_file}
use database_systems.Reader.State.{Services, Reader}
use database_systems.Catalog.State.{oid_key}
use database_systems.Catalog.Load.{load_init_file}
use database_systems.Catalog.Loaded.{table_line, Reads, use_lines, load_lines-use_lines}
use database_systems.Catalog.Rows.{Extends, Appended, append_all, append_all-Appended}
use database_systems.Catalog.Volatile.{volatile_files}
use database_systems.Catalog.Blocks.{
  Block, row_lines, lines_of, map_of, AllRows, AllRows-AllShort, L, use_lines-append, with_files,
  IsBetween, begun, block_run,
}

-- The files from index `n` on hold the blocks' records.
abbrev pub HoldsBlocks : ℕ → List Block → VolatileCatCache → Type 0
HoldsBlocks n [] c = Unit {0}
HoldsBlocks n ((t, rows) ∷ bs) c =
    ((g : InmemFile) × (get_elem? c.systables n ≡ some g) × Extends empty_file g rows)
    × HoldsBlocks (n + 1) bs c

-- Tables with an ID and between 1 and 65534 records.
abbrev pub AllTables : List Block → Type 0
AllTables [] = Unit {0}
AllTables ((t, rows) ∷ bs) =
    (t ≢ 0) × (0 < length rows) × (length rows < 65535) × AllRows rows × AllTables bs

abbrev Ran : List Block → L → Type 0
Ran bs l =
    (k : L) × (use_lines volatile_files (lines_of bs) l ≡ ok k)
    × (k.tabid2fid ≡ map_of (length l.files.systables) bs l.tabid2fid)
    × (length k.files.systables ≡ length l.files.systables + length bs)
    × ((i : ℕ)
        → i < length l.files.systables
        → get_elem? k.files.systables i ≡ get_elem? l.files.systables i)
    × HoldsBlocks (length l.files.systables) bs k.files

element_at {ℓ} :
    {A : Type ℓ} (xs ys : List A) (a : A) → get_elem? (xs ++ (a ∷ ys)) (length xs) ≡ some a
element_at [] ys a = refl
element_at (x ∷ xs) ys a = element_at xs ys a

element_before {ℓ} :
    {A : Type ℓ} (xs ys : List A) (i : ℕ) → i < length xs → get_elem? (xs ++ ys) i ≡ get_elem? xs i
element_before [] ys i h = elim h [ ]
element_before (x ∷ xs) ys zero h = refl
element_before (x ∷ xs) ys (suc i) h = element_before xs ys i (omega arith)

begun-Appended :
    (t : ℕ) (ps : List (List ℕ)) (l : L)
    → length ps < 65535
    → AllRows ps
    → Appended
        (length l.files.systables + 2)
        (begun t l).files
        empty_file
        ps
        (append_all (length l.files.systables + 2) ps (begun t l).files)
begun-Appended t ps l few a =
    append_all-Appended (length l.files.systables + 2) ps (begun t l).files empty_file
      (ground (arith, grown))
      (ap (get_elem? (begun t l).files.systables) (omega arith)
        ∙ element_at l.files.systables [] empty_file)
      (refl, refl) (omega arith) (omega arith) (AllRows-AllShort ps a)
  where
    grown : length (l.files.systables ++ (empty_file ∷ [])) ≡ length l.files.systables + 1
    grown = length-append l.files.systables (empty_file ∷ [])

-- A table, and then the others.
then_blocks :
    (t : ℕ) (p : List ℕ) (ps : List (List ℕ)) (bs : List Block) (l : L)
    → IsBetween l
    → length l.files.systables + 3 < 2 ^ 32
    → AllRows (p ∷ ps)
    → Appended
        (length l.files.systables + 2)
        (begun t l).files
        empty_file
        (p ∷ ps)
        (append_all (length l.files.systables + 2) (p ∷ ps) (begun t l).files)
    → ((c : VolatileCatCache)
        → length c.systables ≡ length l.files.systables + 1
        → Ran bs (record (begun t l) { files = c }))
    → Ran ((t, p ∷ ps) ∷ bs) l
then_blocks t p ps bs l between small a (c, g, e, found, count, others, al, x) ih =
    let (k, ran, mapped, total, kept, held) = ih c counted in
    (
      k,
      use_lines-append (table_line t ∷ row_lines (p ∷ ps)) (lines_of bs) l
          ∙ ap (λ m. m >>= use_lines volatile_files (lines_of bs))
              (block_run t p ps l between small a)
          ∙ ap (λ m. (m >>= with_files (begun t l)) >>= use_lines volatile_files (lines_of bs)) e
          ∙ ran,
      mapped ∙ ap (λ i. map_of i bs (begun t l).tabid2fid) counted,
      omega (arith, total, counted),
      λ i h.
          kept i (omega (arith, counted))
          ∙ others i (λ d. omega arith)
          ∙ element_before l.files.systables (empty_file ∷ []) i h,
      (
        (g, kept n (omega (arith, counted)) ∙ ap (get_elem? c.systables) (omega arith) ∙ found, x),
        subst (λ i. HoldsBlocks i bs k.files) counted held,
      ),
    )
  where
    n : ℕ
    n = length l.files.systables

    counted : length c.systables ≡ length l.files.systables + 1
    counted = count ∙ length-append l.files.systables (empty_file ∷ [])

blocks_run :
    (bs : List Block) (l : L)
    → IsBetween l
    → length l.files.systables + length bs + 3 < 2 ^ 32
    → AllTables bs
    → Ran bs l
unfolding use_lines
blocks_run [] l between small a = (l, refl, refl, omega arith, λ i h. refl, tt)
blocks_run ((t, []) ∷ bs) l between small (id, filled, few, rows, a) = absurd (omega arith)
blocks_run ((t, p ∷ ps) ∷ bs) l between small (id, filled, few, rows, a) =
    then_blocks t p ps bs l between (omega arith) rows (begun-Appended t (p ∷ ps) l few rows)
      λ c counted.
        blocks_run bs (record (begun t l) { files = c }) (inr (id, λ e. omega arith))
          (omega (arith, counted)) a

-- LoadInitFile over the files of VolatileCatCache, where the reader gives table lines, each with a
-- table ID that is not 0 and followed by between 1 and 65534 data lines, whose records have less
-- than 2 ^ 15 bytes in whole units of 8, and then the end of the file; with more fuel than lines,
-- and room for the file IDs. It succeeds. The files that were there stay, and each table gets one
-- more file, in order, that holds just the records of its data lines as valid entries in order.
-- The map gives each table ID the ID of its file; of two tables with one ID the first counts.
pub load_init_file-HoldsBlocks :
    (services : Services) (fuel : ℕ) (r : Reader) (bs : List Block) (c : VolatileCatCache)
    → Reads services r (lines_of bs)
    → length (lines_of bs) < fuel
    → AllTables bs
    → length c.systables + length bs + 3 < 2 ^ 32
    → (c' : VolatileCatCache) × (load_init_file volatile_files services fuel r c
        ≡ ok (map_of (length c.systables) bs [], c'))
      × (length c'.systables ≡ length c.systables + length bs)
      × ((i : ℕ) → i < length c.systables → get_elem? c'.systables i ≡ get_elem? c.systables i)
      × HoldsBlocks (length c.systables) bs c'
unfolding load_init_file
load_init_file-HoldsBlocks services fuel r bs c reads enough tables small =
    let l : L = record { tabid = 0; fid = 0; tabid2fid = []; files = c } in
    let (k, ran, mapped, total, kept, held) = blocks_run bs l (inl (refl, refl)) small tables in
    (
      k.files,
      rw
          (
            load_lines-use_lines volatile_files services fuel r (lines_of bs) l reads enough,
            ran,
            mapped,
          )
          refl,
      total,
      kept,
      held,
    )
