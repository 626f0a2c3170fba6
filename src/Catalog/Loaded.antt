-- ===== src/Catalog/Loaded.antt =====
-- LoadInitFile of src/catalog/CatCacheBase_private.inc over the files of VolatileCatCache: what the
-- files are after the lines of a reader.
use database_systems.Common.{
  ℕ, zero, suc, ◌<◌, Bool, false, List, [], ◌∷◌, Option, some, length, if◌then◌else◌, Result, ok,
  throws, undefined, ◌>>=◌, ◌≡◌, refl, arith,
}
use database_systems.Reader.State.{eof, table, data_line, Services, Reader}
use database_systems.Reader.Next.{next}
use database_systems.Catalog.Interface.{CatalogFiles}
use database_systems.Catalog.Load.{Loading, load_table, load_data, load_line, load_lines}

-- What a call of the reader gives: a table line with its table ID, or a data line with its record.
pub data InitLine : Type 0 where
  table_line : ℕ → InitLine
  row_line : List ℕ → InitLine

-- The calls of the reader give these lines and then the end of the file.
pub data Reads (services : Services) : Reader → List InitLine → Type 0 where
  ended :
      {r r' : Reader} {rec : Option (List ℕ × ℕ)}
      → next services r ≡ ok (r', rec)
      → r'.last_state ≡ eof
      → Reads services r []
  table_read :
      {r r' : Reader} {rec : Option (List ℕ × ℕ)} {t : ℕ} {lines : List InitLine}
      → next services r ≡ ok (r', rec)
      → r'.last_state ≡ table
      → r'.tabid ≡ t
      → Reads services r' lines
      → Reads services r (table_line t ∷ lines)
  row_read :
      {r r' : Reader} {buf : List ℕ} {lines : List InitLine}
      → next services r ≡ ok (r', some (buf, length buf))
      → r'.last_state ≡ data_line
      → Reads services r' lines
      → Reads services r (row_line buf ∷ lines)

module _ (io : CatalogFiles) where
  -- What LoadInitFile does with the lines.
  unfoldable pub use_lines : List InitLine → Loading io → Result (Loading io)
  use_lines [] l = ok l
  use_lines (table_line t ∷ lines) l = load_table io t l >>= use_lines lines
  use_lines (row_line buf ∷ lines) l = load_data io buf (length buf) l >>= use_lines lines

  abbrev not_done : Loading io → Result (Bool × Loading io)
  not_done l = ok (false, l)

  going_on :
      (m : Result (Loading io)) {k k' : Loading io → Result (Loading io)}
      → ((l : Loading io) → k l ≡ k' l)
      → ((m >>= not_done) >>= λ x. if x.0 then ok x.1 else k x.1) ≡ (m >>= k')
  going_on (ok l) h = h l
  going_on (throws e) h = refl
  going_on undefined h = refl

  pub load_lines-use_lines :
      (services : Services) (fuel : ℕ) (r : Reader) (lines : List InitLine) (l : Loading io)
      → Reads services r lines
      → length lines < fuel
      → load_lines io services fuel r l ≡ use_lines lines l
  unfolding load_lines load_line use_lines
  load_lines-use_lines services zero r lines l reads h = elim h [ ]
  load_lines-use_lines services (suc fuel) r [] l (ended e s) h = simp (e, s)
  load_lines-use_lines services (suc fuel) r (table_line t ∷ lines) l
        (table_read {r' = r'} e s same reads) h =
      simp (e, s, same)
        (going_on (load_table io t l)
          (λ k. load_lines-use_lines services fuel r' lines k reads (omega arith)))
  load_lines-use_lines services (suc fuel) r (row_line buf ∷ lines) l (row_read {r' = r'} e s reads)
        h =
      simp (e, s)
        (going_on (load_data io buf (length buf) l)
          (λ k. load_lines-use_lines services fuel r' lines k reads (omega arith)))
