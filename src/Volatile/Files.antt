-- ===== src/Volatile/Files.antt =====
-- The files of VolatileCatCache and the operations on them, with assertions enabled: a heap file is
-- a vector of bytes with the records one after another, their offsets, and whether each is valid.
use database_systems.Common.{
  ℕ, zero, suc, ◌+◌, ◌-◌, ◌%◌, ◌^◌, Bool, true, false, not, ◌&&◌, List, [], ◌∷◌, ◌++◌, Option, none,
  some, length, get_elem?, set, drop, resize, ltb, leb, ◌==◌, if◌then◌else◌, store, Result, ok,
  fatal, ◌>>=◌, ◌>>◌, check, or_undefined,
}
use database_systems.Base.Align.{max_align_size}
use database_systems.Storage.RecordId.{RecordId}

pub record InmemFile : Type 0 where
  pub bytes : List ℕ
  pub offsets : List ℕ
  pub valid : List Bool

pub record VolatileCatCache : Type 0 where
  pub systables : List InmemFile
  -- Whether the page for the meta file is allocated.
  pub dbmeta_page : Bool

pub record CatFileIterator : Type 0 where
  pub fid : ℕ
  pub nextidx : ℕ
  pub endidx : ℕ

abbrev pub empty_file : InmemFile
empty_file = record { bytes = []; offsets = []; valid = [] }

unfoldable pub create_catalog_file : Bool → VolatileCatCache → Result (ℕ × VolatileCatCache)
create_catalog_file true c =
    let tables = c.systables ++ (empty_file ∷ []) in
    ok ((length tables + 1) % 2 ^ 32, record c { systables = tables })
create_catalog_file false c = do
  check (not c.dbmeta_page) fatal
  ok (1, record c { dbmeta_page = true })

unfoldable pub open_catalog_file : ℕ → VolatileCatCache → Result ℕ
open_catalog_file fid c = do
  check (not (fid == 0) && leb fid (length c.systables + 1)) fatal
  ok fid

-- `m_systables[fid - 2]`, behind the test of the callers that assert.
abbrev pub asserted_file : ℕ → VolatileCatCache → Result InmemFile
asserted_file fid c = do
  check (ltb 1 fid && leb fid (length c.systables + 1)) fatal
  or_undefined (get_elem? c.systables (fid - 2))

-- What AppendRecord does to the file. The record's length is a FieldOffset that is not negative.
unfoldable pub append_to : InmemFile → List ℕ → Result InmemFile
append_to f rec = do
  check (ltb (length f.offsets) 65534) fatal
  let offset = length f.bytes
  check (max_align_size offset == offset) fatal
  grown ← or_undefined (store (resize 0 f.bytes (max_align_size (offset + length rec))) offset rec)
  ok (record {
    bytes = grown;
    offsets = f.offsets ++ (offset ∷ []);
    valid = f.valid ++ (true ∷ []);
  })

unfoldable pub append_record : ℕ → List ℕ → VolatileCatCache → Result (RecordId × VolatileCatCache)
append_record fh rec c = do
  check (ltb 1 fh && leb fh (length c.systables + 1)) fatal
  f ← or_undefined (get_elem? c.systables (fh - 2))
  g ← append_to f rec
  ok (
    record { pid = fh; sid = (length g.offsets - 1) % 2 ^ 16 },
    record c { systables = set c.systables (fh - 2) g },
  )

unfoldable pub iterate_cat_entry : ℕ → VolatileCatCache → Result CatFileIterator
iterate_cat_entry fh c = do
  f ← asserted_file fh c
  ok (record { fid = fh; nextidx = 0; endidx = length f.offsets % 2 ^ 16 })

unfoldable pub iterate_cat_entry_from : ℕ → RecordId → VolatileCatCache → Result CatFileIterator
iterate_cat_entry_from fh rid c = do
  check (ltb 1 fh && leb fh (length c.systables + 1)) fatal
  check (fh == rid.pid) fatal
  f ← or_undefined (get_elem? c.systables (fh - 2))
  ok (record { fid = fh; nextidx = rid.sid; endidx = length f.offsets % 2 ^ 16 })

-- The loop of NextCatEntry, in at most `n` rounds: the first valid index at or after `i`, if the
-- loop finds one.
unfoldable pub find_valid : List Bool → ℕ → ℕ → Result (Option ℕ)
find_valid valid i zero = ok none
find_valid valid i (suc n) =
    let rest = find_valid valid (i + 1) n in
    or_undefined (get_elem? valid i) >>= λ v. if v then ok (some i) else rest

unfoldable pub next_cat_entry : CatFileIterator → VolatileCatCache → Result (Bool × CatFileIterator)
next_cat_entry iter c = do
  f ← asserted_file iter.fid c
  check (leb iter.endidx (length f.offsets)) fatal
  found ← find_valid f.valid iter.nextidx (iter.endidx - iter.nextidx)
  elim found [
    | none ↦ ok (false, record iter { nextidx = (iter.endidx + 1) % 2 ^ 16 })
    | some i ↦ ok (true, record iter { nextidx = (i + 1) % 2 ^ 16 })
  ]

-- `iter.m_nextidx - 1` as a `uint16_t`.
abbrev pub current_index : CatFileIterator → ℕ
current_index iter = (iter.nextidx + 65535) % 2 ^ 16

-- `ASSERT(f->m_valid[cur_idx])` reads the vector before the index is tested.
abbrev pub asserted_valid : InmemFile → ℕ → Result (Unit {0})
asserted_valid f i = do
  v ← or_undefined (get_elem? f.valid i)
  check v fatal
  check (ltb i (length f.offsets)) fatal

-- The bytes from the entry's offset on.
unfoldable pub get_current_cat_entry : CatFileIterator → VolatileCatCache → Result (List ℕ)
get_current_cat_entry iter c = do
  f ← asserted_file iter.fid c
  asserted_valid f (current_index iter)
  offset ← or_undefined (get_elem? f.offsets (current_index iter))
  ok (drop offset f.bytes)

unfoldable pub get_current_cat_entry_record_id : CatFileIterator → RecordId
get_current_cat_entry_record_id iter = record { pid = iter.fid; sid = current_index iter }

-- The room that the entry at an index has.
unfoldable pub entry_room : InmemFile → ℕ → Result ℕ
entry_room f i = do
  offset ← or_undefined (get_elem? f.offsets i)
  if i == length f.offsets - 1
      then ok (length f.bytes - offset)
      else (do following ← or_undefined (get_elem? f.offsets (i + 1)); ok (following - offset))

unfoldable pub update_current_cat_entry :
    CatFileIterator → List ℕ → VolatileCatCache → Result (RecordId × VolatileCatCache)
update_current_cat_entry iter rec c = do
  let i = current_index iter
  f ← asserted_file iter.fid c
  asserted_valid f i
  room ← entry_room f i
  if leb (length rec) room
      then (do
        offset ← or_undefined (get_elem? f.offsets i)
        written ← or_undefined (store f.bytes offset rec)
        ok (
          record { pid = iter.fid; sid = i },
          record c { systables = set c.systables (iter.fid - 2) (record f { bytes = written }) },
        ))
      else (append_record iter.fid rec (record c {
        systables = set c.systables (iter.fid - 2) (record f { valid = set f.valid i false });
      }))
