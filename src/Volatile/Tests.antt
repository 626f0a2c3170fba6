-- ===== src/Volatile/Tests.antt =====
-- The theorems on VolatileCatCache at a cache with one file of two records, the first invalid.
use database_systems.Common.{
  some, ℕ, ◌<◌, true, false, List, [], ◌∷◌, ◌++◌, get_elem?, replicate, ok, ◌≡◌, ◌≢◌, ◌⊎◌, refl,
  arith,
}
use database_systems.Storage.RecordId.{RecordId}
use database_systems.Volatile.Files.{
  InmemFile, VolatileCatCache, CatFileIterator, next_cat_entry, append_record, append_to,
  get_current_cat_entry_record_id,
}
use database_systems.Volatile.Appends.{append_to_appends, IsAligned}
use database_systems.Volatile.ReadBack.{append_then_read, read_at}
use database_systems.Volatile.InPlace.{update_current_cat_entry_in_place}
use database_systems.Volatile.Files.{entry_room, update_current_cat_entry, get_current_cat_entry}
use database_systems.Common.{drop}
use database_systems.Volatile.Scan.{next_cat_entry_first, NoneValid, IsFirstValid}

abbrev one_file : InmemFile
one_file = record { bytes = replicate 16 7; offsets = 0 ∷ 8 ∷ []; valid = false ∷ true ∷ [] }

abbrev one_cache : VolatileCatCache
one_cache = record { systables = one_file ∷ []; dbmeta_page = false }

abbrev from_start : CatFileIterator
from_start = record { fid = 2; nextidx = 0; endidx = 2 }

abbrev three_bytes : List ℕ
three_bytes = 1 ∷ 2 ∷ 3 ∷ []

append_to_appends_example :
    (g : InmemFile) × (pad : ℕ) × (append_to one_file three_bytes ≡ ok g)
    × (g.bytes ≡ replicate 16 7 ++ (three_bytes ++ replicate pad 0))
    × (pad < 8)
    × (g.offsets ≡ 0 ∷ 8 ∷ 16 ∷ [])
    × (g.valid ≡ false ∷ true ∷ true ∷ [])
    × IsAligned g
append_to_appends_example =
    append_to_appends one_file three_bytes (refl, refl) (omega arith) (omega arith) (omega arith)

append_then_read_example :
    (c' : VolatileCatCache) × (pad : ℕ) × (let rid : RecordId = record { pid = 2; sid = 2 } in
      (append_record 2 three_bytes one_cache ≡ ok (rid, c'))
      × (read_at 2 rid c' ≡ ok (three_bytes ++ replicate pad 0)))
    × ((i : ℕ) → 0 ≢ i → get_elem? c'.systables i ≡ get_elem? one_cache.systables i)
append_then_read_example =
    append_then_read one_cache one_file 2 three_bytes (omega arith) (omega arith) refl (refl, refl)
      (omega arith) (omega arith) (omega arith)

next_cat_entry_first_example :
    ((iter' : CatFileIterator) × (next_cat_entry from_start one_cache ≡ ok (false, iter'))
      × NoneValid (false ∷ true ∷ []) 0 2)
    ⊎ ((iter' : CatFileIterator) × (k : ℕ) × (next_cat_entry from_start one_cache
          ≡ ok (true, iter'))
        × (get_current_cat_entry_record_id iter' ≡ record { pid = 2; sid = k })
        × IsFirstValid (false ∷ true ∷ []) 0 2 k)
next_cat_entry_first_example =
    next_cat_entry_first from_start one_cache one_file refl refl (omega arith) (omega arith)
      (omega arith)

-- The second entry, with 8 bytes of room.
abbrev at_second : CatFileIterator
at_second = record { fid = 2; nextidx = 2; endidx = 2 }

update_current_cat_entry_in_place_example :
    (c' : VolatileCatCache) × (f' : InmemFile) × (update_current_cat_entry at_second three_bytes
        one_cache
      ≡ ok (get_current_cat_entry_record_id at_second, c'))
    × (get_elem? c'.systables 0 ≡ some f')
    × ((f'.valid ≡ false ∷ true ∷ [])
        × (f'.offsets ≡ 0 ∷ 8 ∷ [])
        × (f'.bytes ≡ replicate 8 7 ++ (three_bytes ++ replicate 5 7)))
    × (get_current_cat_entry at_second c' ≡ ok (three_bytes ++ drop 11 (replicate 16 7)))
    × ((i : ℕ) → 0 ≢ i → get_elem? c'.systables i ≡ get_elem? one_cache.systables i)
unfolding entry_room
update_current_cat_entry_in_place_example =
    update_current_cat_entry_in_place at_second one_cache one_file three_bytes 8 8 (omega arith)
      (omega arith) refl refl (omega arith) refl refl (omega arith) (omega arith)
