-- ===== src/Volatile/InPlace.antt =====
-- UpdateCurrentCatEntry of src/catalog/VolatileCatCache.cpp where the new record fits.
use database_systems.Common.{
  ℕ, ◌+◌, ◌-◌, ◌≤◌, ◌<◌, true, ◌&&◌, List, ◌++◌, some, length, get_elem?, set, take, drop, ltb, leb,
  store, ok, overwrite, ◌≡◌, ◌≢◌, refl, ap, ◌∙◌, arith, drop-length, length-set, length-take,
  get_elem?-set_self, get_elem?-set_ne,
}
use database_systems.Volatile.Files.{
  InmemFile, VolatileCatCache, CatFileIterator, current_index, update_current_cat_entry, entry_room,
  get_current_cat_entry, get_current_cat_entry_record_id, asserted_file,
}

store_within :
    (b rec : List ℕ) (at : ℕ)
    → at + length rec ≤ length b
    → store b at rec ≡ some (take at b ++ (rec ++ drop (at + length rec) b))
unfolding store
store_within b rec at h = rw inside refl
  where
    inside : leb (at + length rec) (length b) ≡ true
    inside = ground arith

drop-take : (b rest : List ℕ) (at : ℕ) → at ≤ length b → drop at (take at b ++ rest) ≡ rest
drop-take b rest at h = ap (λ n. drop n (take at b ++ rest)) kept ∙ drop-length (take at b) rest
  where
    kept : at ≡ length (take at b)
    kept = omega (arith, length-take at b)

-- UpdateCurrentCatEntry on an iterator that stands on a valid entry of an open file, with a record
-- that is not longer than the entry's room, which lies within the file: it succeeds, the record
-- has the entry's record ID, no other file changes, the flags and the offsets stay, the file's
-- bytes are the old ones with the record in place of as many from the entry's offset on, and the
-- bytes of the current entry are the record followed by what was behind it.
pub update_current_cat_entry_in_place :
    (iter : CatFileIterator) (c : VolatileCatCache) (f : InmemFile) (rec : List ℕ) (offset room : ℕ)
    → 1 < iter.fid
    → iter.fid ≤ length c.systables + 1
    → get_elem? c.systables (iter.fid - 2) ≡ some f
    → get_elem? f.valid (current_index iter) ≡ some true
    → current_index iter < length f.offsets
    → get_elem? f.offsets (current_index iter) ≡ some offset
    → entry_room f (current_index iter) ≡ ok room
    → length rec ≤ room
    → offset + room ≤ length f.bytes
    → (c' : VolatileCatCache) × (f' : InmemFile) × (update_current_cat_entry iter rec c
        ≡ ok (get_current_cat_entry_record_id iter, c'))
      × (get_elem? c'.systables (iter.fid - 2) ≡ some f')
      × ((f'.valid ≡ f.valid)
          × (f'.offsets ≡ f.offsets)
          × (f'.bytes ≡ overwrite f.bytes offset rec))
      × (get_current_cat_entry iter c' ≡ ok (rec ++ drop (offset + length rec) f.bytes))
      × ((i : ℕ) → iter.fid - 2 ≢ i → get_elem? c'.systables i ≡ get_elem? c.systables i)
unfolding update_current_cat_entry get_current_cat_entry get_current_cat_entry_record_id
update_current_cat_entry_in_place iter c f rec offset room low high here flag counted place space
      fits within =
    (
      record c { systables = tables },
      after,
      rw (opened, flag, below, space, enough, place, store_within f.bytes rec offset (omega arith))
          refl,
      stored,
      (refl, refl, refl),
      rw (opened', flag, below, place)
          (ap ok
            (drop-take f.bytes (rec ++ drop (offset + length rec) f.bytes) offset (omega arith))),
      λ i other. get_elem?-set_ne c.systables after other,
    )
  where
    after : InmemFile
    after = record f { bytes = take offset f.bytes ++ (rec ++ drop (offset + length rec) f.bytes) }

    tables : List InmemFile
    tables = set c.systables (iter.fid - 2) after

    inside : (ltb 1 iter.fid && leb iter.fid (length c.systables + 1)) ≡ true
    inside = ground arith

    inside' : (ltb 1 iter.fid && leb iter.fid (length tables + 1)) ≡ true
    inside' = ground (arith, length-set c.systables (iter.fid - 2) after)

    stored : get_elem? tables (iter.fid - 2) ≡ some after
    stored = get_elem?-set_self c.systables (iter.fid - 2) after (omega arith)

    opened : asserted_file iter.fid c ≡ ok f
    opened = rw (inside, here) refl

    opened' : asserted_file iter.fid (record c { systables = tables }) ≡ ok after
    opened' = rw (inside', stored) refl

    below : ltb (current_index iter) (length f.offsets) ≡ true
    below = ground arith

    enough : leb (length rec) room ≡ true
    enough = ground arith
