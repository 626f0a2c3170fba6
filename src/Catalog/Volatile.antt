-- ===== src/Catalog/Volatile.antt =====
-- VolatileCatCache of src/catalog/VolatileCatCache.cpp as the class that CatCacheBase derives its
-- file access from, and what a scan of one of its files visits.
use database_systems.Common.{
  ℕ, suc, ◌+◌, ◌-◌, ◌%◌, ◌^◌, ◌≤◌, ◌<◌, Bool, true, false, List, [], ◌∷◌, some, length, get_elem?,
  drop, ok, leb, ltb, ◌≡◌, refl, ap, ◌∙◌, arith,
}
use database_systems.Storage.RecordId.{RecordId}
use database_systems.Volatile.Files.{
  InmemFile, VolatileCatCache, CatFileIterator, create_catalog_file, open_catalog_file,
  append_record, iterate_cat_entry, iterate_cat_entry_from, next_cat_entry, find_valid,
  get_current_cat_entry, get_current_cat_entry_record_id, update_current_cat_entry, asserted_file,
}
use database_systems.Catalog.Interface.{CatalogFiles, Scans, ended, entry}

abbrev pub volatile_files : CatalogFiles
volatile_files = record {
  Files = VolatileCatCache;
  Iterator = CatFileIterator;
  create_file = create_catalog_file;
  open_catalog = open_catalog_file;
  append = append_record;
  iterate = iterate_cat_entry;
  iterate_from = iterate_cat_entry_from;
  next_entry = next_cat_entry;
  current = get_current_cat_entry;
  current_id = get_current_cat_entry_record_id;
  update_current = update_current_cat_entry;
}

-- The valid entries from index `i` on, among flags and offsets that stand from there.
abbrev pub live : ℕ → List ℕ → ℕ → List Bool → List ℕ → List (RecordId × List ℕ)
live fh bytes i (true ∷ vs) (o ∷ os) =
    (record { pid = fh; sid = i }, drop o bytes) ∷ live fh bytes (i + 1) vs os
live fh bytes i (false ∷ vs) (o ∷ os) = live fh bytes (i + 1) vs os
live fh bytes i vs os = []

abbrev pub entries_of : ℕ → InmemFile → List (RecordId × List ℕ)
entries_of fh f = live fh f.bytes 0 f.valid f.offsets

Scans-same :
    (c : VolatileCatCache) (it it' : CatFileIterator) (es : List (RecordId × List ℕ))
    → next_cat_entry it c ≡ next_cat_entry it' c
    → Scans volatile_files c it' es
    → Scans volatile_files c it es
Scans-same c it it' [] e (ended n) = ended (e ∙ n)
Scans-same c it it' ((r, b) ∷ es) e (entry n g s more) = entry (e ∙ n) g s more

module _ (c : VolatileCatCache) (f : InmemFile) (fh : ℕ) (here : asserted_file fh c ≡ ok f)
    (flags : length f.valid ≡ length f.offsets) (small : length f.offsets < 65535) where
  at_index : ℕ → CatFileIterator
  at_index i = record { fid = fh; nextidx = i; endidx = length f.offsets }

  next_ended :
      (i : ℕ)
      → length f.offsets ≤ i
      → (it : CatFileIterator) × (next_cat_entry (at_index i) c ≡ ok (false, it))
  unfolding next_cat_entry find_valid at_index
  next_ended i h = (
    record (at_index i) { nextidx = (length f.offsets + 1) % 2 ^ 16 },
    rw (here, inside, over) refl,
  )
    where
      inside : leb (length f.offsets) (length f.offsets) ≡ true
      inside = ground arith

      over : length f.offsets - i ≡ 0
      over = omega arith

  next_live :
      (i : ℕ)
      → i < length f.offsets
      → get_elem? f.valid i ≡ some true
      → next_cat_entry (at_index i) c ≡ ok (true, at_index (i + 1))
  unfolding next_cat_entry find_valid at_index
  next_live i h v = rw (here, inside, left, v, wrapped) refl
    where
      inside : leb (length f.offsets) (length f.offsets) ≡ true
      inside = ground arith

      left : length f.offsets - i ≡ suc (length f.offsets - (i + 1))
      left = omega arith

      wrapped : (i + 1) % 2 ^ 16 ≡ i + 1
      wrapped = omega arith

  next_dead :
      (i : ℕ)
      → i < length f.offsets
      → get_elem? f.valid i ≡ some false
      → next_cat_entry (at_index i) c ≡ next_cat_entry (at_index (i + 1)) c
  unfolding next_cat_entry find_valid at_index
  next_dead i h v = rw (here, inside, left, v) refl
    where
      inside : leb (length f.offsets) (length f.offsets) ≡ true
      inside = ground arith

      left : length f.offsets - i ≡ suc (length f.offsets - (i + 1))
      left = omega arith

  current_at :
      (i o : ℕ)
      → i < length f.offsets
      → get_elem? f.valid i ≡ some true
      → get_elem? f.offsets i ≡ some o
      → get_current_cat_entry (at_index (i + 1)) c ≡ ok (drop o f.bytes)
  unfolding get_current_cat_entry at_index
  current_at i o h v place = rw (here, back, v, below, place) refl
    where
      back : (i + 1 + 65535) % 2 ^ 16 ≡ i
      back = omega arith

      below : ltb i (length f.offsets) ≡ true
      below = ground arith

  current_id_at :
      (i : ℕ)
      → i < length f.offsets
      → get_current_cat_entry_record_id (at_index (i + 1)) ≡ record { pid = fh; sid = i }
  unfolding get_current_cat_entry_record_id at_index
  current_id_at i h = ap (λ n. record { pid = fh; sid = n }) (omega arith)

  -- The elements from index `i` on.
  Stands : {A : Type 0} → ℕ → List A → List A → Type 0
  Stands i all rest = (j : ℕ) → get_elem? all (i + j) ≡ get_elem? rest j

  first-Stands :
      {A : Type 0} (i : ℕ) (all rest : List A) (a : A)
      → Stands i all (a ∷ rest)
      → get_elem? all i ≡ some a
  unfolding Stands
  first-Stands i all rest a h = ap (get_elem? all) (omega arith) ∙ h 0

  rest-Stands :
      {A : Type 0} (i : ℕ) (all rest : List A) (a : A)
      → Stands i all (a ∷ rest)
      → Stands (i + 1) all rest
  unfolding Stands
  rest-Stands i all rest a h j = ap (get_elem? all) (omega arith) ∙ h (suc j)

  scan_from :
      (i : ℕ) (vs : List Bool) (os : List ℕ)
      → i + length vs ≡ length f.offsets
      → i + length os ≡ length f.offsets
      → Stands i f.valid vs
      → Stands i f.offsets os
      → Scans volatile_files c (at_index i) (live fh f.bytes i vs os)
  scan_from i [] os p q v o = ended (next_ended i (omega arith)).1
  scan_from i (true ∷ vs) [] p q v o = absurd (omega arith)
  scan_from i (false ∷ vs) [] p q v o = absurd (omega arith)
  scan_from i (true ∷ vs) (place ∷ os) p q v o =
      entry (next_live i (omega arith) (first-Stands i f.valid vs true v))
        (current_at i place (omega arith) (first-Stands i f.valid vs true v)
          (first-Stands i f.offsets os place o))
        (current_id_at i (omega arith))
        (scan_from (i + 1) vs os (omega arith) (omega arith) (rest-Stands i f.valid vs true v)
          (rest-Stands i f.offsets os place o))
  scan_from i (false ∷ vs) (place ∷ os) p q v o =
      Scans-same c (at_index i) (at_index (i + 1)) (live fh f.bytes (i + 1) vs os)
        (next_dead i (omega arith) (first-Stands i f.valid vs false v))
        (scan_from (i + 1) vs os (omega arith) (omega arith) (rest-Stands i f.valid vs false v)
          (rest-Stands i f.offsets os place o))

  -- IterateCatEntry on an open file with as many flags as offsets and fewer than 65535 records
  -- gives an iterator. NextCatEntry, GetCurrentCatEntry and GetCurrentCatEntryRecordId from there
  -- on visit the valid entries in order, each once, with the bytes from its offset on, and end.
  pub iterate_cat_entry-Scans :
      (it : CatFileIterator) × (iterate_cat_entry fh c ≡ ok it)
      × Scans volatile_files c it (entries_of fh f)
  unfolding iterate_cat_entry at_index Stands
  iterate_cat_entry-Scans = (
    at_index 0,
    rw (here, whole) refl,
    scan_from 0 f.valid f.offsets (omega arith) (omega arith)
        (λ j. ap (get_elem? f.valid) (omega arith)) (λ j. ap (get_elem? f.offsets) (omega arith)),
  )
    where
      whole : length f.offsets % 2 ^ 16 ≡ length f.offsets
      whole = omega arith
