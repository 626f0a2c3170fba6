-- ===== src/Volatile/ReadBack.antt =====
-- A record that AppendRecord of src/catalog/VolatileCatCache.cpp has added, looked up again by the
-- record ID that it was given.
use database_systems.Common.{
  ℕ, zero, suc, ◌+◌, ◌-◌, ◌%◌, ◌^◌, ◌≤◌, ◌<◌, Bool, true, ◌&&◌, List, [], ◌∷◌, ◌++◌, some, length,
  get_elem?, set, drop, replicate, ltb, leb, ◌==◌, if◌then◌else◌, Result, ok, throws, error, ◌>>=◌,
  ◌≡◌, ◌≢◌, refl, ap, ◌∙◌, arith, drop-length, length-append, length-set, get_elem?-set_self,
  get_elem?-set_ne,
}
use database_systems.Storage.RecordId.{RecordId}
use database_systems.Volatile.Files.{
  InmemFile, VolatileCatCache, find_valid, next_cat_entry, append_record, iterate_cat_entry_from,
  get_current_cat_entry, asserted_file,
}
use database_systems.Volatile.Appends.{append_to_appends, IsAligned}

-- IterateCatEntryFrom, NextCatEntry and GetCurrentCatEntry, in this order.
abbrev pub read_at : ℕ → RecordId → VolatileCatCache → Result (List ℕ)
read_at fh rid c = do
  iter ← iterate_cat_entry_from fh rid c
  moved ← next_cat_entry iter c
  let (found, iter') = moved
  if found then get_current_cat_entry iter' c else throws error

last_elem {ℓ} :
    {A : Type ℓ} (xs : List A) (a : A) (n : ℕ)
    → length xs ≡ n
    → get_elem? (xs ++ (a ∷ [])) n ≡ some a
last_elem [] a zero h = refl
last_elem [] a (suc n) h = absurd (omega arith)
last_elem (x ∷ xs) a zero h = absurd (omega arith)
last_elem (x ∷ xs) a (suc n) h = last_elem xs a n (omega arith)

find_here :
    (valid : List Bool) (n : ℕ) → get_elem? valid n ≡ some true → find_valid valid n 1 ≡ ok (some n)
unfolding find_valid
find_here valid n h = rw h refl

-- A file at the end of whose entries a valid one stands, seen from that entry's record ID.
read_last :
    (c : VolatileCatCache) (g : InmemFile) (fh n offset : ℕ)
    → (ltb 1 fh && leb fh (length c.systables + 1)) ≡ true
    → get_elem? c.systables (fh - 2) ≡ some g
    → n < 65534
    → length g.offsets ≡ n + 1
    → get_elem? g.valid n ≡ some true
    → get_elem? g.offsets n ≡ some offset
    → read_at fh (record { pid = fh; sid = n }) c ≡ ok (drop offset g.bytes)
unfolding iterate_cat_entry_from next_cat_entry get_current_cat_entry
read_last c g fh n offset opened here few count flag place =
    rw
      (
        opened,
        here,
        same,
        last,
        opened_file,
        inside,
        alone,
        find_here g.valid n flag,
        opened_file,
        back,
        flag,
        below,
        place,
      )
      refl
  where
    opened_file : asserted_file fh c ≡ ok g
    opened_file = rw (opened, here) refl

    same : (fh == fh) ≡ true
    same = ground arith

    last : length g.offsets % 2 ^ 16 ≡ n + 1
    last = omega arith

    inside : leb (n + 1) (length g.offsets) ≡ true
    inside = ground arith

    alone : n + 1 - n ≡ 1
    alone = omega arith

    back : ((n + 1) % 2 ^ 16 + 65535) % 2 ^ 16 ≡ n
    back = omega arith

    below : ltb n (length g.offsets) ≡ true
    below = ground arith

-- AppendRecord to an open file with an aligned end, fewer than 65534 records and less than 2 ^ 63
-- bytes, of a record of less than 2 ^ 15 bytes: it succeeds, no other file changes, the record ID is
-- the file's ID with the number of records before, and an iterator from this record ID moves to an
-- entry whose bytes begin with the record, up to padding of zeros.
pub append_then_read :
    (c : VolatileCatCache) (f : InmemFile) (fh : ℕ) (rec : List ℕ)
    → 1 < fh
    → fh ≤ length c.systables + 1
    → get_elem? c.systables (fh - 2) ≡ some f
    → IsAligned f
    → length f.offsets < 65534
    → length f.bytes < 2 ^ 63
    → length rec < 32768
    → (c' : VolatileCatCache) × (pad : ℕ) × (let rid : RecordId = record {
      pid = fh;
      sid = length f.offsets;
    } in
        (append_record fh rec c ≡ ok (rid, c')) × (read_at fh rid c' ≡ ok (rec ++ replicate pad 0)))
      × ((i : ℕ) → fh - 2 ≢ i → get_elem? c'.systables i ≡ get_elem? c.systables i)
unfolding append_record
append_then_read c f fh rec low high here aligned few small short =
    let (g, pad, appended, bytes, padded, offsets, valid, aligned') =
      append_to_appends f rec aligned few small short in
    let (flags, end) = aligned in
    let count : length g.offsets ≡ length f.offsets + 1 =
      omega (arith, ap length offsets, length-append f.offsets (length f.bytes ∷ [])) in
    (
      record c { systables = set c.systables (fh - 2) g },
      pad,
      (
        rw (inside, here, appended, id_lem g count) refl,
        read_last (record c { systables = set c.systables (fh - 2) g }) g fh (length f.offsets)
              (length f.bytes) (ground (arith, length-set c.systables (fh - 2) g))
              (get_elem?-set_self c.systables (fh - 2) g (omega arith)) few count
              (ap (λ l. get_elem? l (length f.offsets)) valid
                ∙ last_elem f.valid true (length f.offsets) flags)
              (ap (λ l. get_elem? l (length f.offsets)) offsets
                ∙ last_elem f.offsets (length f.bytes) (length f.offsets) refl)
            ∙ ap ok
                (ap (drop (length f.bytes)) bytes ∙ drop-length f.bytes (rec ++ replicate pad 0)),
      ),
      λ i other. get_elem?-set_ne c.systables g other,
    )
  where
    inside : (ltb 1 fh && leb fh (length c.systables + 1)) ≡ true
    inside = ground arith

    id_lem :
        (g : InmemFile)
        → length g.offsets ≡ length f.offsets + 1
        → (length g.offsets - 1) % 2 ^ 16 ≡ length f.offsets
    id_lem g e = omega arith
