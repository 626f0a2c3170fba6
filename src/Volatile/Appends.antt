-- ===== src/Volatile/Appends.antt =====
-- AppendRecord of src/catalog/VolatileCatCache.cpp as an append to a log of aligned records.
use database_systems.Common.{
  ℕ, ◌+◌, ◌-◌, ◌*◌, ◌/◌, ◌%◌, ◌^◌, ◌≤◌, ◌<◌, true, List, [], ◌∷◌, ◌++◌, none, some, length, take,
  drop, replicate, resize, leb, ltb, ◌==◌, if◌then◌else◌, store, ok, ◌≡◌, refl, ap, ◌∙◌, arith,
  length-append, length-replicate, ap₂, take-length, take_enough, drop_further, drop-replicate,
}
use database_systems.Base.Align.{max_align_size, max_align_size_lem}
use database_systems.Volatile.Files.{InmemFile, append_to}

store_past :
    (buf tail rec : List ℕ)
    → length rec ≤ length tail
    → store (buf ++ tail) (length buf) rec ≡ some (buf ++ (rec ++ drop (length rec) tail))
unfolding store
store_past buf tail rec h =
    ap
      (λ c.
        if c
        then some (
            take (length buf) (buf ++ tail)
            ++ (rec ++ drop (length buf + length rec) (buf ++ tail)))
        else none)
      in_range
    ∙ ap some
        (ap₂ (λ l r. l ++ (rec ++ r)) (take-length buf tail) (drop_further buf tail (length rec)))
  where
    in_range : leb (length buf + length rec) (length (buf ++ tail)) ≡ true
    in_range = ground (arith, length-append buf tail)

-- Growing a buffer and writing past its old end appends.
pub store-resize :
    (buf rec : List ℕ) (size : ℕ)
    → length buf + length rec ≤ size
    → store (resize 0 buf size) (length buf) rec
      ≡ some (buf ++ (rec ++ replicate (size - length buf - length rec) 0))
store-resize buf rec size h =
    ap (λ l. store (l ++ replicate (size - length buf) 0) (length buf) rec)
      (take_enough size buf (omega arith))
    ∙ store_past buf (replicate (size - length buf) 0) rec
        (omega (arith, length-replicate {A = ℕ} (size - length buf) 0))
    ∙ ap (λ l. some (buf ++ (rec ++ l))) (drop-replicate (length rec) (size - length buf) 0)

-- A file that AppendRecord finds in order: as many flags as offsets, and an aligned end.
abbrev pub IsAligned : InmemFile → Type 0
IsAligned f = (length f.valid ≡ length f.offsets) × (length f.bytes % 8 ≡ 0)

-- AppendRecord's effect on a file with an aligned end, fewer than 65534 records and less than
-- 2 ^ 63 bytes, for a record of less than 2 ^ 15 bytes: it succeeds, the old bytes stay as they
-- are with the record and less than 8 zero bytes behind them, and the record's offset and flag
-- come last. The new file has an aligned end again.
pub append_to_appends :
    (f : InmemFile) (rec : List ℕ)
    → IsAligned f
    → length f.offsets < 65534
    → length f.bytes < 2 ^ 63
    → length rec < 32768
    → (g : InmemFile) × (pad : ℕ) × (append_to f rec ≡ ok g)
      × (g.bytes ≡ f.bytes ++ (rec ++ replicate pad 0))
      × (pad < 8)
      × (g.offsets ≡ f.offsets ++ (length f.bytes ∷ []))
      × (g.valid ≡ f.valid ++ (true ∷ []))
      × IsAligned g
unfolding append_to
append_to_appends f rec (flags, aligned) few small short = (
  record {
    bytes = f.bytes ++ (rec ++ replicate pad 0);
    offsets = f.offsets ++ (offset ∷ []);
    valid = f.valid ++ (true ∷ []);
  },
  pad,
  rw (room, fixed, store-resize f.bytes rec size enough) refl,
  refl,
  omega (arith, size_lem),
  refl,
  refl,
  (
    omega (arith, length-append f.valid (true ∷ []), length-append f.offsets (offset ∷ [])),
    omega (
      arith,
      size_lem,
      length-append f.bytes (rec ++ replicate pad 0),
      length-append rec (replicate pad 0),
      length-replicate {A = ℕ} pad 0,
    ),
  ),
)
  where
    offset : ℕ
    offset = length f.bytes

    size : ℕ
    size = max_align_size (offset + length rec)

    pad : ℕ
    pad = size - offset - length rec

    size_lem : size ≡ (offset + length rec + 7) / 8 * 8
    size_lem = max_align_size_lem (offset + length rec) (omega arith)

    enough : offset + length rec ≤ size
    enough = omega (arith, size_lem)

    room : ltb (length f.offsets) 65534 ≡ true
    room = ground arith

    fixed : (max_align_size offset == offset) ≡ true
    fixed = ground (arith, max_align_size_lem offset (omega arith))
