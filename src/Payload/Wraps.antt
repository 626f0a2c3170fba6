-- ===== src/Payload/Wraps.antt =====
-- WritePayloadToBufferImpl of src/catalog/Schema.cpp where a record reaches 2 ^ 16 bytes.
use database_systems.Common.{
  ℕ, ◌+◌, ◌≤◌, ◌<◌, true, false, List, ◌++◌, some, length, leb, ◌==◌, ok, ◌≡◌, refl, arith, ◌∙◌, ap,
  drop_enough, store, to_bytes, resize,
}
use mathlib.Core.List.{append-nil}
use database_systems.Base.Align.{type_align, max_align, max_align_lem}
use database_systems.Schema.Defs.{Schema, FieldInfo}
use database_systems.Payload.Lengths.{length-resize}
use database_systems.Payload.Write.{rep, more, write_aligned, append_bytes, bias}

type_align_wraps : (off : ℕ) → 65529 ≤ off → off < 65536 → type_align 8 off ≡ 0
unfolding max_align
type_align_wraps off h k = max_align_lem off k ∙ omega arith

store_all : (bs xs : List ℕ) → length xs ≡ length bs → store xs 0 bs ≡ some bs
unfolding store
store_all bs xs e =
    rw fits
      (ap some (ap (λ l. bs ++ l) (drop_enough (0 + length bs) xs (omega arith)) ∙ append-nil bs))
  where
    fits : leb (0 + length bs) (length xs) ≡ true
    fits = ground arith

append_bytes-wraps :
    (v : ℕ) (payload : List ℕ) (off : ℕ)
    → length payload ≡ off
    → append_bytes 0 false 0 8 (rep v) payload off ≡ ok (more (to_bytes 8 v) 8)
unfolding append_bytes to_bytes
append_bytes-wraps v payload off e =
    rw (same_size, store_all (to_bytes 8 v) (resize 0 payload 8) (length-resize 0 payload 8)) refl
  where
    same_size : (bias off + 0 == bias (length payload)) ≡ true
    same_size = ground arith

-- A record that has come to between 65529 and 65535 bytes when a value of 8 bytes and alignment 8
-- is to be written behind them, which the tests for overflow let pass: the next offset is 0, and
-- the record is cut down to that value alone.
pub write_aligned-wraps :
    (s : Schema) (f : FieldInfo) (v : ℕ) (payload : List ℕ)
    → f.typlen ≡ 8
    → f.typalign ≡ 8
    → f.typbyref ≡ false
    → 65529 ≤ length payload
    → length payload < 65536
    → write_aligned s 0 f (rep v) payload (length payload) ≡ ok (more (to_bytes 8 v) 8)
unfolding write_aligned
write_aligned-wraps s f v payload len align by_value h k =
    rw (align, type_align_wraps (length payload) h k, len, by_value)
      (append_bytes-wraps v payload (length payload) refl)
