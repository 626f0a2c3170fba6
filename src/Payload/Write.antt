-- ===== src/Payload/Write.antt =====
-- Schema::WritePayloadToBufferImpl of src/catalog/Schema.cpp, with assertions enabled.
-- The payload begins at `init_len` in the buffer, behind what the buffer held before; a write may
-- fall in front of it.
use database_systems.Common.{
  ℕ, ◌+◌, ◌-◌, ◌*◌, ◌/◌, ◌%◌, ◌^◌, Bool, true, false, not, ◌||◌, ◌&&◌, List, [], ◌∷◌, Option, none,
  some, length, get_elem?, ltb, leb, ◌==◌, if◌then◌else◌, bit_or, Result, ok, throws, undefined,
  fatal, error, ◌>>=◌, ◌>>◌, check, or_undefined, store, load, to_bytes, of_bytes, resize,
}
use database_systems.Base.Align.{is_negative, int16, type_align, max_align}
use database_systems.Schema.Defs.{Schema, FieldInfo, minus_one}
use database_systems.Schema.Layout.{seq_index}

-- A Datum, as far as a schema looks at it: NULL, the 64-bit representation of a fixed-length
-- value, or the bytes of a value that is passed by reference.
pub data Value : Type 0 where
  null : Value
  rep : ℕ → Value
  bytes : List ℕ → Value

abbrev pub is_null : Value → Bool
is_null null = true
is_null _ = false

-- A signed 16-bit number plus 2 ^ 15.
abbrev pub bias : ℕ → ℕ
bias x = (x + 32768) % 65536

-- `init_len + x < 0` and `init_len + x + y < 0` in `int`.
abbrev pub sum_negative : ℕ → ℕ → Bool
sum_negative init_len x = ltb (bias x + init_len) 32768

abbrev pub sum_negative₂ : ℕ → ℕ → ℕ → Bool
sum_negative₂ init_len x y = ltb (bias x + bias y + init_len) 65536

-- `GetVarlenBytes`, with the length.
unfoldable pub varlen_bytes : Value → Result (List ℕ)
varlen_bytes (bytes bs) = ok bs
varlen_bytes _ = undefined

-- The bytes that `copy_bytes` moves: the given number for a value that is passed by reference,
-- and 1, 2, 4 or else 8 for one that is passed by value.
unfoldable pub copied_bytes : Bool → ℕ → Value → Result (List ℕ)
copied_bytes true len (bytes bs) = or_undefined (load bs 0 len)
copied_bytes false len (rep v) =
    ok
      (to_bytes (if (len == 1) then 1 else if (len == 2) then 2 else if (len == 4) then 4 else 8) v)
copied_bytes _ len _ = undefined

-- A write of `bs` at `payload_begin + x` for the `int` x, which is given as `sum` less `excess`
-- with the header's length in it. A place in front of the buffer is out of range.
unfoldable pub store_at : ℕ → ℕ → List ℕ → List ℕ → Result (List ℕ)
store_at sum excess bs buf =
    if ltb sum excess then undefined else or_undefined (store buf (sum - excess) bs)

-- A write to `varlen_end_array[k]`.
unfoldable pub set_varlen_end : Schema → ℕ → ℕ → ℕ → List ℕ → Result (List ℕ)
unfolding store_at
set_varlen_end s init_len k off buf =
    store_at (bias s.varlen_end_array_begin + init_len + 2 * k) 32768 (to_bytes 2 off) buf

-- `null_bitmap[id >> 3] |= 1 << (id & 7)`. The shift rounds down, so that the ID -1 is at the byte
-- in front of the bitmap.
unfoldable pub set_null_bit : Schema → ℕ → ℕ → List ℕ → Result (List ℕ)
unfolding store_at
set_null_bit s init_len id buf = do
  let sum = bias s.null_bitmap_begin + init_len + bias id / 8
  old ← or_undefined (load buf (sum - 36864) 1)
  store_at sum 36864 (bit_or (of_bytes old) (2 ^ (id % 8)) ∷ []) buf

-- The buffer and `off` between two rounds of the loop; `too_long` is the result -1.
pub data Round : Type 0 where
  more : List ℕ → ℕ → Round
  too_long : Round

-- A non-nullable fixed-length field.
unfoldable pub write_fixed : ℕ → FieldInfo → Value → List ℕ → ℕ → Result Round
unfolding copied_bytes
write_fixed init_len f null buf off = throws error
write_fixed init_len f v buf off = do
  bs ← copied_bytes f.typbyref f.typlen v
  buf' ← or_undefined (store buf (init_len + f.offset) bs)
  ok (more buf' off)

-- A NULL.
unfoldable pub write_null : Schema → ℕ → FieldInfo → List ℕ → ℕ → Result Round
unfolding set_null_bit set_varlen_end
write_null s init_len f buf off = do
  buf' ← set_null_bit s init_len f.nullbit_id buf
  buf'' ←
      if f.typlen == minus_one
      then set_varlen_end s init_len (seq_index f.offset) off buf'
      else ok buf'
  ok (more buf'' off)

-- The checks, the growth of the buffer and the copy that end a round. A negative offset is a place
-- in the header, and the buffer is cut down to it; a copy of a negative number of bytes is
-- undefined.
unfoldable pub append_bytes : ℕ → Bool → ℕ → ℕ → Value → List ℕ → ℕ → Result Round
unfolding copied_bytes
append_bytes init_len byref newoff field_len v buf off =
    if sum_negative₂ init_len newoff field_len then ok too_long else (do
      check (bias off + init_len == bias (length buf)) fatal
      if byref && is_negative field_len then undefined else ok tt
      bs ← copied_bytes byref field_len v
      let grown = resize 0 buf (bias newoff + bias field_len + init_len - 65536)
      buf' ← or_undefined (store grown (bias newoff + init_len - 32768) bs)
      ok (more buf' (int16 (newoff + field_len))))

-- A value of a variable-length or nullable fixed-length field.
unfoldable pub write_aligned : Schema → ℕ → FieldInfo → Value → List ℕ → ℕ → Result Round
unfolding varlen_bytes set_varlen_end
write_aligned s init_len f v buf off =
    let newoff = type_align f.typalign off in
    if sum_negative init_len newoff
    then ok too_long
    else if f.typlen == minus_one
    then (do
      bs ← varlen_bytes v
      let field_len = int16 (length bs)
      buf' ← set_varlen_end s init_len (seq_index f.offset) (int16 (newoff + field_len)) buf
      append_bytes init_len f.typbyref newoff field_len v buf' off)
    else append_bytes init_len f.typbyref newoff f.typlen v buf off

-- One round of the loop.
unfoldable pub write_field : Schema → ℕ → FieldInfo → Value → List ℕ → ℕ → Result Round
unfolding write_fixed write_null write_aligned append_bytes
write_field s init_len f v buf off =
    if not (is_negative f.offset)
    then write_fixed init_len f v buf off
    else if is_null v
    then write_null s init_len f buf off
    else write_aligned s init_len f v buf off

-- The loop over `m_field_reorder_idx`.
unfoldable pub write_fields : Schema → ℕ → List Value → List ℕ → List ℕ → ℕ → Result Round
unfolding write_field
write_fields s init_len values [] buf off = ok (more buf off)
write_fields s init_len values (i ∷ is) buf off = do
  f ← or_undefined (get_elem? s.field i)
  v ← or_undefined (get_elem? values i)
  r ← write_field s init_len f v buf off
  elim r [ too_long ↦ ok too_long | more buf' off' ↦ write_fields s init_len values is buf' off' ]

-- What follows the loop: the payload is padded to 8 bytes, where the sum of `int` exceeds the
-- size as a FieldOffset. `none` is the result -1.
unfoldable pub finish : ℕ → List ℕ → ℕ → Result (Option (List ℕ × ℕ))
finish init_len buf off = do
  let end = max_align off
  check (bias off + init_len == bias (length buf)) fatal
  if sum_negative init_len end
      then ok none
      else if ltb (bias (length buf)) (bias end + init_len)
      then ok (some (resize 0 buf (bias end + init_len - 32768), end))
      else ok (some (buf, end))

unfoldable pub finish_round : ℕ → Round → Result (Option (List ℕ × ℕ))
unfolding finish
finish_round init_len too_long = ok none
finish_round init_len (more buf off) = finish init_len buf off

-- The buffer behind the call and the length of the payload; `none` is the result -1.
unfoldable pub write_payload : Schema → List Value → List ℕ → Result (Option (List ℕ × ℕ))
unfolding write_fields finish_round
write_payload s values buf =
    let init_len = max_align (length buf) in
    let start = int16 s.varlen_payload_begin in
    if leb 32767 (length buf)
    then ok none
    else if is_negative init_len || sum_negative init_len start
    then ok none
    else (do
      r ←
          write_fields s init_len values s.field_reorder_idx
            (resize 0 buf (bias start + init_len - 32768)) start
      finish_round init_len r)
