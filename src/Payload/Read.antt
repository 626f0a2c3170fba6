-- ===== src/Payload/Read.antt =====
-- Schema::GetOffsetAndLength, FieldIsNull, GetField and DissemblePayload of src/catalog/Schema.cpp,
-- with assertions enabled. A read outside the payload is undefined.
use database_systems.Common.{
  ℕ, zero, suc, ◌+◌, ◌-◌, ◌*◌, ◌/◌, ◌%◌, ◌^◌, Bool, false, not, ◌||◌, List, [], ◌∷◌, length,
  get_elem?, drop, ◌==◌, if◌then◌else◌, bit_and, Result, ok, throws, undefined, fatal, error, ◌>>=◌,
  ◌>>◌, check, or_undefined, load, of_bytes,
}
use database_systems.Base.Align.{is_negative, int16, type_align, less}
use database_systems.Schema.Defs.{Schema, FieldInfo, minus_one, is_nullable}
use database_systems.Schema.Layout.{seq_index}
use database_systems.Payload.Write.{Value, null, rep, bytes}

-- `varlen_end[k]`.
unfoldable pub varlen_end : Schema → List ℕ → ℕ → Result ℕ
varlen_end s payload k = do
  bs ← or_undefined (load payload (s.varlen_end_array_begin + 2 * k) 2)
  ok (of_bytes bs)

-- `null_bitmap[id >> 3] & (1 << (id & 7))`.
unfoldable pub null_bit : Schema → List ℕ → ℕ → Result Bool
null_bit s payload id = do
  bs ← or_undefined (load payload (s.null_bitmap_begin + id / 8) 1)
  ok (not (bit_and (of_bytes bs) (2 ^ (id % 8)) == 0))

unfoldable pub field_is_null : Schema → ℕ → List ℕ → Result Bool
unfolding null_bit
field_is_null s i payload = do
  f ← or_undefined (get_elem? s.field i)
  if is_nullable f then null_bit s payload f.nullbit_id else ok false

-- The variable-length case of `GetOffsetAndLength`.
unfoldable pub varlen_place : Schema → FieldInfo → List ℕ → Result (ℕ × ℕ)
unfolding varlen_end
varlen_place s f payload = do
  let k = seq_index f.offset
  end ← varlen_end s payload k
  before ← if k == 0 then ok s.varlen_payload_begin else varlen_end s payload (k - 1)
  let begin = type_align f.typalign before
  check (not (is_negative begin)) fatal
  ok (begin, if less end begin then 0 else int16 (end + (65536 - begin)))

-- The scan over the nullable fixed-length fields before the one looked for, from the list of the
-- fields that remain in storage order.
unfoldable pub skip_fields : Schema → ℕ → List ℕ → List ℕ → ℕ → Result ℕ
unfolding null_bit
skip_fields s i payload [] off = undefined
skip_fields s i payload (j ∷ js) off =
    let rest = (do
      f ← or_undefined (get_elem? s.field j)
      absent ← null_bit s payload f.nullbit_id
      if absent then skip_fields s i payload js off else (do
        let newoff = type_align f.typalign off
        check (not (is_negative newoff)) fatal
        let next = int16 (newoff + f.typlen)
        check (not (is_negative next)) fatal
        skip_fields s i payload js next)) in
    if j == i then ok off else rest

-- The nullable fixed-length case.
unfoldable pub nullable_place : Schema → ℕ → FieldInfo → List ℕ → Result (ℕ × ℕ)
unfolding varlen_end skip_fields
nullable_place s i f payload = do
  start ←
      if s.num_varlen_fields == 0
      then ok s.varlen_payload_begin
      else varlen_end s payload (s.num_varlen_fields - 1)
  off ←
      skip_fields s i payload
        (drop (s.num_nonnullable_fixedlen_fields + s.num_varlen_fields) s.field_reorder_idx) start
  let begin = type_align f.typalign off
  check (not (is_negative begin)) fatal
  ok (begin, f.typlen)

unfoldable pub get_offset_and_length : Schema → ℕ → List ℕ → Result (ℕ × ℕ)
unfolding varlen_place nullable_place
get_offset_and_length s i payload = do
  f ← or_undefined (get_elem? s.field i)
  if not (is_negative f.offset)
      then ok (f.offset, f.typlen)
      else if f.typlen == minus_one
      then varlen_place s f payload
      else nullable_place s i f payload

-- `Datum::FromFixedlenBytes`.
unfoldable pub from_fixedlen_bytes : List ℕ → ℕ → ℕ → Result Value
from_fixedlen_bytes payload begin size =
    if (size == 1) || ((size == 2) || ((size == 4) || (size == 8)))
    then (do bs ← or_undefined (load payload begin size); ok (rep (of_bytes bs)))
    else throws error

unfoldable pub get_field : Schema → ℕ → List ℕ → Result Value
unfolding field_is_null get_offset_and_length from_fixedlen_bytes
get_field s i payload = do
  absent ← field_is_null s i payload
  f ← or_undefined (get_elem? s.field i)
  if absent then ok null else (do
    place ← get_offset_and_length s i payload
    if (f.typlen == minus_one) || f.typbyref
        then (do bs ← or_undefined (load payload place.0 place.1); ok (bytes bs))
        else from_fixedlen_bytes payload place.0 place.1)

-- The loop of `DissemblePayload`, at the first field with so many left.
unfoldable pub get_fields : Schema → List ℕ → ℕ → ℕ → Result (List Value)
unfolding get_field
get_fields s payload zero i = ok []
get_fields s payload (suc left) i = do
  v ← get_field s i payload
  vs ← get_fields s payload left (i + 1)
  ok (v ∷ vs)

unfoldable pub dissemble_payload : Schema → List ℕ → Result (List Value)
unfolding get_fields
dissemble_payload s payload = get_fields s payload (length s.field) 0
