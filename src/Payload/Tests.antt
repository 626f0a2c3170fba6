-- ===== src/Payload/Tests.antt =====
-- The payload theorems at small schemas, and runs of the writer and the reader.
use database_systems.Common.{
  Option, ℕ, inl, inr, ◌≡◌, refl, arith, false, List, [], ◌∷◌, some, get_or, length,
  length-replicate, replicate, map, take, get_elem?, zero, suc, true, some_inj, ◌<◌, ◌++◌, ok,
  Result, load, store, to_bytes, of_bytes,
}
use database_systems.Schema.Defs.{Schema, FieldInfo, construct}
use database_systems.Schema.Compute.{compute_layout}
use database_systems.Schema.Samples.{
  find_type, call_length, or_else, sample_schema, sample_laid, shared_schema, shared_laid,
  find_type-GivesAlignments, call_length-GivesLengths,
}
use database_systems.Schema.Laid.{IsLaidOut}
use database_systems.Schema.Established.{compute_layout-IsLaidOut}
use database_systems.Payload.Write.{
  Value, null, rep, bytes, write_payload, write_aligned, more, set_null_bit,
}
use database_systems.Payload.Read.{dissemble_payload, field_is_null}
use database_systems.Payload.Nulls.{set_null_bit-field_is_null, set_null_bit-shared}
use database_systems.Payload.Fixed.{Numbers, number, none_left}
use database_systems.Payload.RoundTrip.{write_payload-dissemble_payload}
use database_systems.Payload.Wraps.{write_aligned-wraps}
use database_systems.Payload.Results.{IsAppended, write_payload-IsAppended, write_aligned-truncates}

abbrev field_at : ℕ → Schema → FieldInfo
field_at n s = get_or s.field n (record {
  typid = 0;
  typlen = 0;
  typalign = 0;
  typbyref = false;
  typparam = 0;
  nullbit_id = 0;
  offset = 0;
})

shared_laid-IsLaidOut : IsLaidOut shared_laid
unfolding compute_layout construct
shared_laid-IsLaidOut =
    compute_layout-IsLaidOut find_type call_length shared_schema shared_laid
      find_type-GivesAlignments call_length-GivesLengths (omega arith) refl refl refl

abbrev record_of : Result (Option (List ℕ × ℕ)) → List ℕ
record_of (ok (some (out, n))) = out
record_of _ = []

abbrev sample_values : List Value
sample_values = rep 7 ∷ rep 0x01020304 ∷ bytes (1 ∷ 2 ∷ []) ∷ null ∷ rep 513 ∷ []

-- What is written is read back, a NULL included.
sample_read_back :
    dissemble_payload sample_laid (record_of (write_payload sample_laid sample_values []))
    ≡ ok sample_values
unfolding compute_layout construct write_payload dissemble_payload load store to_bytes of_bytes
sample_read_back = refl

-- The INT4 is lost: its null bit is that of the second VARCHAR.
shared_read_back :
    dissemble_payload shared_laid
      (record_of (write_payload shared_laid (bytes (1 ∷ 2 ∷ []) ∷ null ∷ rep 513 ∷ []) []))
    ≡ ok (bytes (1 ∷ 2 ∷ []) ∷ null ∷ null ∷ [])
unfolding compute_layout construct write_payload dissemble_payload load store to_bytes of_bytes
shared_read_back = refl

-- A NULL for the first field, which is not nullable, changes the last byte that the buffer held.
header_changed :
    take 8 (record_of (write_payload shared_laid (null ∷ null ∷ null ∷ []) (replicate 8 0)))
    ≡ 0 ∷ 0 ∷ 0 ∷ 0 ∷ 0 ∷ 0 ∷ 0 ∷ 128 ∷ []
unfolding compute_layout construct write_payload load store to_bytes of_bytes
header_changed = refl

zeros-AreBytes : (n q b : ℕ) → get_elem? (replicate n 0) q ≡ some b → b < 256
zeros-AreBytes zero q b h = absurd (cc)
zeros-AreBytes (suc n) zero b h = omega (arith, some_inj h)
zeros-AreBytes (suc n) (suc q) b h = zeros-AreBytes n q b h

-- A payload without NULLs, and with the null bit of the second field.
abbrev no_nulls : List ℕ
no_nulls = 0 ∷ 0 ∷ 0 ∷ 0 ∷ 0 ∷ 0 ∷ 0 ∷ 0 ∷ []

set_null_bit-shared_example :
    (field_is_null shared_laid 1 (2 ∷ 0 ∷ 0 ∷ 0 ∷ 0 ∷ 0 ∷ 0 ∷ 0 ∷ []) ≡ ok true)
    × (field_is_null shared_laid 2 (2 ∷ 0 ∷ 0 ∷ 0 ∷ 0 ∷ 0 ∷ 0 ∷ 0 ∷ []) ≡ ok true)
unfolding compute_layout construct set_null_bit load store of_bytes
set_null_bit-shared_example =
    set_null_bit-shared shared_laid 1 2 (field_at 1 shared_laid) (field_at 2 shared_laid) no_nulls
      (2 ∷ 0 ∷ 0 ∷ 0 ∷ 0 ∷ 0 ∷ 0 ∷ 0 ∷ []) shared_laid-IsLaidOut refl refl refl refl
      (zeros-AreBytes 8) refl refl refl refl

sample_laid-IsLaidOut : IsLaidOut sample_laid
unfolding compute_layout construct
sample_laid-IsLaidOut =
    compute_layout-IsLaidOut find_type call_length sample_schema sample_laid
      find_type-GivesAlignments call_length-GivesLengths (omega arith) refl refl refl

-- The null bit of the fourth field.
abbrev one_null : List ℕ
one_null = replicate 8 0 ++ (2 ∷ replicate 15 0)

set_null_bit-field_is_null_example :
    (field_is_null sample_laid 3 one_null ≡ ok true)
    × (field_is_null sample_laid 4 one_null ≡ field_is_null sample_laid 4 (replicate 24 0))
unfolding compute_layout construct set_null_bit load store of_bytes
set_null_bit-field_is_null_example =
    set_null_bit-field_is_null sample_laid 3 4 (field_at 3 sample_laid) (field_at 4 sample_laid)
      (replicate 24 0) one_null sample_laid-IsLaidOut refl refl refl refl (zeros-AreBytes 24) refl
      refl (λ e. omega arith)

write_payload-IsAppended_example :
    IsAppended
      (1 ∷ 2 ∷ 3 ∷ [])
      (record_of (write_payload sample_laid sample_values (1 ∷ 2 ∷ 3 ∷ [])))
      24
unfolding compute_layout construct write_payload load store to_bytes
write_payload-IsAppended_example =
    write_payload-IsAppended sample_laid sample_values (1 ∷ 2 ∷ 3 ∷ [])
      (record_of (write_payload sample_laid sample_values (1 ∷ 2 ∷ 3 ∷ []))) 24 refl (omega arith)
      (omega arith)

write_aligned-truncates_example :
    write_aligned shared_laid 0
      (field_at 0 shared_laid)
      (bytes (replicate 65537 7))
      (replicate 6 0)
      6
    ≡ write_aligned shared_laid 0 (field_at 0 shared_laid) (bytes (7 ∷ [])) (replicate 6 0) 6
unfolding compute_layout construct
write_aligned-truncates_example =
    write_aligned-truncates shared_laid 0 (field_at 0 shared_laid) (replicate 65537 7)
      (replicate 6 0) 6 refl refl

-- An INT8 that may be NULL, behind other fields.
abbrev int8_field : FieldInfo
int8_field = record {
  typid = 8;
  typlen = 8;
  typalign = 8;
  typbyref = false;
  typparam = 0;
  nullbit_id = 1;
  offset = 65534;
}

write_aligned-wraps_example :
    write_aligned shared_laid 0 int8_field
      (rep 7)
      (replicate 65530 0)
      (length {A = ℕ} (replicate 65530 0))
    ≡ ok (more (to_bytes 8 7) 8)
unfolding to_bytes
write_aligned-wraps_example =
    write_aligned-wraps shared_laid int8_field 7 (replicate 65530 0) refl refl refl
      (omega (arith, length-replicate {A = ℕ} 65530 0))
      (omega (arith, length-replicate {A = ℕ} 65530 0))

-- A byte, an INT4 and an INT8.
abbrev number_schema : Schema
number_schema = construct (1 ∷ 4 ∷ 8 ∷ []) (0 ∷ 0 ∷ 0 ∷ []) (false ∷ false ∷ false ∷ []) []

abbrev number_laid : Schema
unfolding compute_layout construct
number_laid = or_else (compute_layout find_type call_length number_schema) number_schema

number_laid-IsLaidOut : IsLaidOut number_laid
unfolding compute_layout construct
number_laid-IsLaidOut =
    compute_layout-IsLaidOut find_type call_length number_schema number_laid
      find_type-GivesAlignments call_length-GivesLengths (omega arith) refl refl refl

number_laid-Numbers : Numbers number_laid.field
unfolding compute_layout construct
number_laid-Numbers =
    number (record { fixed = refl; nonnull = refl; by_value = refl; size = inl refl })
      (number
        (record { fixed = refl; nonnull = refl; by_value = refl; size = inr (inr (inl refl)) })
        (number
          (record { fixed = refl; nonnull = refl; by_value = refl; size = inr (inr (inr refl)) })
          none_left))

-- The second number is -1, whose representation is sign-extended to 64 bits.
abbrev sample_numbers : List ℕ
sample_numbers = 200 ∷ 0xffffffffffffffff ∷ 70000000000 ∷ []

write_payload-dissemble_payload_example :
    (out : List ℕ) × (n : ℕ) × (write_payload number_laid (map rep sample_numbers) []
      ≡ ok (some (out, n)))
    × (dissemble_payload number_laid out ≡ ok (rep 200 ∷ rep 0xffffffff ∷ rep 70000000000 ∷ []))
unfolding compute_layout construct
write_payload-dissemble_payload_example =
    write_payload-dissemble_payload number_laid sample_numbers number_laid-IsLaidOut
      number_laid-Numbers (omega arith) refl
