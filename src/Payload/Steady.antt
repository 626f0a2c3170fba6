-- ===== src/Payload/Steady.antt =====
-- Between two rounds of the write loop, `off` is the size of the payload as a FieldOffset.
use database_systems.Common.{
  get_elem?, ◌^◌, bit_or, ◌/◌, ℕ, ◌+◌, ◌*◌, ◌%◌, ◌<◌, ◌≡◌, refl, Bool, false, inl, inr, List, [],
  ◌∷◌, length, ◌==◌, if◌then◌else◌, arith, ok, undefined, ◌>>=◌, check, resize, Ensures,
  >>=-Ensures, or_undefined-Ensures, fatal, to_bytes, of_bytes, Bool-cases, or_undefined, load,
  store, not, ◌&&◌, ◌-◌, ltb, if-Ensures, then-Ensures,
}
use database_systems.Base.Align.{is_negative, int16, type_align}
use database_systems.Schema.Defs.{Schema, FieldInfo, minus_one}
use database_systems.Schema.Layout.{seq_index}
use database_systems.Payload.Write.{
  is_null, write_field, sum_negative₂, set_null_bit, store_at, set_varlen_end, write_null, Value,
  null, rep, bytes, Round, more, too_long, write_fields, bias, sum_negative, write_aligned,
  write_fixed, append_bytes, copied_bytes, varlen_bytes,
}
use database_systems.Payload.Lengths.{length-resize, length-store}

-- Between two rounds, `off` is the size of the payload as a FieldOffset, and there are fewer than
-- 2 ^ 16 bytes of it.
abbrev pub Steady : ℕ → List ℕ → ℕ → Type 0
Steady init_len buf off =
    (length buf % 65536 ≡ (init_len + off) % 65536)
    × (length buf < init_len + 65536)
    × (off < 65536)

abbrev pub RoundSteady : ℕ → Round → Type 0
RoundSteady init_len (more buf off) = Steady init_len buf off
RoundSteady init_len too_long = Unit

abbrev SameLength : List ℕ → List ℕ → Type 0
SameLength buf out = length out ≡ length buf

or_undefined-store :
    (buf : List ℕ) (pos : ℕ) (bs : List ℕ)
    → Ensures (SameLength buf) (or_undefined (store buf pos bs))
or_undefined-store buf pos bs =
    or_undefined-Ensures (SameLength buf) (store buf pos bs) (λ out e. length-store buf pos bs e)

store_at-SameLength :
    (sum excess : ℕ) (bs buf : List ℕ) → Ensures (SameLength buf) (store_at sum excess bs buf)
unfolding store_at
store_at-SameLength sum excess bs buf =
    if-Ensures (SameLength buf) (ltb sum excess) undefined
      (or_undefined (store buf (sum - excess) bs)) tt (or_undefined-store buf (sum - excess) bs)

module _ (init_len : ℕ) where
  write_value-Steady :
      (f : FieldInfo) (v : Value) (buf : List ℕ) (off : ℕ)
      → Steady init_len buf off
      → Ensures (RoundSteady init_len) (do
        bs ← copied_bytes f.typbyref f.typlen v
        buf' ← or_undefined (store buf (init_len + f.offset) bs)
        ok (more buf' off))
  write_value-Steady f v buf off h =
      then-Ensures (RoundSteady init_len) (copied_bytes f.typbyref f.typlen v) _ λ bs.
        >>=-Ensures (SameLength buf) (RoundSteady init_len)
          (or_undefined (store buf (init_len + f.offset) bs)) _
          (or_undefined-store buf (init_len + f.offset) bs) λ buf' same. rw same h

  write_fixed-Steady :
      (f : FieldInfo) (v : Value) (buf : List ℕ) (off : ℕ)
      → Steady init_len buf off
      → Ensures (RoundSteady init_len) (write_fixed init_len f v buf off)
  unfolding write_fixed
  write_fixed-Steady f null buf off h = tt
  write_fixed-Steady f (rep v) buf off h = write_value-Steady f (rep v) buf off h
  write_fixed-Steady f (bytes v) buf off h = write_value-Steady f (bytes v) buf off h

  set_null_bit-SameLength :
      (s : Schema) (id : ℕ) (buf : List ℕ)
      → Ensures (SameLength buf) (set_null_bit s init_len id buf)
  unfolding set_null_bit
  set_null_bit-SameLength s id buf =
      then-Ensures (SameLength buf) (or_undefined (load buf (sum - 36864) 1)) _
        λ old. store_at-SameLength sum 36864 (bit_or (of_bytes old) (2 ^ (id % 8)) ∷ []) buf
    where
      sum : ℕ
      sum = bias s.null_bitmap_begin + init_len + bias id / 8

  set_varlen_end-SameLength :
      (s : Schema) (k off : ℕ) (buf : List ℕ)
      → Ensures (SameLength buf) (set_varlen_end s init_len k off buf)
  unfolding set_varlen_end
  set_varlen_end-SameLength s k off buf =
      store_at-SameLength (bias s.varlen_end_array_begin + init_len + 2 * k) 32768 (to_bytes 2 off)
        buf

  write_null-Steady :
      (s : Schema) (f : FieldInfo) (buf : List ℕ) (off : ℕ)
      → Steady init_len buf off
      → Ensures (RoundSteady init_len) (write_null s init_len f buf off)
  unfolding write_null
  write_null-Steady s f buf off h =
      >>=-Ensures (SameLength buf) (RoundSteady init_len) (set_null_bit s init_len f.nullbit_id buf)
        _ (set_null_bit-SameLength s f.nullbit_id buf)
        λ buf' same.
          >>=-Ensures (SameLength buf') (RoundSteady init_len)
            (if f.typlen == minus_one
              then set_varlen_end s init_len (seq_index f.offset) off buf'
              else ok buf')
            _
            (if-Ensures (SameLength buf') (f.typlen == minus_one)
              (set_varlen_end s init_len (seq_index f.offset) off buf') (ok buf')
              (set_varlen_end-SameLength s (seq_index f.offset) off buf') refl)
            λ buf'' same'. rw (same', same) h

  append_bytes-Steady :
      (byref : Bool) (newoff field_len : ℕ) (v : Value) (buf : List ℕ) (off : ℕ)
      → Ensures (RoundSteady init_len) (append_bytes init_len byref newoff field_len v buf off)
  unfolding append_bytes
  append_bytes-Steady byref newoff field_len v buf off =
      elim (Bool-cases (sum_negative₂ init_len newoff field_len)) [
        | inl e ↦ rw e tt
        | inr e ↦ rw e (
            then-Ensures (RoundSteady init_len)
              (check (bias off + init_len == bias (length buf)) fatal) _
              λ _.
                then-Ensures (RoundSteady init_len)
                  (if byref && is_negative field_len then undefined else ok tt) _
                  λ _. then-Ensures (RoundSteady init_len) (copied_bytes byref field_len v) _ λ bs.
                    >>=-Ensures (SameLength grown) (RoundSteady init_len)
                      (or_undefined (store grown (bias newoff + init_len - 32768) bs)) _
                      (or_undefined-store grown (bias newoff + init_len - 32768) bs)
                      λ buf' same. rw same (steady e))
      ]
    where
      size : ℕ
      size = bias newoff + bias field_len + init_len - 65536

      grown : List ℕ
      grown = resize 0 buf size

      steady :
          sum_negative₂ init_len newoff field_len ≡ false
          → Steady init_len grown (int16 (newoff + field_len))
      steady e = ground (arith, length-resize 0 buf size)

  write_aligned-Steady :
      (s : Schema) (f : FieldInfo) (v : Value) (buf : List ℕ) (off : ℕ)
      → Ensures (RoundSteady init_len) (write_aligned s init_len f v buf off)
  unfolding write_aligned
  write_aligned-Steady s f v buf off =
      if-Ensures (RoundSteady init_len) (sum_negative init_len newoff) (ok too_long) _ tt (
        if-Ensures (RoundSteady init_len) (f.typlen == minus_one) _
          (append_bytes init_len f.typbyref newoff f.typlen v buf off)
          (then-Ensures (RoundSteady init_len) (varlen_bytes v) _ λ bs.
            then-Ensures (RoundSteady init_len)
              (set_varlen_end s init_len (seq_index f.offset) (int16 (newoff + int16 (length bs)))
                buf)
              _ λ p. append_bytes-Steady f.typbyref newoff (int16 (length bs)) v p off)
          (append_bytes-Steady f.typbyref newoff f.typlen v buf off))
    where
      newoff : ℕ
      newoff = type_align f.typalign off

  write_field-Steady :
      (s : Schema) (f : FieldInfo) (v : Value) (buf : List ℕ) (off : ℕ)
      → Steady init_len buf off
      → Ensures (RoundSteady init_len) (write_field s init_len f v buf off)
  unfolding write_field
  write_field-Steady s f v buf off h =
      if-Ensures (RoundSteady init_len) (not (is_negative f.offset)) _ _
        (write_fixed-Steady f v buf off h)
        (if-Ensures (RoundSteady init_len) (is_null v) _ _ (write_null-Steady s f buf off h)
          (write_aligned-Steady s f v buf off))

  pub write_fields-Steady :
      (s : Schema) (values : List Value) (is : List ℕ) (buf : List ℕ) (off : ℕ)
      → Steady init_len buf off
      → Ensures (RoundSteady init_len) (write_fields s init_len values is buf off)
  unfolding write_fields
  write_fields-Steady s values [] buf off h = h
  write_fields-Steady s values (i ∷ is) buf off h =
      then-Ensures (RoundSteady init_len) (or_undefined (get_elem? s.field i)) _ λ f.
        then-Ensures (RoundSteady init_len) (or_undefined (get_elem? values i)) _ λ v.
          >>=-Ensures (RoundSteady init_len) (RoundSteady init_len)
            (write_field s init_len f v buf off) _ (write_field-Steady s f v buf off h)
            (elim [
              | too_long ↦ λ _. tt
              | more buf' off' ↦ write_fields-Steady s values is buf' off'
            ])
