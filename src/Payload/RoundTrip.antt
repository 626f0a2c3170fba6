-- ===== src/Payload/RoundTrip.antt =====
-- DissemblePayload after WritePayloadToBuffer (src/catalog/Schema.cpp), for schemas of numbers that
-- may not be NULL.
use database_systems.Common.{
  ℕ, ◌+◌, ◌-◌, ◌≤◌, ◌^◌, ◌%◌, Bool, true, false, List, [], ◌∷◌, ◌++◌, some, length, take, get_elem?,
  ◌==◌, ltb, ok, ◌≡◌, refl, arith, sym, ◌∙◌, ap, ap₂, inl, inr, map, subst, length-append,
  take_enough, take-length, resize, replicate, Bool-cases, length-replicate,
}
use mathlib.Core.List.{append-nil, append_assoc}
use database_systems.Base.Align.{int16, max_align, max_align_lem}
use database_systems.Schema.Defs.{Schema, FieldInfo}
use database_systems.Schema.Kinds.{is_varlen, is_nullable_fixed, is_fixed, ids, ids-cons_false}
use database_systems.Schema.Laid.{IsLaidOut}
use database_systems.Payload.Write.{
  Value, rep, more, write_fields, finish, finish_round, write_payload, bias, sum_negative,
}
use database_systems.Payload.Read.{get_fields, dissemble_payload}
use database_systems.Payload.Lengths.{length-resize}
use database_systems.Payload.Fixed.{
  IsNumber, Numbers, none_left, number, Chain, next, Trace-Chain, get_field-number,
}
use database_systems.Payload.Stores.{
  Stored, Written, write_numbers, Stored-extend, get_elem?-append,
}

-- The low bits of the numbers, as many as their fields have room for.
abbrev pub low_bits : List FieldInfo → List ℕ → List ℕ
low_bits (f ∷ fs) (n ∷ ns) = n % 256 ^ f.typlen ∷ low_bits fs ns
low_bits _ _ = []

-- The reader's loop gives the numbers that are stored.
read_numbers :
    (s : Schema) (out : List ℕ) (i : ℕ) (before fs : List FieldInfo) (ns : List ℕ) {o e : ℕ}
    → s.field ≡ before ++ fs
    → i ≡ length before
    → Chain o fs e
    → Stored fs ns out
    → get_fields s out (length fs) i ≡ ok (map rep (low_bits fs ns))
unfolding get_fields
read_numbers s out i before [] [] fe ie chain stored = refl
read_numbers s out i before (f ∷ fs) (n ∷ ns) fe ie (next k pos low rest) stored =
    rw
      (
        get_field-number s i f n out (ap₂ get_elem? fe ie ∙ get_elem?-append before fs f) k pos
            stored.0,
        read_numbers s out (i + 1) (before ++ (f ∷ [])) fs ns
            (fe ∙ sym (append_assoc before (f ∷ []) fs))
            (omega (arith, length-append before (f ∷ []))) rest stored.1,
      )
      refl
read_numbers s out i before [] (n ∷ ns) fe ie chain stored = absurd stored
read_numbers s out i before (f ∷ fs) [] fe ie chain stored = absurd stored

take-resize : (p : List ℕ) (m : ℕ) → length p ≤ m → take (length p) (resize 0 p m) ≡ p
take-resize p m h =
    ap (λ l. take (length p) (l ++ replicate (m - length p) 0)) (take_enough m p h)
    ∙ take-length p (replicate (m - length p) 0)

-- What follows the writer's loop pads the payload at most.
Finished : List ℕ → Type 0
Finished p =
    (out : List ℕ) × (n : ℕ) × (finish 0 p (length p) ≡ ok (some (out, n)))
    × (take (length p) out ≡ p)
    × (length p ≤ length out)

finish-Finished : (p : List ℕ) → length p ≤ 32760 → Finished p
unfolding Finished finish
finish-Finished p h = elim (Bool-cases (ltb (bias (length p)) (bias padded + 0))) [
  | inl longer ↦ (
    resize 0 p (bias padded + 0 - 32768),
    padded,
    rw (steady, positive, longer) refl,
    take-resize p (bias padded + 0 - 32768) (omega (arith, pads)),
    omega (arith, length-resize 0 p (bias padded + 0 - 32768), pads),
  )
  | inr same ↦ (
    p,
    padded,
    rw (steady, positive, same) refl,
    take_enough (length p) p (omega arith),
    omega arith,
  )
]
  where
    padded : ℕ
    padded = max_align (length p)

    pads : (length p ≤ padded) × (padded ≤ 32760)
    pads = (
      omega (arith, max_align_lem (length p) (omega arith)),
      omega (arith, max_align_lem (length p) (omega arith)),
    )

    steady : (bias (length p) + 0 == bias (length p)) ≡ true
    steady = ground arith

    positive : sum_negative 0 padded ≡ false
    positive = ground (arith, pads)

-- In a schema of numbers no field has another kind.
ids-number :
    (i : ℕ) (p : FieldInfo → Bool) (fs : List FieldInfo)
    → ((f : FieldInfo) → IsNumber f → p f ≡ false)
    → Numbers fs
    → ids p i fs ≡ []
ids-number i p [] h none_left = refl
ids-number i p (f ∷ fs) h (number k ks) =
    ids-cons_false p i f fs (h f k) ∙ ids-number (i + 1) p fs h ks

order-Numbers :
    (s : Schema) → IsLaidOut s → Numbers s.field → s.field_reorder_idx ≡ ids is_fixed 0 s.field
order-Numbers s laid ks =
    laid.order
    ∙ ap₂ (λ vs ns. ids is_fixed 0 s.field ++ (vs ++ ns))
        (ids-number 0 is_varlen s.field (λ f k. k.fixed) ks)
        (ids-number 0 is_nullable_fixed s.field (λ f k. rw (k.fixed, k.nonnull) refl) ks)
    ∙ append-nil (ids is_fixed 0 s.field)

-- The writer's call, from its loop and what follows it.
write_payload-composed :
    (s : Schema) (values : List Value) (p out : List ℕ) (n : ℕ)
    → s.varlen_payload_begin ≤ 32760
    → length p ≡ s.varlen_payload_begin
    → write_fields s 0 values s.field_reorder_idx
        (replicate s.varlen_payload_begin 0)
        s.varlen_payload_begin
      ≡ ok (more p s.varlen_payload_begin)
    → finish 0 p s.varlen_payload_begin ≡ ok (some (out, n))
    → write_payload s values [] ≡ ok (some (out, n))
unfolding write_payload finish_round
write_payload-composed s values p out n small size loop after =
    rw (empty, whole, positive, begun, loop, after) refl
  where
    empty : max_align 0 ≡ 0
    empty = max_align_lem 0 (omega arith) ∙ refl

    whole : int16 s.varlen_payload_begin ≡ s.varlen_payload_begin
    whole = omega arith

    positive : sum_negative 0 s.varlen_payload_begin ≡ false
    positive = ground arith

    begun :
        resize {A = ℕ} 0 [] (bias s.varlen_payload_begin + 0 - 32768)
        ≡ replicate s.varlen_payload_begin 0
    begun =
        ap (resize {A = ℕ} 0 []) in_range
        ∙ ap₂ ◌++◌ (take_enough s.varlen_payload_begin [] (omega arith))
            (ap (λ k. replicate k 0) (omega arith))
      where
        in_range : bias s.varlen_payload_begin + 0 - 32768 ≡ s.varlen_payload_begin
        in_range = omega arith

-- A laid-out schema whose fields are all numbers of 1, 2, 4 or 8 bytes that may not be NULL, with a
-- record of at most 32760 bytes. For any numbers, such as the 64-bit representations of negative
-- ones, WritePayloadToBuffer succeeds on an empty buffer, and DissemblePayload gives back the low
-- bits of each number, as many as its field has room for.
pub write_payload-dissemble_payload :
    (s : Schema) (ns : List ℕ)
    → IsLaidOut s
    → Numbers s.field
    → s.varlen_payload_begin ≤ 32760
    → length ns ≡ length s.field
    → (out : List ℕ) × (n : ℕ) × (write_payload s (map rep ns) [] ≡ ok (some (out, n)))
      × (dissemble_payload s out ≡ ok (map rep (low_bits s.field ns)))
unfolding dissemble_payload Written Finished
write_payload-dissemble_payload s ns laid ks small same =
    let (p, ran, len, front, stored) =
      write_numbers s (map rep ns) laid.totals.off 0 0 [] s.field [] ns (replicate start 0) start
        refl refl refl refl same chain (omega (arith, room, size)) in
    let length_p : length p ≡ start = len ∙ size in
    let (out, n, done, kept, longer) = finish-Finished p (omega arith) in
    (
      out,
      n,
      write_payload-composed s (map rep ns) p out n small length_p
          (ap (λ is. write_fields s 0 (map rep ns) is (replicate start 0) start)
              (order-Numbers s laid ks)
            ∙ ran)
          (ap (finish 0 p) (sym length_p) ∙ done),
      read_numbers s out 0 [] s.field ns refl refl chain
          (Stored-extend ns p out chain (omega (arith, room)) kept longer stored),
    )
  where
    start : ℕ
    start = s.varlen_payload_begin

    size : length (replicate {A = ℕ} start 0) ≡ start
    size = length-replicate start 0

    room : laid.totals.off ≤ start
    room = omega (arith, laid.bitmap, laid.ends, laid.payload)

    chain : Chain 0 s.field laid.totals.off
    chain =
        subst (λ o. Chain o s.field laid.totals.off) laid.zero.0
          (Trace-Chain laid.trace ks (omega (arith, laid.zero.0)))
