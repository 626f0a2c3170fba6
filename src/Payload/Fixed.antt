-- ===== src/Payload/Fixed.antt =====
-- Schemas of which every field is a number that may not be NULL: its place in the payload, and what
-- WritePayloadToBufferImpl and GetField of src/catalog/Schema.cpp do with it.
use database_systems.Common.{
  ℕ, ◌+◌, ◌≤◌, ◌<◌, ◌^◌, true, false, ◌||◌, List, [], ◌∷◌, some, length, get_elem?, ◌==◌, ok, ◌≡◌,
  refl, arith, sym, ap, ◌⊎◌, inl, inr, load, to_bytes, of_bytes, ◌%◌, overwrite, subst,
}
use database_systems.Base.Align.{is_negative}
use database_systems.Schema.Defs.{Schema, FieldInfo, is_nullable}
use database_systems.Schema.Kinds.{is_varlen}
use database_systems.Schema.Layout.{Scan}
use database_systems.Schema.Visit.{Visited, AsFixed}
use database_systems.Schema.Trace.{Trace, done, round}
use database_systems.Schema.Laid.{AsFixed-place}
use database_systems.Payload.Write.{rep, more, write_field, write_fixed, copied_bytes}
use database_systems.Payload.Read.{
  get_field, field_is_null, get_offset_and_length, from_fixedlen_bytes,
}
use database_systems.Payload.Places.{store_fits, length-to_bytes}

-- A number of 1, 2, 4 or 8 bytes that is passed by value and may not be NULL.
pub record IsNumber (f : FieldInfo) : Type 0 where
  pub fixed : is_varlen f ≡ false
  pub nonnull : is_nullable f ≡ false
  pub by_value : f.typbyref ≡ false
  pub size : (f.typlen ≡ 1) ⊎ ((f.typlen ≡ 2) ⊎ ((f.typlen ≡ 4) ⊎ (f.typlen ≡ 8)))

pub data Numbers : List FieldInfo → Type 0 where
  none_left : Numbers []
  number : {f : FieldInfo} {fs : List FieldInfo} → IsNumber f → Numbers fs → Numbers (f ∷ fs)

-- The fields stand one behind the other between two offsets.
pub data Chain : ℕ → List FieldInfo → ℕ → Type 0 where
  end : {o e : ℕ} → o ≤ e → Chain o [] e
  next :
      {o e : ℕ} {f : FieldInfo} {fs : List FieldInfo}
      → IsNumber f
      → is_negative f.offset ≡ false
      → o ≤ f.offset
      → Chain (f.offset + f.typlen) fs e
      → Chain o (f ∷ fs) e

Visited-number :
    {i bit : ℕ} {s t : Scan} {f : FieldInfo} → Visited i bit s f t → IsNumber f → AsFixed i s f t
Visited-number v n = elim v.effect [
  | inl a ↦ absurd (ground (arith, a.kind, n.fixed))
  | inr (inl a) ↦ absurd (ground (arith, a.nullable, n.nonnull))
  | inr (inr a) ↦ a
]

pub Trace-Chain :
    {i : ℕ} {s c : Scan} {fs : List FieldInfo}
    → Trace i s fs c
    → Numbers fs
    → s.off < 32768
    → Chain s.off fs c.off
Trace-Chain (done e) none_left h = end (omega (arith, ap (λ (x : Scan). x.off) e))
Trace-Chain {s} {c} (round {t} {f} {fs} v rest) (number n ns) h =
    let a = Visited-number v n in
    let place = AsFixed-place a v.aligned h in
    next n a.in_range place.0
      (subst (λ o. Chain o fs c.off) (sym place.1) (Trace-Chain rest ns place.2))

-- Its bytes, as the writer copies them.
pub copied_bytes-number :
    (f : FieldInfo) (n : ℕ)
    → IsNumber f
    → copied_bytes f.typbyref f.typlen (rep n) ≡ ok (to_bytes f.typlen n)
unfolding copied_bytes
copied_bytes-number f n k = elim k.size [
  | inl e ↦ rw (k.by_value, e) refl
  | inr (inl e) ↦ rw (k.by_value, e) refl
  | inr (inr (inl e)) ↦ rw (k.by_value, e) refl
  | inr (inr (inr e)) ↦ rw (k.by_value, e) refl
]

pub write_field-number :
    (s : Schema) (f : FieldInfo) (n : ℕ) (payload : List ℕ) (off : ℕ)
    → IsNumber f
    → is_negative f.offset ≡ false
    → f.offset + f.typlen ≤ length payload
    → write_field s 0 f (rep n) payload off
      ≡ ok (more (overwrite payload f.offset (to_bytes f.typlen n)) off)
unfolding write_field write_fixed
write_field-number s f n payload off k pos h =
    rw
      (
        pos,
        copied_bytes-number f n k,
        at_zero,
        store_fits payload f.offset (to_bytes f.typlen n)
            (omega (arith, length-to_bytes f.typlen n)),
      )
      refl
  where
    at_zero : 0 + f.offset ≡ f.offset
    at_zero = omega arith

-- The bytes of a number give back as many of its low bits as they hold.
of_bytes-number :
    (f : FieldInfo) (n : ℕ) → IsNumber f → of_bytes (to_bytes f.typlen n) ≡ n % 256 ^ f.typlen
unfolding to_bytes of_bytes
of_bytes-number f n k = elim k.size [
  | inl e ↦ rw e (omega arith)
  | inr (inl e) ↦ rw e (omega arith)
  | inr (inr (inl e)) ↦ rw e (omega arith)
  | inr (inr (inr e)) ↦ rw e (omega arith)
]

from_fixedlen_bytes-number :
    (f : FieldInfo) (n : ℕ) (payload : List ℕ)
    → IsNumber f
    → load payload f.offset f.typlen ≡ some (to_bytes f.typlen n)
    → from_fixedlen_bytes payload f.offset f.typlen ≡ ok (rep (n % 256 ^ f.typlen))
unfolding from_fixedlen_bytes
from_fixedlen_bytes-number f n payload k loaded =
    rw (guard, loaded) (ap (λ v. ok (rep v)) (of_bytes-number f n k))
  where
    guard : (f.typlen == 1) || ((f.typlen == 2) || ((f.typlen == 4) || (f.typlen == 8))) ≡ true
    guard = ground (arith, k.size)

-- And as the reader makes a number of them.
pub get_field-number :
    (s : Schema) (i : ℕ) (f : FieldInfo) (n : ℕ) (payload : List ℕ)
    → get_elem? s.field i ≡ some f
    → IsNumber f
    → is_negative f.offset ≡ false
    → load payload f.offset f.typlen ≡ some (to_bytes f.typlen n)
    → get_field s i payload ≡ ok (rep (n % 256 ^ f.typlen))
unfolding get_field field_is_null get_offset_and_length
get_field-number s i f n payload at k pos loaded =
    rw (at, k.nonnull, pos, k.fixed, k.by_value) (from_fixedlen_bytes-number f n payload k loaded)
