-- ===== src/Payload/Stores.antt =====
-- What the loop of WritePayloadToBufferImpl (src/catalog/Schema.cpp) stores for a schema of numbers
-- that may not be NULL.
use database_systems.Common.{
  ℕ, ◌+◌, ◌≤◌, true, false, List, [], ◌∷◌, ◌++◌, some, length, take, get_elem?, ok, ◌≡◌, refl,
  arith, sym, ◌∙◌, ap, ap₂, load, to_bytes, overwrite, length-overwrite, take-overwrite, map, subst,
  length-append, take_enough,
}
use mathlib.Core.List.{append_assoc}
use database_systems.Base.Align.{is_negative}
use database_systems.Schema.Defs.{Schema, FieldInfo}
use database_systems.Schema.Kinds.{is_fixed, ids, ids-cons_true}
use database_systems.Payload.Write.{Value, rep, more, write_field, write_fields}
use database_systems.Payload.Places.{take_less, load_in_front, load-overwrite, length-to_bytes}
use database_systems.Payload.Fixed.{IsNumber, Chain, end, next, write_field-number}

-- Each field's place has the bytes of its number.
abbrev pub Stored : List FieldInfo → List ℕ → List ℕ → Type 0
Stored [] [] payload = Unit
Stored (f ∷ fs) (n ∷ ns) payload =
    (load payload f.offset f.typlen ≡ some (to_bytes f.typlen n)) × Stored fs ns payload
Stored _ _ payload = ⊥

pub get_elem?-append {ℓ} :
    {A : Type ℓ} (xs ys : List A) (y : A) → get_elem? (xs ++ (y ∷ ys)) (length xs) ≡ some y
get_elem?-append [] ys y = refl
get_elem?-append (x ∷ xs) ys y = get_elem?-append xs ys y

write_fields-step :
    (s : Schema) (values : List Value) (i : ℕ) (is : List ℕ) (f : FieldInfo) (n : ℕ) (p p' : List ℕ)
    (off : ℕ)
    → get_elem? s.field i ≡ some f
    → get_elem? values i ≡ some (rep n)
    → write_field s 0 f (rep n) p off ≡ ok (more p' off)
    → write_fields s 0 values (i ∷ is) p off ≡ write_fields s 0 values is p' off
unfolding write_fields
write_fields-step s values i is f n p p' off e v w = rw (e, v, w) refl

is_fixed-number : (f : FieldInfo) → IsNumber f → is_fixed f ≡ true
is_fixed-number f k = rw (k.fixed, k.nonnull) refl

pub Chain-bound : {o e : ℕ} {fs : List FieldInfo} → Chain o fs e → o ≤ e
Chain-bound (end h) = h
Chain-bound (next k pos low rest) = omega (arith, Chain-bound rest)

module _ (s : Schema) (values : List Value) (e : ℕ) where
  -- What the loop over these fields comes to: the numbers are stored, and nothing changes in front
  -- of the first of their places.
  unfoldable pub Written : ℕ → ℕ → List FieldInfo → List ℕ → List ℕ → ℕ → Type 0
  Written i o fs ns p off =
      (p' : List ℕ) × (write_fields s 0 values (ids is_fixed i fs) p off ≡ ok (more p' off))
      × (length p' ≡ length p)
      × (take o p' ≡ take o p)
      × Stored fs ns p'

  -- The first field in front of the others.
  Written-cons :
      (i o : ℕ) (f : FieldInfo) (fs : List FieldInfo) (n : ℕ) (ns p : List ℕ) (off : ℕ)
      → get_elem? s.field i ≡ some f
      → get_elem? values i ≡ some (rep n)
      → IsNumber f
      → is_negative f.offset ≡ false
      → o ≤ f.offset
      → f.offset + f.typlen ≤ length p
      → Written (i + 1) (f.offset + f.typlen) fs ns (overwrite p f.offset (to_bytes f.typlen n)) off
      → Written i o (f ∷ fs) (n ∷ ns) p off
  unfolding Written
  Written-cons i o f fs n ns p off fe ve k pos low bound (p', ran, len', front, stored) = (
    p',
    ap (λ is. write_fields s 0 values is p off)
          (ids-cons_true is_fixed i f fs (is_fixed-number f k))
        ∙ write_fields-step s values i (ids is_fixed (i + 1) fs) f n p p1 off fe ve
            (write_field-number s f n p off k pos bound)
        ∙ ran,
    len' ∙ long,
    take_less o (f.offset + f.typlen) p' p1 front (omega arith)
        ∙ take_less o f.offset p1 p (take-overwrite p (to_bytes f.typlen n) f.offset (omega arith))
            low,
    (
      load_in_front f.typlen f.offset (f.offset + f.typlen) p' p1 front (omega arith) (omega arith)
            (omega (arith, long))
          ∙ subst (λ m. load p1 f.offset m ≡ some (to_bytes f.typlen n)) size
              (load-overwrite p f.offset (to_bytes f.typlen n) room),
      stored,
    ),
  )
    where
      p1 : List ℕ
      p1 = overwrite p f.offset (to_bytes f.typlen n)

      size : length (to_bytes f.typlen n) ≡ f.typlen
      size = length-to_bytes f.typlen n

      room : f.offset + length (to_bytes f.typlen n) ≤ length p
      room = omega (arith, size)

      long : length p1 ≡ length p
      long = length-overwrite p (to_bytes f.typlen n) f.offset room

  pub write_numbers :
      (i o : ℕ) (before fs : List FieldInfo) (bvals : List Value) (ns : List ℕ) (p : List ℕ)
      (off : ℕ)
      → s.field ≡ before ++ fs
      → values ≡ bvals ++ map rep ns
      → i ≡ length before
      → i ≡ length bvals
      → length ns ≡ length fs
      → Chain o fs e
      → e ≤ length p
      → Written i o fs ns p off
  unfolding Written write_fields
  write_numbers i o before [] bvals [] p off fe ve ie je same chain fits = (p, refl, refl, refl, tt)
  write_numbers i o before [] bvals (n ∷ ns) p off fe ve ie je same chain fits =
      absurd (omega arith)
  write_numbers i o before (f ∷ fs) bvals [] p off fe ve ie je same chain fits =
      absurd (omega arith)
  write_numbers i o before (f ∷ fs) bvals (n ∷ ns) p off fe ve ie je same (next k pos low rest)
        fits =
      let bound : f.offset + f.typlen ≤ length p = omega (arith, Chain-bound rest) in
      let room : f.offset + length (to_bytes f.typlen n) ≤ length p =
        omega (arith, length-to_bytes f.typlen n) in
      Written-cons i o f fs n ns p off (ap₂ get_elem? fe ie ∙ get_elem?-append before fs f)
        (ap₂ get_elem? ve je ∙ get_elem?-append bvals (map rep ns) (rep n)) k pos low bound
        (write_numbers (i + 1) (f.offset + f.typlen) (before ++ (f ∷ [])) fs (bvals ++ (rep n ∷ []))
          ns (overwrite p f.offset (to_bytes f.typlen n)) off
          (fe ∙ sym (append_assoc before (f ∷ []) fs))
          (ve ∙ sym (append_assoc bvals (rep n ∷ []) (map rep ns)))
          (omega (arith, length-append before (f ∷ [])))
          (omega (arith, length-append bvals (rep n ∷ []))) (omega arith) rest
          (omega (arith, length-overwrite p (to_bytes f.typlen n) f.offset room)))

pub Stored-extend :
    (ns : List ℕ) {o e : ℕ} {fs : List FieldInfo} (p out : List ℕ)
    → Chain o fs e
    → e ≤ length p
    → take (length p) out ≡ p
    → length p ≤ length out
    → Stored fs ns p
    → Stored fs ns out
Stored-extend [] p out (end h) fits front longer stored = tt
Stored-extend (n ∷ ns) p out (end h) fits front longer stored = stored
Stored-extend [] p out (next k pos low rest) fits front longer stored = stored
Stored-extend (n ∷ ns) p out (next {f} k pos low rest) fits front longer stored = (
  load_in_front f.typlen f.offset (length p) out p
        (front ∙ sym (take_enough (length p) p (omega arith))) longer
        (omega (arith, Chain-bound rest)) (omega (arith, Chain-bound rest))
      ∙ stored.0,
  Stored-extend ns p out rest fits front longer stored.1,
)
