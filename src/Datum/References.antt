-- ===== src/Datum/References.antt =====
-- What references to Datums of include/base/datum.h read, and what a deep copy shares.
use database_systems.Common.{
  ℕ, zero, suc, ◌+◌, ◌<◌, ◌≤◌, ◌==◌, ◌&&◌, leb, ltb, [], ◌∷◌, ◌∙◌, ap₂, true, false, List, Option,
  some, get_elem?, if◌then◌else◌, ok, ◌≡◌, ◌≢◌, refl, ap, arith, Bool-cases, ◌⊎◌, inl, inr,
}
use database_systems.Datum.Cells.{
  Datum, get_varlen_bytes, get_varlen_size, get_varlen_as_string_view, from_owned_bytes,
  has_external_ref, deep_copy, copied_datum, Memory, memcpy, datum_ref, get_datum, ref_varlen_bytes,
  ref_varlen_size, ref_varlen_as_string_view,
}

module _ (variables : List (Option Datum)) (i : ℕ) (d : Datum)
    (here : get_elem? variables i ≡ some (some d)) where
  -- A DatumRef made of a Datum in a variable. If the Datum is of variable length, the reference's
  -- getters return the Datum's pointer and size; otherwise it is the Datum's value. The getters
  -- do not depend on whether the Datum is null.
  pub datum_ref_reads :
      ((d.isvarlen ≡ true)
        × (ref_varlen_bytes variables (datum_ref i d) ≡ ok (get_varlen_bytes d))
        × (ref_varlen_size variables (datum_ref i d) ≡ ok (get_varlen_size d))
        × (ref_varlen_as_string_view variables (datum_ref i d) ≡ ok (get_varlen_as_string_view d)))
      ⊎ ((d.isvarlen ≡ false) × (datum_ref i d ≡ d.val))
  unfolding datum_ref ref_varlen_bytes ref_varlen_size ref_varlen_as_string_view get_datum
  datum_ref_reads = elim (Bool-cases d.isvarlen) [
    | inl e ↦ inl (e, rw (e, here) refl, rw (e, here) refl, rw (e, here) refl)
    | inr e ↦ inr (e, rw e refl)
  ]

-- The bytes from an address on.
abbrev pub bytes_at : Memory → ℕ → ℕ → List ℕ
bytes_at mem p zero = []
bytes_at mem p (suc n) = mem p ∷ bytes_at mem (p + 1) n

-- Two places that have the same bytes.
bytes_at-eq :
    (n p q : ℕ) (mem mem' : Memory)
    → ((k : ℕ) → k < n → mem (p + k) ≡ mem' (q + k))
    → bytes_at mem p n ≡ bytes_at mem' q n
bytes_at-eq zero p q mem mem' h = refl
bytes_at-eq (suc n) p q mem mem' h =
    ap₂ ◌∷◌ (ap mem (omega arith) ∙ h 0 (omega arith) ∙ ap mem' (omega arith)) (
      bytes_at-eq n (p + 1) (q + 1) mem mem'
        λ k small. ap mem (omega arith) ∙ h (k + 1) (omega arith) ∙ ap mem' (omega arith))

memcpy-inside :
    (to from size k : ℕ) (mem : Memory)
    → k < size
    → memcpy to from size mem (to + k) ≡ mem (from + k)
memcpy-inside to from size k mem h = rw inside (ap mem (omega arith))
  where
    inside : (leb to (to + k) && ltb (to + k) (to + size)) ≡ true
    inside = ground arith

memcpy-outside :
    (to from size a : ℕ) (mem : Memory)
    → (a < to) ⊎ (to + size ≤ a)
    → memcpy to from size mem a ≡ mem a
memcpy-outside to from size a mem h = rw outside refl
  where
    outside : (leb to a && ltb a (to + size)) ≡ false
    outside = ground (arith, h)

-- DeepCopy of a Datum of variable length, with a pointer from the allocation that is not null and
-- whose block does not overlap the Datum's bytes. The copy has the size of the Datum and the same
-- bytes, and the Datum's bytes and those outside the block stay. If the Datum owns its bytes, the
-- copy owns the new block. If it does not, the copy still points to the Datum's bytes.
pub deep_copy-bytes :
    (fresh : ℕ) (d : Datum) (mem : Memory)
    → fresh ≢ 0
    → d.isvarlen ≡ true
    → (d.val + d.size ≤ fresh) ⊎ (fresh + d.size ≤ d.val)
    → (get_varlen_size (deep_copy fresh d mem).0 ≡ d.size)
      × (bytes_at (deep_copy fresh d mem).1 (get_varlen_bytes (deep_copy fresh d mem).0) d.size
          ≡ bytes_at mem d.val d.size)
      × (bytes_at (deep_copy fresh d mem).1 d.val d.size ≡ bytes_at mem d.val d.size)
      × ((a : ℕ) → (a < fresh) ⊎ (fresh + d.size ≤ a) → (deep_copy fresh d mem).1 a ≡ mem a)
      × (get_varlen_bytes (deep_copy fresh d mem).0 ≡ (if d.isowned then fresh else d.val))
      × ((deep_copy fresh d mem).0.isowned ≡ d.isowned)
unfolding deep_copy copied_datum has_external_ref from_owned_bytes get_varlen_bytes get_varlen_size
deep_copy-bytes fresh d mem given varlen apart = elim (Bool-cases d.isowned) [
  | inl e ↦
      rw (varlen, e, nonnull)
        (
          refl,
          bytes_at-eq d.size fresh d.val (memcpy fresh d.val d.size mem) mem
              λ k small. memcpy-inside fresh d.val d.size k mem small,
          bytes_at-eq d.size d.val d.val (memcpy fresh d.val d.size mem) mem
              λ k small. memcpy-outside fresh d.val d.size (d.val + k) mem (beside k small),
          λ a out. memcpy-outside fresh d.val d.size a mem out,
          refl,
          refl,
        )
  | inr e ↦ rw (varlen, e) (refl, refl, refl, λ a out. refl, refl, refl)
]
  where
    nonnull : (fresh == 0) ≡ false
    nonnull = ground (arith, given)

    beside : (k : ℕ) → k < d.size → (d.val + k < fresh) ⊎ (fresh + d.size ≤ d.val + k)
    beside k small = elim apart [ inl h ↦ inl (omega arith) | inr h ↦ inr (omega arith) ]
