-- ===== src/Payload/Results.antt =====
-- What WritePayloadToBuffer leaves in the buffer, and what it does to values that are too long.
use database_systems.Common.{
  ◌||◌, throws, inl, ◌*◌, ◌/◌, inr, ℕ, ◌+◌, ◌-◌, ◌%◌, ◌≤◌, ◌<◌, ◌≡◌, refl, ap, ◌∙◌, true, List,
  Option, some, length, take, length-take, arith, Result, ok, Ensures, >>=-Ensures, Ensures_ok,
  throws, undefined, resize, Bool-cases, leb, load,
}
use database_systems.Base.Align.{is_negative, int16, max_align, type_align, max_align_lem}
use database_systems.Schema.Defs.{Schema, FieldInfo, minus_one}
use database_systems.Payload.Write.{
  Value, bytes, Round, more, too_long, finish, finish_round, write_payload, write_fields, bias,
  sum_negative, write_aligned, append_bytes, copied_bytes,
}
use database_systems.Payload.Lengths.{length-resize, take_all}
use database_systems.Payload.Steady.{Steady, RoundSteady, write_fields-Steady}

-- The buffer ends `n` bytes behind the next multiple of 8 of its old size, where `n` is a multiple
-- of 8 too.
abbrev pub IsAppended : List ℕ → List ℕ → ℕ → Type 0
IsAppended buf out n = (length out ≡ max_align (length buf) + n) × (n % 8 ≡ 0)

module _ (init_len : ℕ) (small : init_len < 32768) where
  finish-length :
      (buf out : List ℕ) (off n : ℕ)
      → Steady init_len buf off
      → 0 < n
      → n < 32768
      → finish init_len buf off ≡ ok (some (out, n))
      → (length out ≡ init_len + n) × (n % 8 ≡ 0)
  unfolding finish
  finish-length buf out off n st pos below e = (
    ground (arith, aligned, length-resize 0 buf (bias (max_align off) + init_len - 32768)),
    ground (arith, aligned),
  )
    where
      aligned : max_align off ≡ (off + 7) / 8 * 8 % 65536
      aligned = max_align_lem off (omega arith)

abbrev Appended : List ℕ → Option (List ℕ × ℕ) → Type 0
Appended buf r =
    (out : List ℕ) (n : ℕ) → r ≡ some (out, n) → 0 < n → n < 32768 → IsAppended buf out n

finish_round-Appended :
    (buf : List ℕ) (r : Round)
    → max_align (length buf) < 32768
    → RoundSteady (max_align (length buf)) r
    → (out : List ℕ) (n : ℕ) → finish_round (max_align (length buf)) r ≡ ok (some (out, n))
    → 0 < n
    → n < 32768
    → IsAppended buf out n
unfolding finish_round
finish_round-Appended buf too_long h st out n e pos below = absurd (cc)
finish_round-Appended buf (more total off) h st out n e pos below =
    finish-length (max_align (length buf)) h total out off n st pos below e

-- A postcondition of every value that a call can come to.
any-Ensures {ℓ κ} :
    {A : Type ℓ} (P : A → Type κ) (r : Result A) → ((a : A) → r ≡ ok a → P a) → Ensures P r
any-Ensures P (ok a) h = h a refl
any-Ensures P (throws x) h = tt
any-Ensures P undefined h = tt

write_payload-Ensures :
    (s : Schema) (values : List Value) (buf : List ℕ)
    → Ensures (Appended buf) (write_payload s values buf)
unfolding write_payload
write_payload-Ensures s values buf = elim (Bool-cases (leb 32767 (length buf))) [
  | inl e ↦ rw e (λ out n. cc)
  | inr e ↦ rw e (elim (Bool-cases (is_negative m || sum_negative m start)) [
    | inl e' ↦ rw e' (λ out n. cc)
    | inr e' ↦ rw e' (
        >>=-Ensures (RoundSteady m) (Appended buf)
          (write_fields s m values s.field_reorder_idx begun start) _
          (write_fields-Steady m s values s.field_reorder_idx begun start
            (ground (arith, length-resize 0 buf (bias start + m - 32768))))
          λ r st. any-Ensures (Appended buf) (finish_round m r) λ a e'' out n same.
            finish_round-Appended buf r (ground arith) st out n (e'' ∙ ap ok same))
  ])
]
  where
    m : ℕ
    m = max_align (length buf)

    start : ℕ
    start = int16 s.varlen_payload_begin

    begun : List ℕ
    begun = resize 0 buf (bias start + m - 32768)

-- When WritePayloadToBuffer returns a positive length `n`, the buffer's size is its old size
-- rounded up to a multiple of 8, plus `n`, which is a multiple of 8 as well. This holds for every
-- schema and every values.
pub write_payload-IsAppended :
    (s : Schema) (values : List Value) (buf out : List ℕ) (n : ℕ)
    → write_payload s values buf ≡ ok (some (out, n))
    → 0 < n
    → n < 32768
    → IsAppended buf out n
write_payload-IsAppended s values buf out n e =
    Ensures_ok (Appended buf) (write_payload s values buf) (some (out, n))
      (write_payload-Ensures s values buf) e out n refl

copied-take :
    (bs : List ℕ) (n : ℕ)
    → n ≤ length bs
    → copied_bytes true n (bytes (take n bs)) ≡ copied_bytes true n (bytes bs)
unfolding copied_bytes load
copied-take bs n h = ground (arith, length-take n bs, take_all n (take n bs))

append_bytes-take :
    (init_len newoff n : ℕ) (bs payload : List ℕ) (off : ℕ)
    → n ≤ length bs
    → append_bytes init_len true newoff n (bytes (take n bs)) payload off
      ≡ append_bytes init_len true newoff n (bytes bs) payload off
unfolding append_bytes
append_bytes-take init_len newoff n bs payload off h = rw (copied-take bs n h)

-- For a field of length -1 that is passed by reference, the round that writes a value of `size`
-- bytes does the same as for the first `size % 2 ^ 16` bytes alone: a value of 2 ^ 16 bytes or more is
-- cut down without an error.
pub write_aligned-truncates :
    (s : Schema) (init_len : ℕ) (f : FieldInfo) (bs : List ℕ) (payload : List ℕ) (off : ℕ)
    → f.typlen ≡ minus_one
    → f.typbyref ≡ true
    → write_aligned s init_len f (bytes bs) payload off
      ≡ write_aligned s init_len f (bytes (take (length bs % 65536) bs)) payload off
unfolding write_aligned
write_aligned-truncates s init_len f bs payload off e k = simp (
  k,
  e,
  size,
  λ (p : List ℕ). append_bytes-take init_len (type_align f.typalign off) n bs p off (omega arith),
)
  where
    n : ℕ
    n = length bs % 65536

    size : length (take (length bs % 65536) bs) % 65536 ≡ length bs % 65536
    size = omega (arith, length-take (length bs % 65536) bs)
