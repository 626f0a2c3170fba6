-- ===== src/Schema/Established.antt =====
-- ComputeLayoutImpl establishes IsLaidOut.
use database_systems.Common.{
  ℕ, zero, ◌+◌, ◌-◌, ◌≤◌, ◌<◌, ◌≡◌, refl, sym, ap, ap₂, ◌∙◌, subst, Bool, true, false, ◌⊎◌, inl,
  inr, List, [], ◌∷◌, ◌++◌, Option, some, length, length-append, ◌==◌, arith, Bool-cases, some_inj,
  take, replicate, length-take, length-drop, drop, take-append-drop, length-replicate,
}
use database_systems.Schema.Defs.{Schema, FieldInfo, CatType}
use database_systems.Schema.Kinds.{is_varlen, is_nullable_fixed, is_fixed, ids}
use database_systems.Schema.Layout.{Scan}
use database_systems.Schema.Visit.{GivesLengths, GivesAlignments}
use database_systems.Schema.Trace.{Trace, Trace-counts, Pass-cases, scan_fields-Trace}
use database_systems.Schema.Order.{scan-reorder}
use database_systems.Schema.Sections.{assign-reorder}
use database_systems.Schema.Bits.{
  NullBits, count_nullable, Trace-nullable_varlen, assign-NullBits, assign-nullable_fields,
  assign-ids, IsKind, Trace-NullBits,
}
use database_systems.Schema.Compute.{
  finished, overflowed, failed, scan_fields, initial_scan, after_scan, assign_fields, Assign,
  place_varlen, place_fixed_only, compute_layout, counted, assigned, resize,
}
use database_systems.Schema.Laid.{
  IsLaidOut, Trace-off, place_fixed_only-placed, place_varlen-placed,
}

length-resize : (xs : List ℕ) (n : ℕ) → length (resize xs n) ≡ n
length-resize xs n = omega (
  arith,
  length-append (take n xs) (replicate (n - length xs) 0),
  length-take n xs,
  length-replicate (n - length xs) (Prim.Native.Nat.zero),
)

nil_of_length {ℓ} : {A : Type ℓ} (xs : List A) → length xs ≡ 0 → xs ≡ []
nil_of_length [] h = refl
nil_of_length (x ∷ xs) h = absurd (omega arith)

module _ (s : Schema) (fs : List FieldInfo) (c : Scan) (fresh : s.layout_computed ≡ false)
    (few : length fs < 16384) (same : length fs ≡ length s.field)
    (tr : Trace 0 (initial_scan s) fs c) where
  start_order :
      (rs : List ℕ) × (c.reorder ≡ ids is_fixed 0 fs ++ rs)
      × (length fs ≡ length (ids is_fixed 0 fs) + length rs)
  start_order =
      let (rs, e, n) =
        scan-reorder tr [] (initial_scan s).reorder refl refl
          (omega (arith, length-resize s.field_reorder_idx (length s.field))) in
      (rs, e, omega (arith, length-resize s.field_reorder_idx (length s.field)))

  totals_fit :
      (c.nonnullable + c.varlen + c.nullable_fixed ≡ length fs)
      × (c.off < 32768)
      × (c.nullable_varlen ≤ c.varlen)
      × (c.nullable_varlen + c.nullable_fixed ≡ count_nullable fs)
  totals_fit =
      omega
        (arith, Trace-counts tr, Trace-off tr (omega arith), Trace-nullable_varlen tr (omega arith))

  fast-IsLaidOut :
      c.nonnullable ≡ length fs
      → (place_fixed_only (counted s fs c) c.off).layout_computed ≡ true
      → IsLaidOut (place_fixed_only (counted s fs c) c.off)
  fast-IsLaidOut all e =
      let (rs, order, left) = start_order in
      let (shape, above, below) =
        place_fixed_only-placed (counted s fs c) c.off totals_fit.1 fresh e in
      rw shape (record {
        start = initial_scan s;
        totals = c;
        zero = (refl, refl, refl, refl, refl);
        trace = tr;
        bits = Trace-NullBits tr (omega (arith, totals_fit)) (omega (arith, totals_fit));
        order =
            order
            ∙ ap (◌++◌ (ids is_fixed 0 fs)) (
                nil_of_length rs (omega (arith, totals_fit, Trace-counts tr))
                ∙ sym (
                    ap₂ ◌++◌
                      (nil_of_length (ids is_varlen 0 fs)
                        (omega (arith, totals_fit, Trace-counts tr)))
                      (nil_of_length (ids is_nullable_fixed 0 fs)
                        (omega (arith, totals_fit, Trace-counts tr)))));
        fixed_count = refl;
        varlen_count = refl;
        bitmap = above;
        ends = omega (arith, totals_fit);
        payload = omega (arith, totals_fit);
        in_range = below;
      })

  module _ (fs' : List FieldInfo) (a : Assign) (tr' : Trace 0 (initial_scan s) fs' c)
      (bits' : NullBits c 0 (initial_scan s) fs')
      (order' : a.reorder
        ≡ ids is_fixed 0 fs' ++ (ids is_varlen 0 fs' ++ ids is_nullable_fixed 0 fs'))
      (count' : a.nullable_fields ≡ count_nullable fs') where
    assigned-IsLaidOut :
        (place_varlen (assigned s fs c (fs', a)) c.off a.nullable_fields).layout_computed ≡ true
        → IsLaidOut (place_varlen (assigned s fs c (fs', a)) c.off a.nullable_fields)
    assigned-IsLaidOut e =
        let total : a.nullable_fields ≡ c.nullable_varlen + c.nullable_fixed =
          omega (arith, count', Trace-nullable_varlen tr' (omega arith)) in
        let (shape, above, below) =
          place_varlen-placed (assigned s fs c (fs', a)) c.off a.nullable_fields totals_fit.1
            (omega (arith, totals_fit)) (omega (arith, totals_fit)) fresh e in
        rw shape (record {
          start = initial_scan s;
          totals = c;
          zero = (refl, refl, refl, refl, refl);
          trace = tr';
          bits = bits';
          order = order';
          fixed_count = refl;
          varlen_count = refl;
          bitmap = omega arith;
          ends = rw (← count') above;
          payload = omega arith;
          in_range = below;
        })

  slow-IsLaidOut :
      let r = assign_fields c 0 fs (record { reorder = c.reorder; nullable_fields = 0 }) in
      (place_varlen (assigned s fs c r) c.off r.1.nullable_fields).layout_computed ≡ true
      → IsLaidOut (place_varlen (assigned s fs c r) c.off r.1.nullable_fields)
  slow-IsLaidOut e =
      assigned-IsLaidOut r.0 r.1 later.0 later.1 (second_order ∙ moved)
        (assign-nullable_fields c 0 fs a0 ∙ same_count) e
    where
      a0 : Assign
      a0 = record { reorder = c.reorder; nullable_fields = 0 }

      r : List FieldInfo × Assign
      r = assign_fields c 0 fs a0

      bound : c.varlen + c.nullable_fixed < 32768
      bound = omega (arith, totals_fit)

      later : Trace 0 (initial_scan s) r.0 c × NullBits c 0 (initial_scan s) r.0
      later = assign-NullBits tr totals_fit.2 bound a0

      same_ids : (p : FieldInfo → Bool) → IsKind p → ids p 0 r.0 ≡ ids p 0 fs
      same_ids = assign-ids tr totals_fit.2 bound a0

      same_count : 0 + count_nullable fs ≡ count_nullable r.0
      same_count = omega (arith, totals_fit, Trace-nullable_varlen later.0 (omega arith))

      rs : List ℕ
      rs = start_order.0

      second_order :
          r.1.reorder ≡ ids is_fixed 0 fs ++ (ids is_varlen 0 fs ++ ids is_nullable_fixed 0 fs)
      second_order =
          assign-reorder tr bound a0 (ids is_fixed 0 fs) (take c.varlen rs) [] (drop c.varlen rs)
            (start_order.1 ∙ ap (◌++◌ (ids is_fixed 0 fs)) (sym (take-append-drop c.varlen rs)))
            (omega (arith, Trace-counts tr))
            (omega (arith, length-take c.varlen rs, start_order.2, Trace-counts tr)) (omega arith)
            (omega (arith, length-drop c.varlen rs, start_order.2, Trace-counts tr))

      moved :
          ids is_fixed 0 fs ++ (ids is_varlen 0 fs ++ ids is_nullable_fixed 0 fs)
          ≡ ids is_fixed 0 r.0 ++ (ids is_varlen 0 r.0 ++ ids is_nullable_fixed 0 r.0)
      moved = sym (
          ap₂ ◌++◌ (same_ids is_fixed (λ f g p q. rw (p, q))) (
            ap₂ ◌++◌ (same_ids is_varlen (λ f g p q. rw p))
              (same_ids is_nullable_fixed (λ f g p q. rw (p, q)))))

  after_scan-IsLaidOut : (after_scan s fs c).layout_computed ≡ true → IsLaidOut (after_scan s fs c)
  unfolding after_scan
  after_scan-IsLaidOut e = elim (Bool-cases (c.nonnullable == length fs)) [
    | inl all ↦ rw all (fast-IsLaidOut (ground arith) (rw all at e))
    | inr some_left ↦ rw some_left (slow-IsLaidOut (rw some_left at e))
  ]

-- Take a catalog whose alignments are 1, 2, 4 or 8 and whose length functions give no negative
-- length, and a schema of fewer than 2 ^ 14 fields whose layout is not computed. If ComputeLayout
-- returns with the layout marked as computed, then every field is placed in the section of its
-- kind, the storage order lists the sections one after the other with each in field order, and the
-- sections lie behind one another within 2 ^ 15 bytes.
pub compute_layout-IsLaidOut :
    (find_type : ℕ → Option CatType) (call_length : ℕ → ℕ → Option ℕ) (s s' : Schema)
    → GivesAlignments find_type
    → GivesLengths call_length
    → length s.field < 16384
    → s.layout_computed ≡ false
    → compute_layout find_type call_length s ≡ some s'
    → s'.layout_computed ≡ true
    → IsLaidOut s'
unfolding compute_layout
compute_layout-IsLaidOut find_type call_length s s' aligns lengths few fresh e k = elim found [
  | inl (fs, c, p) ↦
      let made : after_scan s fs c ≡ s' = some_inj (rw (p, compute_layout) at e) in
      let ran =
        scan_fields-Trace find_type call_length aligns lengths 0 s.field (initial_scan s) p in
      subst IsLaidOut made (
        after_scan-IsLaidOut s fs c fresh (omega (arith, ran.1)) ran.1 ran.0
          (ap (λ (x : Schema). x.layout_computed) made ∙ k))
  | inr (inl (fs, c, p)) ↦
      let made = some_inj (rw (p, compute_layout) at e) in
      cc (ap (λ (x : Schema). x.layout_computed) made, fresh, k)
  | inr (inr p) ↦ cc (rw (p, compute_layout) at e)
]
  where
    found :
        ((fs : List FieldInfo) × (c : Scan) × (scan_fields find_type call_length 0 s.field
              (initial_scan s)
            ≡ finished fs c))
        ⊎ (((fs : List FieldInfo) × (c : Scan) × (scan_fields find_type call_length 0 s.field
                  (initial_scan s)
                ≡ overflowed fs c))
            ⊎ (scan_fields find_type call_length 0 s.field (initial_scan s) ≡ failed))
    found = Pass-cases (scan_fields find_type call_length 0 s.field (initial_scan s))
