-- ===== src/Schema/Sections.antt =====
-- The second layout loop: it completes the storage order.
use database_systems.Common.{
  ℕ, suc, ◌+◌, ◌≤◌, ◌<◌, ◌≡◌, refl, sym, ap, ◌∙◌, true, false, inl, inr, List, [], ◌∷◌, ◌++◌,
  length, length-append, set, arith,
}
use mathlib.Core.List.{append-nil, append_assoc}
use database_systems.Schema.Defs.{FieldInfo, is_nullable}
use database_systems.Schema.Kinds.{is_varlen, is_nullable_fixed, ids, ids-cons_true, ids-cons_false}
use database_systems.Schema.Layout.{Scan, negate}
use database_systems.Schema.Visit.{Visited, AsVarlen, AsNullable, AsFixed}
use database_systems.Schema.Trace.{Trace, done, round, Trace-counts}
use database_systems.Schema.Order.{set-append}
use database_systems.Schema.Compute.{Assign, assign_field, assign_fields}

uncons {ℓ} : {A : Type ℓ} (xs : List A) → 0 < length xs → (x : A) × (ys : List A) × (xs ≡ x ∷ ys)
uncons [] h = absurd (omega arith)
uncons (x ∷ xs) h = (x, xs, refl)

nil_of_length {ℓ} : {A : Type ℓ} (xs : List A) → length xs ≡ 0 → xs ≡ []
nil_of_length [] h = refl
nil_of_length (x ∷ xs) h = absurd (omega arith)

module _ (c : Scan) (i : ℕ) (f : FieldInfo) (a : Assign) where
  assign_field-varlen :
      (k : ℕ)
      → is_varlen f ≡ true
      → f.offset ≡ negate (k + 1)
      → k < 32768
      → (assign_field c i f a).1.reorder ≡ set a.reorder (c.nonnullable + k) i
  unfolding assign_field
  assign_field-varlen k v e h = ground arith

  assign_field-nullable :
      (k : ℕ)
      → is_varlen f ≡ false
      → is_nullable f ≡ true
      → f.offset ≡ negate (k + 1)
      → k < 32768
      → (assign_field c i f a).1.reorder ≡ set a.reorder (c.nonnullable + c.varlen + k) i
  unfolding assign_field
  assign_field-nullable k v n e h = ground arith

  assign_field-fixed :
      is_varlen f ≡ false → is_nullable f ≡ false → (assign_field c i f a).1.reorder ≡ a.reorder
  unfolding assign_field
  assign_field-fixed v n = ground arith

-- What the second loop makes of the storage order from field `i` on. Behind the `ps` stand the
-- places of the variable-length fields still to come, the nullable fixed-length fields `qs` that
-- have theirs, and the places of those still to come.
abbrev AssignOrder : ℕ → Scan → List FieldInfo → Scan → Type 0
AssignOrder i s fs c =
    (a : Assign) (ps rs qs ss : List ℕ)
    → a.reorder ≡ ps ++ (rs ++ (qs ++ ss))
    → length ps ≡ c.nonnullable + s.varlen
    → s.varlen + length rs ≡ c.varlen
    → length qs ≡ s.nullable_fixed
    → s.nullable_fixed + length ss ≡ c.nullable_fixed
    → (assign_fields c i fs a).1.reorder
      ≡ ps ++ (ids is_varlen i fs ++ (qs ++ ids is_nullable_fixed i fs))

-- The place that the two loops' counts give is the first of those that are left.
place_next :
    (xs ps qs rs : List ℕ) (k i : ℕ)
    → xs ≡ ps ++ (qs ++ rs)
    → k ≡ length ps
    → 0 < length qs
    → (qs' : List ℕ) × (set xs k i ≡ (ps ++ (i ∷ [])) ++ (qs' ++ rs))
      × (length qs ≡ suc (length qs'))
place_next xs ps [] rs k i e l h = absurd (omega arith)
place_next xs ps (q ∷ qs) rs k i e l h =
    (qs, rw (e, l, set-append ps q i (qs ++ rs)) (sym (append_assoc ps (i ∷ []) (qs ++ rs))), refl)

module _ (i : ℕ) (s t c : Scan) (f : FieldInfo) (fs : List FieldInfo) where
  AssignOrder-varlen :
      AsVarlen s f t
      → c.varlen < 32768
      → t.varlen ≤ c.varlen
      → AssignOrder (i + 1) t fs c
      → AssignOrder i s (f ∷ fs) c
  unfolding assign_fields
  AssignOrder-varlen v bound more ih a ps rs qs ss e p r q n =
      let (rs', placed, left) =
        place_next a.reorder ps rs (qs ++ ss) (c.nonnullable + s.varlen) i e (sym p)
          (omega (arith, v.counted)) in
      let written =
        assign_field-varlen c i f a s.varlen v.kind v.index (omega (arith, v.counted)) in
      let rest =
        ih (assign_field c i f a).1 (ps ++ (i ∷ [])) rs' qs ss (written ∙ placed)
          (omega (arith, length-append ps (i ∷ []), v.counted)) (omega (arith, v.counted))
          (omega (arith, v.same)) (omega (arith, v.same)) in
      rw
        (
          ids-cons_true is_varlen i f fs v.kind,
          ids-cons_false is_nullable_fixed i f fs (ground (arith, v.kind)),
        )
        (rest ∙ append_assoc ps (i ∷ []) _)

  AssignOrder-nullable :
      AsNullable s f t
      → c.nullable_fixed < 32768
      → t.nullable_fixed ≤ c.nullable_fixed
      → AssignOrder (i + 1) t fs c
      → AssignOrder i s (f ∷ fs) c
  unfolding assign_fields
  AssignOrder-nullable v bound more ih a ps rs qs ss e p r q n =
      let front : List ℕ = ps ++ (rs ++ qs) in
      let split : a.reorder ≡ front ++ (ss ++ []) = e ∙ simp (append_assoc, append-nil) in
      let (ss', placed, left) =
        place_next a.reorder front ss [] (c.nonnullable + c.varlen + s.nullable_fixed) i split
          (omega (arith, length-append ps (rs ++ qs), length-append rs qs))
          (omega (arith, v.counted)) in
      let written =
        assign_field-nullable c i f a s.nullable_fixed v.kind v.nullable v.index
          (omega (arith, v.counted)) in
      let rest =
        ih (assign_field c i f a).1 ps rs (qs ++ (i ∷ [])) ss'
          (written ∙ placed ∙ simp (append_assoc, append-nil)) (omega (arith, v.same))
          (omega (arith, v.same)) (omega (arith, length-append qs (i ∷ []), v.counted))
          (omega (arith, v.counted)) in
      rw
        (
          ids-cons_false is_varlen i f fs v.kind,
          ids-cons_true is_nullable_fixed i f fs (ground (arith, v.kind, v.nullable)),
        )
        (rest ∙ simp append_assoc)

  AssignOrder-fixed : AsFixed i s f t → AssignOrder (i + 1) t fs c → AssignOrder i s (f ∷ fs) c
  unfolding assign_fields
  AssignOrder-fixed v ih a ps rs qs ss e p r q n =
      rw
        (
          ids-cons_false is_varlen i f fs v.kind,
          ids-cons_false is_nullable_fixed i f fs (ground (arith, v.kind, v.nonnullable)),
        )
        (ih (assign_field c i f a).1 ps rs qs ss
          (assign_field-fixed c i f a v.kind v.nonnullable ∙ e) (omega (arith, v.same))
          (omega (arith, v.same)) (omega (arith, v.same)) (omega (arith, v.same)))

  AssignOrder-Visited :
      {bit : ℕ}
      → Visited i bit s f t
      → c.varlen + c.nullable_fixed < 32768
      → (t.varlen ≤ c.varlen) × (t.nullable_fixed ≤ c.nullable_fixed)
      → AssignOrder (i + 1) t fs c
      → AssignOrder i s (f ∷ fs) c
  AssignOrder-Visited v bound more ih = elim v.effect [
    | inl a ↦ AssignOrder-varlen a (omega arith) more.0 ih
    | inr (inl a) ↦ AssignOrder-nullable a (omega arith) more.1 ih
    | inr (inr a) ↦ AssignOrder-fixed a ih
  ]

-- The second loop fills in the variable-length and then the nullable fixed-length fields.
pub assign-reorder :
    {i : ℕ} {s c : Scan} {fs : List FieldInfo}
    → Trace i s fs c
    → c.varlen + c.nullable_fixed < 32768
    → AssignOrder i s fs c
unfolding assign_fields
assign-reorder (done e) bound = λ a ps rs qs ss r p n q m.
    rw
      (
        nil_of_length rs (omega (arith, ap (λ (x : Scan). x.varlen) e)),
        nil_of_length ss (omega (arith, ap (λ (x : Scan). x.nullable_fixed) e)),
      )
      at r
assign-reorder (round {i} {s} {t} {c} {f} {fs} v rest) bound =
    AssignOrder-Visited i s t c f fs v bound
      (omega (arith, Trace-counts rest), omega (arith, Trace-counts rest))
      (assign-reorder rest bound)
