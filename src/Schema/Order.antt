-- ===== src/Schema/Order.antt =====
-- The storage order that the layout computes.
use database_systems.Common.{
  ℕ, suc, ◌+◌, ◌≤◌, ◌<◌, ◌≡◌, refl, sym, ap, ◌∙◌, true, false, inl, inr, List, [], ◌∷◌, ◌++◌,
  length, length-append, set, arith,
}
use mathlib.Core.List.{append-nil, append_assoc}
use database_systems.Schema.Defs.{FieldInfo}
use database_systems.Schema.Kinds.{is_fixed, ids, ids-cons_true, ids-cons_false}
use database_systems.Schema.Layout.{Scan}
use database_systems.Schema.Visit.{Visited, AsFixed}
use database_systems.Schema.Trace.{Trace, done, round}

pub set-append {ℓ} :
    {A : Type ℓ} (xs : List A) (x y : A) (ys : List A)
    → set (xs ++ (x ∷ ys)) (length xs) y ≡ xs ++ (y ∷ ys)
set-append [] x y ys = refl
set-append (z ∷ xs) x y ys = ap (◌∷◌ z) (set-append xs x y ys)

-- A write to the first of the places that a prefix leaves.
set_next :
    (xs ps qs : List ℕ) (n y : ℕ)
    → xs ≡ ps ++ qs
    → n ≡ length ps
    → 0 < length qs
    → (rs : List ℕ) × (set xs n y ≡ (ps ++ (y ∷ [])) ++ rs) × (length qs ≡ suc (length rs))
set_next xs ps [] n y e k h = absurd (omega arith)
set_next xs ps (q ∷ rs) n y e k h =
    (rs, rw (e, k, set-append ps q y rs) (sym (append_assoc ps (y ∷ []) rs)), refl)

-- What the first loop makes of the storage order from field `i` on: the rest of the places that
-- are left behind the prefix `ps`.
abbrev ScanOrder : ℕ → Scan → List FieldInfo → Scan → Type 0
ScanOrder i s fs c =
    (ps qs : List ℕ)
    → s.reorder ≡ ps ++ qs
    → s.nonnullable ≡ length ps
    → length fs ≤ length qs
    → (rs : List ℕ) × (c.reorder ≡ (ps ++ ids is_fixed i fs) ++ rs)
      × (length qs ≡ length (ids is_fixed i fs) + length rs)

module _ (i : ℕ) (s t c : Scan) (f : FieldInfo) (fs : List FieldInfo) where
  ScanOrder-other :
      is_fixed f ≡ false
      → (t.reorder ≡ s.reorder) × (t.nonnullable ≡ s.nonnullable)
      → ScanOrder (i + 1) t fs c
      → ScanOrder i s (f ∷ fs) c
  ScanOrder-other k same ih ps qs r n h =
      rw (ids-cons_false is_fixed i f fs k) (ih ps qs (same.0 ∙ r) (same.1 ∙ n) (omega arith))

  ScanOrder-fixed :
      is_fixed f ≡ true → AsFixed i s f t → ScanOrder (i + 1) t fs c → ScanOrder i s (f ∷ fs) c
  ScanOrder-fixed k v ih ps qs r n h =
      let (rs, placed, left) = set_next s.reorder ps qs s.nonnullable i r n (omega arith) in
      let (rest, order, count) =
        ih (ps ++ (i ∷ [])) rs (v.listed ∙ placed)
          (omega (arith, v.counted, length-append ps (i ∷ []))) (omega arith) in
      rw (ids-cons_true is_fixed i f fs k) (
        rest,
        order
            ∙ ap (λ (xs : List ℕ). xs ++ rest) (append_assoc ps (i ∷ []) (ids is_fixed (i + 1) fs)),
        omega arith,
      )

  ScanOrder-Visited :
      {bit : ℕ} → Visited i bit s f t → ScanOrder (i + 1) t fs c → ScanOrder i s (f ∷ fs) c
  ScanOrder-Visited v ih = elim v.effect [
    | inl a ↦ ScanOrder-other (ground (arith, a.kind)) (a.same.3, a.same.1) ih
    | inr (inl a) ↦ ScanOrder-other (ground (arith, a.kind, a.nullable)) (a.same.4, a.same.1) ih
    | inr (inr a) ↦ ScanOrder-fixed (ground (arith, a.kind, a.nonnullable)) a ih
  ]

-- The first loop lists the non-nullable fixed-length fields, in order, from the front.
pub scan-reorder : {i : ℕ} {s c : Scan} {fs : List FieldInfo} → Trace i s fs c → ScanOrder i s fs c
scan-reorder (done e) =
    λ ps qs r n h. (qs, rw append-nil (ap (λ (x : Scan). x.reorder) e ∙ r), omega arith)
scan-reorder (round {i} {s} {t} {c} {f} {fs} v rest) =
    ScanOrder-Visited i s t c f fs v (scan-reorder rest)
