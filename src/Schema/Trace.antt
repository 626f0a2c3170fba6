-- ===== src/Schema/Trace.antt =====
-- The run of the first layout loop, round by round, and what it adds up to.
use database_systems.Common.{
  ℕ, suc, ◌+◌, ◌≡◌, refl, sym, ap, ◌∙◌, subst, ◌⊎◌, inl, inr, List, [], ◌∷◌, Option, length, arith,
}
use database_systems.Schema.Defs.{FieldInfo, CatType}
use database_systems.Schema.Kinds.{is_varlen, is_nullable_fixed, is_fixed, ids}
use database_systems.Schema.Layout.{Scan, Visit, visited, stopped, crashed, visit}
use database_systems.Schema.Visit.{Visited, GivesLengths, GivesAlignments, visit-Visited}
use database_systems.Schema.Compute.{Pass, finished, overflowed, failed, prepend, scan_fields}

-- `Trace i s fs c`: from the variables `s` at field `i`, the loop makes the fields `fs` and ends
-- with the variables `c`.
pub data Trace : ℕ → Scan → List FieldInfo → Scan → Type 0 where
  done : {i : ℕ} {s c : Scan} → c ≡ s → Trace i s [] c
  round :
      {i bit : ℕ} {s t c : Scan} {f : FieldInfo} {fs : List FieldInfo}
      → Visited i bit s f t
      → Trace (i + 1) t fs c
      → Trace i s (f ∷ fs) c

pub Visit-cases :
    (v : Visit)
    → ((f : FieldInfo) × (s : Scan) × (v ≡ visited f s))
      ⊎ (((f : FieldInfo) × (v ≡ stopped f)) ⊎ (v ≡ crashed))
Visit-cases (visited f s) = inl (f, s, refl)
Visit-cases (stopped f) = inr (inl (f, refl))
Visit-cases crashed = inr (inr refl)

prepend-finished :
    (f : FieldInfo) (p : Pass) {fs : List FieldInfo} {c : Scan}
    → prepend f p ≡ finished fs c
    → (fs' : List FieldInfo) × (p ≡ finished fs' c) × (f ∷ fs' ≡ fs)
prepend-finished f (finished fs s) e = (fs, ground arith, ground arith)
prepend-finished f (overflowed fs s) e = cc
prepend-finished f failed e = cc

pub Pass-cases :
    (p : Pass)
    → ((fs : List FieldInfo) × (c : Scan) × (p ≡ finished fs c))
      ⊎ (((fs : List FieldInfo) × (c : Scan) × (p ≡ overflowed fs c)) ⊎ (p ≡ failed))
Pass-cases (finished fs c) = inl (fs, c, refl)
Pass-cases (overflowed fs c) = inr (inl (fs, c, refl))
Pass-cases failed = inr (inr refl)

module _ (find_type : ℕ → Option CatType) (call_length : ℕ → ℕ → Option ℕ)
    (alignments : GivesAlignments find_type) (lengths : GivesLengths call_length) where
  pub scan_fields-Trace :
      (i : ℕ) (fs : List FieldInfo) (s : Scan) {fs' : List FieldInfo} {c : Scan}
      → scan_fields find_type call_length i fs s ≡ finished fs' c
      → Trace i s fs' c × (length fs' ≡ length fs)
  unfolding scan_fields
  scan_fields-Trace i [] s {fs'} {c} e =
      let parts : ([] ≡ fs') × (c ≡ s) = ground arith in
      (subst (λ xs. Trace i s xs c) parts.0 (done parts.1), ap length (sym parts.0))
  scan_fields-Trace i (f ∷ fs) s {c} e = elim (Visit-cases (visit find_type call_length i f s)) [
    | inl (f', t, v) ↦
        let (rest, p, q) =
          prepend-finished f' (scan_fields find_type call_length (i + 1) fs t)
            (rw (v, scan_fields) at e) in
        let later = scan_fields-Trace (i + 1) fs t p in
        (
          subst (λ xs. Trace i s xs c) q
              (round (visit-Visited find_type call_length alignments lengths i f s v) later.0),
          ap length (sym q) ∙ ap suc later.1,
        )
    | inr (inl (f', v)) ↦ cc (rw (v, scan_fields) at e)
    | inr (inr v) ↦ cc (rw (v, scan_fields) at e)
  ]

-- The loop counts every field once.
pub Trace-counts :
    {i : ℕ} {s c : Scan} {fs : List FieldInfo}
    → Trace i s fs c
    → (c.nonnullable ≡ s.nonnullable + length (ids is_fixed i fs))
      × (c.varlen ≡ s.varlen + length (ids is_varlen i fs))
      × (c.nullable_fixed ≡ s.nullable_fixed + length (ids is_nullable_fixed i fs))
      × (c.nonnullable + c.varlen + c.nullable_fixed
          ≡ s.nonnullable + s.varlen + s.nullable_fixed + length fs)
Trace-counts (done e) = ground arith
Trace-counts (round v rest) = ground (arith, Trace-counts rest)
