-- ===== src/Volatile/Scan.antt =====
-- NextCatEntry of src/catalog/VolatileCatCache.cpp: which entry the iterator moves to.
use database_systems.Common.{
  ℕ, zero, suc, ◌+◌, ◌-◌, ◌%◌, ◌^◌, ◌≤◌, ◌<◌, Bool, true, false, List, [], ◌∷◌, Option, none, some,
  length, get_elem?, leb, if◌then◌else◌, Result, ok, ◌>>=◌, or_undefined, ◌≡◌, ◌⊎◌, inl, inr, refl,
  ap, ◌∙◌, sym, arith,
}
use native.Mathlib.Nat.{eq-or-lt_of_le}
use database_systems.Volatile.Files.{
  InmemFile, VolatileCatCache, CatFileIterator, find_valid, next_cat_entry,
  get_current_cat_entry_record_id, asserted_file,
}

-- No entry from `i` on and below `k` is valid.
abbrev pub NoneValid : List Bool → ℕ → ℕ → Type 0
NoneValid valid i k = (j : ℕ) → i ≤ j → j < k → get_elem? valid j ≡ some false

-- `k` is the first valid entry from `i` on and below `e`.
abbrev pub IsFirstValid : List Bool → ℕ → ℕ → ℕ → Type 0
IsFirstValid valid i e k = (i ≤ k) × (k < e) × (get_elem? valid k ≡ some true) × NoneValid valid i k

flag_cases :
    (valid : List Bool) (i : ℕ)
    → i < length valid
    → (get_elem? valid i ≡ some true) ⊎ (get_elem? valid i ≡ some false)
flag_cases [] i h = absurd (omega arith)
flag_cases (true ∷ bs) zero h = inl refl
flag_cases (false ∷ bs) zero h = inr refl
flag_cases (b ∷ bs) (suc i) h = flag_cases bs i (omega arith)

NoneValid-cons :
    (valid : List Bool) (i k : ℕ)
    → get_elem? valid i ≡ some false
    → NoneValid valid (i + 1) k
    → NoneValid valid i k
NoneValid-cons valid i k e h j p q = elim (eq-or-lt_of_le p) [
  | inl same ↦ ap (get_elem? valid) (sym same) ∙ e
  | inr later ↦ h j (omega arith) q
]

pub find_valid_first :
    (valid : List Bool) (i n : ℕ)
    → i + n ≤ length valid
    → ((find_valid valid i n ≡ ok none) × NoneValid valid i (i + n))
      ⊎ ((k : ℕ) × (find_valid valid i n ≡ ok (some k)) × IsFirstValid valid i (i + n) k)
unfolding find_valid
find_valid_first valid i zero h = inl (refl, λ j p q. absurd (omega arith))
find_valid_first valid i (suc n) h = elim (flag_cases valid i (omega arith)) [
  | inl e ↦ inr (i, ap step e, (omega arith, omega arith, e, λ j p q. absurd (omega arith)))
  | inr e ↦ elim (find_valid_first valid (i + 1) n (omega arith)) [
    | inl (r, nothing) ↦
        inl
          (ap step e ∙ r, NoneValid-cons valid i (i + suc n) e (λ j p q. nothing j p (omega arith)))
    | inr (k, r, (low, high, v, before)) ↦
        inr (k, ap step e ∙ r, (omega arith, omega arith, v, NoneValid-cons valid i k e before))
  ]
]
  where
    step : Option Bool → Result (Option ℕ)
    step o = or_undefined o >>= λ v. if v then ok (some i) else find_valid valid (i + 1) n

-- NextCatEntry on an iterator over an open file with as many flags as offsets, whose end is at most
-- the number of records and below 65535, and whose position is at most its end. It returns true
-- or false. If it returns true, the entry that it moves to is the first valid one from the old
-- position on, and the record ID of the current entry names it. If it returns false, no entry from
-- the old position up to the end is valid.
pub next_cat_entry_first :
    (iter : CatFileIterator) (c : VolatileCatCache) (f : InmemFile)
    → asserted_file iter.fid c ≡ ok f
    → length f.valid ≡ length f.offsets
    → iter.endidx ≤ length f.offsets
    → iter.nextidx ≤ iter.endidx
    → iter.endidx < 65535
    → ((iter' : CatFileIterator) × (next_cat_entry iter c ≡ ok (false, iter'))
        × NoneValid f.valid iter.nextidx iter.endidx)
      ⊎ ((iter' : CatFileIterator) × (k : ℕ) × (next_cat_entry iter c ≡ ok (true, iter'))
          × (get_current_cat_entry_record_id iter' ≡ record { pid = iter.fid; sid = k })
          × IsFirstValid f.valid iter.nextidx iter.endidx k)
unfolding next_cat_entry get_current_cat_entry_record_id
next_cat_entry_first iter c f here flags within ordered small =
    elim (find_valid_first f.valid iter.nextidx (iter.endidx - iter.nextidx) (omega arith)) [
      | inl (r, nothing) ↦ inl (
        record iter { nextidx = (iter.endidx + 1) % 2 ^ 16 },
        rw (here, inside, r) refl,
        λ j p q. nothing j p (omega arith),
      )
      | inr (k, r, (low, high, v, before)) ↦ inr (
        record iter { nextidx = (k + 1) % 2 ^ 16 },
        k,
        rw (here, inside, r) refl,
        ap (λ n. record { pid = iter.fid; sid = n }) (omega arith),
        (low, omega arith, v, before),
      )
    ]
  where
    inside : leb iter.endidx (length f.offsets) ≡ true
    inside = ground arith
