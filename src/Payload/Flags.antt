-- ===== src/Payload/Flags.antt =====
-- One bit of a byte, and one byte of a payload.
use database_systems.Common.{
  ℕ, zero, suc, ◌+◌, ◌^◌, ◌<◌, ◌≤◌, Bool, true, false, not, ◌&&◌, ◌==◌, bit_and, bit_or,
  if◌then◌else◌, ◌≡◌, ◌≢◌, refl, arith, inl, inr, Bool-cases, ==_iff, subst, sym, ap, ap₂, ◌∙◌,
  some_inj, ◌-◌, List, [], ◌∷◌, some, none, length, take, drop, get_elem?, load, leb, ltb,
  overwrite, take-overwrite, drop-overwrite, length-overwrite,
}
use database_systems.Payload.Places.{load_in_front}

all_below : ℕ → (ℕ → Bool) → Bool
all_below zero p = true
all_below (suc n) p = p n && all_below n p

and_split : (a b : Bool) → (a && b) ≡ true → (a ≡ true) × (b ≡ true)
and_split true b h = (refl, h)
and_split false b h = absurd (cc)

all_below-get : (n : ℕ) (p : ℕ → Bool) (k : ℕ) → all_below n p ≡ true → k < n → p k ≡ true
unfolding all_below
all_below-get zero p k h small = absurd (omega arith)
all_below-get (suc n) p k h small = elim (Bool-cases (k == n)) [
  | inl e ↦ subst (λ m. p m ≡ true) (sym ((==_iff k n).0 e)) (and_split (p n) (all_below n p) h).0
  | inr e ↦ all_below-get n p k (and_split (p n) (all_below n p) h).1 (ground arith)
]

abbrev pub bit_test : ℕ → ℕ → Bool
bit_test b k = not (bit_and b (2 ^ k) == 0)

abbrev set_test : ℕ → ℕ → ℕ → Bool
set_test k k' b =
    let now = bit_test (bit_or b (2 ^ k)) k' in
    if k == k' then now else if now then bit_test b k' else not (bit_test b k')

set_tests : all_below 8 (λ k. all_below 8 (λ k'. all_below 256 (set_test k k'))) ≡ true
unfolding all_below
set_tests = refl

-- A byte in which one bit has been set.
pub bit_test-set :
    (b k k' : ℕ)
    → b < 256
    → k < 8
    → k' < 8
    → bit_test (bit_or b (2 ^ k)) k' ≡ (if k == k' then true else bit_test b k')
bit_test-set b k k' hb hk hk' = go (k == k') (bit_test (bit_or b (2 ^ k)) k') (bit_test b k') tested
  where
    tested : set_test k k' b ≡ true
    tested =
        all_below-get 256 (set_test k k') b
          (all_below-get 8 (λ l. all_below 256 (set_test k l)) k'
            (all_below-get 8 (λ m. all_below 8 (λ l. all_below 256 (set_test m l))) k set_tests hk)
            hk')
          hb

    go :
        (same now old : Bool)
        → (if same then now else if now then old else not old) ≡ true
        → now ≡ (if same then true else old)
    go true now old h = h
    go false true true h = refl
    go false true false h = cc
    go false false true h = cc
    go false false false h = refl

take-drop_one : (p : List ℕ) (q b : ℕ) → get_elem? p q ≡ some b → take 1 (drop q p) ≡ b ∷ []
take-drop_one [] q b h = absurd (cc)
take-drop_one (x ∷ xs) zero b h = ap (λ y. y ∷ []) (some_inj h)
take-drop_one (x ∷ xs) (suc q) b h = take-drop_one xs q b h

pub get_elem?-inside : (p : List ℕ) (q : ℕ) → q < length p → (b : ℕ) × (get_elem? p q ≡ some b)
get_elem?-inside [] q h = absurd (omega arith)
get_elem?-inside (x ∷ xs) zero h = (x, refl)
get_elem?-inside (x ∷ xs) (suc q) h = get_elem?-inside xs q (omega arith)

-- A byte elsewhere.
pub load-overwrite_other :
    (p : List ℕ) (at q x : ℕ)
    → at < length p
    → q ≢ at
    → load (overwrite p at (x ∷ [])) q 1 ≡ load p q 1
unfolding load
load-overwrite_other p at q x h other = elim (Bool-cases (ltb q at)) [
  | inl e ↦
      load_in_front 1 q at p' p (take-overwrite p (x ∷ []) at (omega arith)) (omega (arith, same))
        (ground arith) (ground arith)
  | inr e ↦
      ap₂ (λ n d. if leb (q + 1) n then some (take 1 d) else none) same
        (ap (λ m. drop m p') (behind e)
          ∙ drop-overwrite p (x ∷ []) at (q - at) (omega arith) (ground (arith, other))
          ∙ ap (λ m. drop m p) (sym (behind e)))
]
  where
    p' : List ℕ
    p' = overwrite p at (x ∷ [])

    same : length p' ≡ length p
    same = length-overwrite p (x ∷ []) at (omega arith)

    behind : ltb q at ≡ false → q ≡ at + (q - at)
    behind e = ground arith

pub load_at :
    (p : List ℕ) (q b : ℕ) → q < length p → get_elem? p q ≡ some b → load p q 1 ≡ some (b ∷ [])
unfolding load
load_at p q b h e = rw inside (ap some (take-drop_one p q b e))
  where
    inside : leb (q + 1) (length p) ≡ true
    inside = ground arith

pub load_beyond : (p : List ℕ) (q : ℕ) → length p ≤ q → load p q 1 ≡ none
unfolding load
load_beyond p q h = rw outside refl
  where
    outside : leb (q + 1) (length p) ≡ false
    outside = ground arith
