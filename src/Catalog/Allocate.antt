-- ===== src/Catalog/Allocate.antt =====
-- AllocateOid of src/catalog/CatCacheBase_private.inc under concurrent calls.
use database_systems.Common.{
  some_inj, replicate, subst, ℕ, zero, suc, ◌+◌, ◌%◌, ◌^◌, ◌≤◌, ◌<◌, Bool, true, false, List, [],
  ◌∷◌, Option, none, some, get_elem?, set, ltb, ◌==◌, if◌then◌else◌, ◌≡◌, ◌≢◌, ◌⊎◌, inl, inr, refl,
  ap, sym, ◌∙◌, arith,
}
use Prim.Native.Nat.{◌<◌ as lt}
use database_systems.Catalog.Oids.{
  Call, starting, holding, returned, Counter, put, step_call, step_found, step, interleave, max_oid,
  invalid_oid,
}

-- What a call may hold or have returned when the counter stands at `n` and began at `start`.
abbrev pub Fits : ℕ → ℕ → Call → Type 0
Fits start n starting = Unit {0}
Fits start n (holding v) = (start ≤ v) × (v ≤ n)
Fits start n (returned v) = (v ≡ 0) ⊎ ((start ≤ v) × (v < n))

-- An OID in the hands of two calls is the invalid one.
abbrev pub Apart : Call → Call → Type 0
Apart (returned v) (returned u) = (v ≡ u) → v ≡ 0
Apart a b = Unit {0}

pub record IsAllocating (start : ℕ) (w : Counter) : Type 0 where
  pub low : start ≤ w.next_oid
  pub high : w.next_oid < 2 ^ 32
  pub fits : (i : ℕ) (a : Call) → get_elem? w.calls i ≡ some a → Fits start w.next_oid a
  pub apart :
      (i j : ℕ) (a b : Call)
      → i ≢ j
      → get_elem? w.calls i ≡ some a
      → get_elem? w.calls j ≡ some b
      → Apart a b

Fits-later : (start n m : ℕ) (a : Call) → n ≤ m → Fits start n a → Fits start m a
Fits-later start n m starting h f = tt
Fits-later start n m (holding v) h f = (f.0, omega arith)
Fits-later start n m (returned v) h (inl z) = inl z
Fits-later start n m (returned v) h (inr p) = inr (p.0, omega arith)

-- A call that is new to the counter is apart from all that fitted before.
abbrev IsFresh : ℕ → Call → Type 0
IsFresh n (returned v) = (v ≡ 0) ⊎ (n ≤ v)
IsFresh n a = Unit {0}

fresh-Apart : (start n : ℕ) (a b : Call) → IsFresh n a → Fits start n b → Apart a b × Apart b a
fresh-Apart start n starting b f g = (tt, other b)
  where
    other : (c : Call) → Apart c starting
    other starting = tt
    other (holding v) = tt
    other (returned v) = tt
fresh-Apart start n (holding u) b f g = (tt, other b)
  where
    other : (c : Call) → Apart c (holding u)
    other starting = tt
    other (holding v) = tt
    other (returned v) = tt
fresh-Apart start n (returned v) starting f g = (tt, tt)
fresh-Apart start n (returned v) (holding u) f g = (tt, tt)
fresh-Apart start n (returned v) (returned u) (inl z) g = (λ e. z, λ e. omega arith)
fresh-Apart start n (returned v) (returned u) (inr p) (inl z) = (λ e. omega arith, λ e. z)
fresh-Apart start n (returned v) (returned u) (inr p) (inr q) =
    (λ e. absurd (omega arith), λ e. absurd (omega arith))

set-cases {ℓ} :
    {A : Type ℓ} (xs : List A) (i j : ℕ) (v b : A)
    → get_elem? (set xs i v) j ≡ some b
    → ((i ≡ j) × (b ≡ v)) ⊎ ((i ≢ j) × (get_elem? xs j ≡ some b))
set-cases [] i j v b h = absurd (cc)
set-cases (x ∷ xs) zero zero v b h = inl (refl, some_inj (sym h))
set-cases (x ∷ xs) zero (suc j) v b h = inr (λ e. omega arith, h)
set-cases (x ∷ xs) (suc i) zero v b h = inr (λ e. omega arith, h)
set-cases (x ∷ xs) (suc i) (suc j) v b h = elim (set-cases xs i j v b h) [
  | inl (e, f) ↦ inl (ap suc e, f)
  | inr (e, f) ↦ inr (λ p. e (omega arith), f)
]

-- A call moves to a state that fits the new counter and is fresh to the old one.
put-IsAllocating :
    (start i n : ℕ) (a : Call) (w : Counter)
    → IsAllocating start w
    → w.next_oid ≤ n
    → n < 2 ^ 32
    → Fits start n a
    → IsFresh w.next_oid a
    → IsAllocating start (put i n a w)
put-IsAllocating start i n a w v grows high fit fresh = record {
  low = omega (arith, v.low);
  high = high;
  fits = λ j b h. elim (set-cases w.calls i j a b h) [
    | inl (e, f) ↦ subst (Fits start n) (sym f) fit
    | inr (e, f) ↦ Fits-later start w.next_oid n b grows (v.fits j b f)
  ];
  apart =
      λ j k b c d g h. both j k b c d (set-cases w.calls i j a b g) (set-cases w.calls i k a c h);
}
  where
    both :
        (j k : ℕ) (b c : Call)
        → j ≢ k
        → ((i ≡ j) × (b ≡ a)) ⊎ ((i ≢ j) × (get_elem? w.calls j ≡ some b))
        → ((i ≡ k) × (c ≡ a)) ⊎ ((i ≢ k) × (get_elem? w.calls k ≡ some c))
        → Apart b c
    both j k b c d (inl (e, f)) (inl (g, h)) = absurd (d (sym e ∙ g))
    both j k b c d (inl (e, f)) (inr (g, h)) =
        subst (λ x. Apart x c) (sym f) (fresh-Apart start w.next_oid a c fresh (v.fits k c h)).0
    both j k b c d (inr (e, f)) (inl (g, h)) =
        subst (λ x. Apart b x) (sym h) (fresh-Apart start w.next_oid a b fresh (v.fits j b f)).1
    both j k b c d (inr (e, f)) (inr (g, h)) = v.apart j k b c d f h

step-IsAllocating :
    (start i : ℕ) (w : Counter) → IsAllocating start w → IsAllocating start (step i w)
unfolding step
step-IsAllocating start i w v = found (get_elem? w.calls i) refl
  where
    holds :
        (u : ℕ)
        → Fits start w.next_oid (holding u)
        → (b c : Bool) → ltb max_oid u ≡ b
        → (u == w.next_oid) ≡ c
        → IsAllocating start (
            if b
            then put i w.next_oid (returned invalid_oid) w
            else if c
            then put i ((u + 1) % 2 ^ 32) (returned u) w
            else put i w.next_oid (holding w.next_oid) w)
    holds u f true c p q =
        put-IsAllocating start i w.next_oid (returned invalid_oid) w v (omega arith) v.high
          (inl refl) (inl refl)
    holds u f false true p q =
        put-IsAllocating start i ((u + 1) % 2 ^ 32) (returned u) w v (ground arith) (ground arith)
          (inr (f.0, ground arith)) (inr (ground arith))
    holds u f false false p q =
        put-IsAllocating start i w.next_oid (holding w.next_oid) w v (omega arith) v.high
          (v.low, omega arith) tt

    moved : (a : Call) → get_elem? w.calls i ≡ some a → IsAllocating start (step_call i w a)
    moved starting e =
        put-IsAllocating start i w.next_oid (holding w.next_oid) w v (omega arith) v.high
          (v.low, omega arith) tt
    moved (holding u) e =
        holds u (v.fits i (holding u) e) (ltb max_oid u) (u == w.next_oid) refl refl
    moved (returned u) e = v

    found : (o : Option Call) → get_elem? w.calls i ≡ o → IsAllocating start (step_found i w o)
    found none e = v
    found (some a) e = moved a e

interleave-IsAllocating :
    (start : ℕ) (is : List ℕ) (w : Counter)
    → IsAllocating start w
    → IsAllocating start (interleave is w)
unfolding interleave
interleave-IsAllocating start [] w v = v
interleave-IsAllocating start (i ∷ is) w v =
    interleave-IsAllocating start is (step i w) (step-IsAllocating start i w v)

replicate-get : (n j : ℕ) (b : Call) → get_elem? (replicate n starting) j ≡ some b → b ≡ starting
replicate-get zero j b h = absurd (cc)
replicate-get (suc n) zero b h = some_inj (sym h)
replicate-get (suc n) (suc j) b h = replicate-get n j b h

-- The counter before any of `n` calls.
abbrev pub fresh_counter : ℕ → ℕ → Counter
fresh_counter start n = record { next_oid = start; calls = replicate n starting }

fresh-IsAllocating : (start n : ℕ) → start < 2 ^ 32 → IsAllocating start (fresh_counter start n)
fresh-IsAllocating start n h = record {
  low = omega arith;
  high = h;
  fits = λ i a e. subst (Fits start start) (sym (replicate-get n i a e)) tt;
  apart = λ i j a b d e f.
      subst (λ x. Apart x b) (sym (replicate-get n i a e))
        (subst (Apart starting) (sym (replicate-get n j b f)) tt);
}

-- Any number of calls of AllocateOid, interleaved in any order at the steps of load and
-- compare-exchange, from a counter that fits an OID and is not zero. An OID that a call has
-- returned is the invalid one, or it is at least the counter's first value, is at most the largest
-- OID, and no other call has returned it.
pub allocate_oid_unique :
    (start n : ℕ) (order : List ℕ) (i j u v : ℕ)
    → 0 < start
    → start < 2 ^ 32
    → i ≢ j
    → get_elem? (interleave order (fresh_counter start n)).calls i ≡ some (returned u)
    → get_elem? (interleave order (fresh_counter start n)).calls j ≡ some (returned v)
    → (u ≡ invalid_oid) ⊎ ((start ≤ u) × (u ≤ max_oid) × (u ≢ v))
allocate_oid_unique start n order i j u v pos small d p q =
    valid (inv.fits i (returned u) p) (inv.apart i j (returned u) (returned v) d p q)
  where
    w : Counter
    w = interleave order (fresh_counter start n)

    inv : IsAllocating start w
    inv =
        interleave-IsAllocating start order (fresh_counter start n)
          (fresh-IsAllocating start n small)

    valid :
        Fits start w.next_oid (returned u)
        → Apart (returned u) (returned v)
        → (u ≡ invalid_oid) ⊎ ((start ≤ u) × (u ≤ max_oid) × (u ≢ v))
    valid (inl z) a = inl z
    valid (inr (low, high)) a = inr (low, omega (arith, inv.high), λ e. absurd (omega (arith, a e)))
