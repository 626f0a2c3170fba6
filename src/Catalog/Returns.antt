-- ===== src/Catalog/Returns.antt =====
-- AllocateOid of src/catalog/CatCacheBase_private.inc ends where no other call interferes.
use database_systems.Common.{
  ℕ, zero, suc, ◌+◌, ◌%◌, ◌^◌, ◌<◌, Bool, true, false, List, [], ◌∷◌, some, length, get_elem?, ltb,
  ◌==◌, if◌then◌else◌, ◌≡◌, arith, get_elem?-set_self,
}
use Prim.Native.Nat.{◌<◌ as lt}
use database_systems.Catalog.Oids.{
  Call, starting, holding, returned, Counter, put, step_call, step, interleave, max_oid,
  invalid_oid,
}

in_range {ℓ} : {A : Type ℓ} (xs : List A) (i : ℕ) (a : A) → get_elem? xs i ≡ some a → i < length xs
in_range [] i a h = absurd (cc)
in_range (x ∷ xs) zero a h = omega arith
in_range (x ∷ xs) (suc i) a h = omega (arith, in_range xs i a h)

HasReturned : ℕ → Counter → Type 0
HasReturned i w = (u : ℕ) × (get_elem? w.calls i ≡ some (returned u))

put-HasReturned :
    (i n u : ℕ) (a : Call) (w : Counter)
    → get_elem? w.calls i ≡ some a
    → HasReturned i (put i n (returned u) w)
unfolding HasReturned
put-HasReturned i n u a w h =
    (u, get_elem?-set_self w.calls i (returned u) (in_range w.calls i a h))

-- The round of a call that is up to date.
current-HasReturned :
    (i : ℕ) (w : Counter)
    → get_elem? w.calls i ≡ some (holding w.next_oid)
    → HasReturned i (step i w)
unfolding step
current-HasReturned i w h = rw h (decide (ltb max_oid w.next_oid))
  where
    same : (w.next_oid == w.next_oid) ≡ true
    same = ground arith

    decide :
        (b : Bool)
        → HasReturned i (
            if b
            then put i w.next_oid (returned invalid_oid) w
            else if w.next_oid == w.next_oid
            then put i ((w.next_oid + 1) % 2 ^ 32) (returned w.next_oid) w
            else put i w.next_oid (holding w.next_oid) w)
    decide true = put-HasReturned i w.next_oid invalid_oid (holding w.next_oid) w h
    decide false =
        rw same (put-HasReturned i ((w.next_oid + 1) % 2 ^ 32) w.next_oid (holding w.next_oid) w h)

returned-HasReturned : (i : ℕ) (w : Counter) → HasReturned i w → HasReturned i (step i w)
unfolding step HasReturned
returned-HasReturned i w (u, h) = (u, rw h h)

renewed-HasReturned :
    (i : ℕ) (a : Call) (w : Counter)
    → get_elem? w.calls i ≡ some a
    → HasReturned i (step i (put i w.next_oid (holding w.next_oid) w))
renewed-HasReturned i a w h =
    current-HasReturned i (put i w.next_oid (holding w.next_oid) w)
      (get_elem?-set_self w.calls i (holding w.next_oid) (in_range w.calls i a h))

two_steps :
    (i : ℕ) (a : Call) (w : Counter)
    → get_elem? w.calls i ≡ some a
    → HasReturned i (step i (step_call i w a))
unfolding step_call HasReturned
two_steps i starting w h = renewed-HasReturned i starting w h
two_steps i (returned u) w h = returned-HasReturned i w (u, h)
two_steps i (holding v) w h = decide (ltb max_oid v) (v == w.next_oid)
  where
    decide :
        (b c : Bool)
        → HasReturned i (
            step i (
              if b
              then put i w.next_oid (returned invalid_oid) w
              else if c
              then put i ((v + 1) % 2 ^ 32) (returned v) w
              else put i w.next_oid (holding w.next_oid) w))
    decide true c =
        returned-HasReturned i (put i w.next_oid (returned invalid_oid) w)
          (put-HasReturned i w.next_oid invalid_oid (holding v) w h)
    decide false true =
        returned-HasReturned i (put i ((v + 1) % 2 ^ 32) (returned v) w)
          (put-HasReturned i ((v + 1) % 2 ^ 32) v (holding v) w h)
    decide false false = renewed-HasReturned i (holding v) w h

-- A call of AllocateOid that is in its loop or before it, whatever value it holds, has returned
-- after two steps of its own that no step of another call interrupts.
pub allocate_oid_returns :
    (i : ℕ) (a : Call) (w : Counter)
    → get_elem? w.calls i ≡ some a
    → (u : ℕ) × (get_elem? (interleave (i ∷ i ∷ []) w).calls i ≡ some (returned u))
unfolding interleave step HasReturned
allocate_oid_returns i a w h = rw h (two_steps i a w h)
