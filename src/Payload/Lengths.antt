-- ===== src/Payload/Lengths.antt =====
-- The buffer that WritePayloadToBuffer leaves.
use database_systems.Common.{
  ℕ, zero, suc, ◌+◌, ◌-◌, ◌≤◌, ◌≡◌, refl, ap, List, [], ◌∷◌, ◌++◌, some, length, length-append,
  take, replicate, length-take, length-replicate, arith, resize, drop, store, length-drop,
}

pub length-resize {ℓ} : {A : Type ℓ} (a : A) (xs : List A) (n : ℕ) → length (resize a xs n) ≡ n
length-resize a xs n = omega (
  arith,
  length-append (take n xs) (replicate (n - length xs) a),
  length-take n xs,
  length-replicate (n - length xs) a,
)

pub take-append_le {ℓ} :
    {A : Type ℓ} (n : ℕ) (xs ys : List A) → n ≤ length xs → take n (xs ++ ys) ≡ take n xs
take-append_le zero xs ys h = refl
take-append_le (suc n) [] ys h = absurd (omega arith)
take-append_le (suc n) (x ∷ xs) ys h = ap (◌∷◌ x) (take-append_le n xs ys (omega arith))

pub take_all {ℓ} : {A : Type ℓ} (n : ℕ) (xs : List A) → length xs ≤ n → take n xs ≡ xs
take_all zero [] h = refl
take_all zero (x ∷ xs) h = absurd (omega arith)
take_all (suc n) [] h = refl
take_all (suc n) (x ∷ xs) h = ap (◌∷◌ x) (take_all n xs (omega arith))

pub length-store :
    (buf : List ℕ) (pos : ℕ) (bs : List ℕ) {out : List ℕ}
    → store buf pos bs ≡ some out
    → length out ≡ length buf
unfolding store
length-store buf pos bs e = ground (
  arith,
  length-append (take pos buf) (bs ++ drop (pos + length bs) buf),
  length-append bs (drop (pos + length bs) buf),
  length-take pos buf,
  length-drop (pos + length bs) buf,
)
