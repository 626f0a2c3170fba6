-- ===== src/Catalog/TableRows.antt =====
-- AddTable of src/catalog/CatCacheBase_private.inc: which arguments it takes, and the rows that it
-- makes of the columns.
use database_systems.Common.{
  Severity, some_inj, ℕ, zero, suc, ◌+◌, ◌%◌, ◌<◌, Bool, true, false, List, [], ◌∷◌, some, length,
  get_elem?, replicate, Result, ok, throws, ◌>>=◌, ◌>>◌, ◌≡◌, ◌≢◌, ◌⊎◌, refl, ap, ◌∙◌, arith,
}
use database_systems.Payload.Write.{Value}
use database_systems.Catalog.Interface.{CatalogFiles, SysTables}
use database_systems.Catalog.Insert.{TableArgs, rounds, default_names, column_rows}

-- A vector that is left empty, where that is taken, or whose size is the number of columns up to a
-- multiple of 2 ^ 16.
abbrev pub IsOptional {ℓ} : {A : Type ℓ} → Type 0 → ℕ → List A → Type 0
IsOptional Empty n xs = ((length xs ≡ 0) × Empty) ⊎ (length xs % 65536 ≡ n)

-- A vector, or what stands for it where it is left empty.
abbrev pub filled {ℓ} : {A : Type ℓ} → List A → List A → List A
filled default [] = default
filled default (x ∷ xs) = x ∷ xs

abbrev TakesOrThrows {ℓ} : {A : Type ℓ} → Type 0 → Result (List A) → List A → Type ℓ
TakesOrThrows P r xs = (P × (r ≡ ok xs)) ⊎ ((e : Severity) × (r ≡ throws e) × ¬ P)

module _ (io : CatalogFiles) (gen : SysTables) where
  -- The arguments of which AddTable takes the vectors.
  pub record IsAcceptable (a : TableArgs) : Type 0 where
    pub file : a.tabfid ≢ 0
    pub nonempty : 0 < length a.coltypid
    pub bounded : length a.coltypid < 65536
    pub params : IsOptional (length a.coltypid < 32768) (length a.coltypid) a.coltypparam
    pub names : IsOptional Unit (length a.coltypid) a.field_names
    pub nullable : IsOptional (length a.coltypid < 32768) (length a.coltypid) a.colisnullable
    pub arrays : IsOptional (length a.coltypid < 32768) (length a.coltypid) a.colisarray

  -- The rows of Column that AddTable makes of vectors of the same length, from column `i` on:
  -- there is one for each column, and the one of the k-th has the number i + k and the k-th
  -- elements of the vectors.
  pub column_rows-get_elem? :
      (tabid i : ℕ) (ts ps : List ℕ) (ns : List (List ℕ)) (us rs : List Bool)
      → length ps ≡ length ts
      → length ns ≡ length ts
      → length us ≡ length ts
      → length rs ≡ length ts
      → (rows : List (List Value)) × (column_rows io gen tabid i ts ps ns us rs ≡ ok rows)
        × (length rows ≡ length ts)
        × ((k t p : ℕ) (n : List ℕ) (u r : Bool)
            → get_elem? ts k ≡ some t
            → get_elem? ps k ≡ some p
            → get_elem? ns k ≡ some n
            → get_elem? us k ≡ some u
            → get_elem? rs k ≡ some r
            → get_elem? rows k ≡ some (gen.column_values tabid (i + k) r u t p n))
  unfolding column_rows
  column_rows-get_elem? tabid i [] ps ns us rs a b c d =
      ([], refl, refl, λ k t p n u r e. absurd (cc))
  column_rows-get_elem? tabid i (t ∷ ts) [] ns us rs a b c d = absurd (omega arith)
  column_rows-get_elem? tabid i (t ∷ ts) (p ∷ ps) [] us rs a b c d = absurd (omega arith)
  column_rows-get_elem? tabid i (t ∷ ts) (p ∷ ps) (n ∷ ns) [] rs a b c d = absurd (omega arith)
  column_rows-get_elem? tabid i (t ∷ ts) (p ∷ ps) (n ∷ ns) (u ∷ us) [] a b c d =
      absurd (omega arith)
  column_rows-get_elem? tabid i (t ∷ ts) (p ∷ ps) (n ∷ ns) (u ∷ us) (r ∷ rs) a b c d =
      let (rows, e, len, each) =
        column_rows-get_elem? tabid (i + 1) ts ps ns us rs (omega arith) (omega arith) (omega arith)
          (omega arith) in
      (
        gen.column_values tabid i r u t p n ∷ rows,
        rw e refl,
        ap suc len,
        λ k t' p' n' u' r'. nth rows each k t' p' n' u' r',
      )
    where
      start : i + 0 ≡ i
      start = omega arith

      nth :
          (rows : List (List Value))
          → ((k t p : ℕ) (n : List ℕ) (u r : Bool)
              → get_elem? ts k ≡ some t
              → get_elem? ps k ≡ some p
              → get_elem? ns k ≡ some n
              → get_elem? us k ≡ some u
              → get_elem? rs k ≡ some r
              → get_elem? rows k ≡ some (gen.column_values tabid (i + 1 + k) r u t p n))
          → (k t' p' : ℕ) (n' : List ℕ) (u' r' : Bool) → get_elem? (t ∷ ts) k ≡ some t'
          → get_elem? (p ∷ ps) k ≡ some p'
          → get_elem? (n ∷ ns) k ≡ some n'
          → get_elem? (u ∷ us) k ≡ some u'
          → get_elem? (r ∷ rs) k ≡ some r'
          → get_elem? (gen.column_values tabid i r u t p n ∷ rows) k
            ≡ some (gen.column_values tabid (i + k) r' u' t' p' n')
      nth rows each zero t' p' n' u' r' et ep en eu er =
          rw (start, some_inj et, some_inj ep, some_inj en, some_inj eu, some_inj er) refl
      nth rows each (suc k) t' p' n' u' r' et ep en eu er =
          each k t' p' n' u' r' et ep en eu er
          ∙ ap (λ j. some (gen.column_values tabid j r' u' t' p' n')) (omega arith)

  -- The arguments with the vectors that were left empty. No names are made for 32768 columns or
  -- more.
  abbrev pub with_defaults : TableArgs → TableArgs
  with_defaults a =
      let n = length a.coltypid in
      record a {
        coltypparam = filled (replicate (rounds n) 0) a.coltypparam;
        field_names = filled (default_names io gen 0 (rounds n)) a.field_names;
        colisnullable = filled (replicate (rounds n) true) a.colisnullable;
        colisarray = filled (replicate (rounds n) false) a.colisarray;
      }
