-- ===== src/Catalog/Descriptor/Fill.antt =====
-- The loop of TableDesc::Create, src/catalog/TableDesc.cpp, on columns in any order.
use database_systems.Common.{
  ℕ, ◌<◌, true, false, not, ◌&&◌, List, [], ◌∷◌, Option, none, some, length, get_elem?, ltb, ◌==◌,
  if◌then◌else◌, Result, ok, undefined, ◌≡◌, ◌≢◌, refl, ◌∙◌, arith, length-set, length-replicate,
  get_elem?-set_self, get_elem?-set_ne,
}
use database_systems.Base.Align.{is_negative}
use database_systems.Catalog.Interface.{SysTables}
use Prim.Native.String.{String}
use database_systems.Schema.Defs.{create, construct, CatType}
use database_systems.Schema.Compute.{compute_layout}
use database_systems.Catalog.Descriptor.{
  create_table_desc, described, laid_out, create, described, create_table_desc, Columns, resized,
  place_column, fill_columns,
}

module _ (gen : SysTables) where
  abbrev pub NoId : ℕ → List gen.Row → Type 0
  NoId j [] = Unit {0}
  NoId j (col ∷ cols) = (gen.colid col ≢ j) × NoId j cols

  -- Columns of the table with different IDs below `n`.
  abbrev pub IsProper : gen.Row → ℕ → List gen.Row → Type 0
  IsProper table n [] = Unit {0}
  IsProper table n (col ∷ cols) =
      (gen.coltabid col ≡ gen.tabid table)
      × (gen.colid col < n)
      × NoId (gen.colid col) cols
      × IsProper table n cols

  pub record Holds (col : gen.Row) (v : Columns) : Type 0 where
    pub typid : get_elem? v.typid (gen.colid col) ≡ some (gen.coltypid col)
    pub typparam : get_elem? v.typparam (gen.colid col) ≡ some (gen.coltypparam col)
    pub isnullable : get_elem? v.isnullable (gen.colid col) ≡ some (gen.colisnullable col)
    pub field_names : get_elem? v.field_names (gen.colid col) ≡ some (gen.colname col)

  abbrev pub AllHold : List gen.Row → Columns → Type 0
  AllHold [] v = Unit {0}
  AllHold (col ∷ cols) v = Holds col v × AllHold cols v

  pub record IsSized (n : ℕ) (v : Columns) : Type 0 where
    pub typid : length v.typid ≡ n
    pub typparam : length v.typparam ≡ n
    pub isnullable : length v.isnullable ≡ n
    pub field_names : length v.field_names ≡ n

  record Same (j : ℕ) (v v' : Columns) : Type 0 where
    typid : get_elem? v'.typid j ≡ get_elem? v.typid j
    typparam : get_elem? v'.typparam j ≡ get_elem? v.typparam j
    isnullable : get_elem? v'.isnullable j ≡ get_elem? v.isnullable j
    field_names : get_elem? v'.field_names j ≡ get_elem? v.field_names j

  place_column-IsSized :
      (n : ℕ) (col : gen.Row) (v : Columns) → IsSized n v → IsSized n (place_column gen col v)
  place_column-IsSized n col v s = record {
    typid = length-set v.typid (gen.colid col) (gen.coltypid col) ∙ s.typid;
    typparam = length-set v.typparam (gen.colid col) (gen.coltypparam col) ∙ s.typparam;
    isnullable = length-set v.isnullable (gen.colid col) (gen.colisnullable col) ∙ s.isnullable;
    field_names = length-set v.field_names (gen.colid col) (gen.colname col) ∙ s.field_names;
  }

  place_column-Holds :
      (n : ℕ) (col : gen.Row) (v : Columns)
      → IsSized n v
      → gen.colid col < n
      → Holds col (place_column gen col v)
  place_column-Holds n col v s h = record {
    typid = get_elem?-set_self v.typid (gen.colid col) (gen.coltypid col) (omega (arith, s.typid));
    typparam =
        get_elem?-set_self v.typparam (gen.colid col) (gen.coltypparam col)
          (omega (arith, s.typparam));
    isnullable =
        get_elem?-set_self v.isnullable (gen.colid col) (gen.colisnullable col)
          (omega (arith, s.isnullable));
    field_names =
        get_elem?-set_self v.field_names (gen.colid col) (gen.colname col)
          (omega (arith, s.field_names));
  }

  place_column-Same :
      (j : ℕ) (col : gen.Row) (v v' : Columns)
      → gen.colid col ≢ j
      → Same j (place_column gen col v) v'
      → Same j v v'
  place_column-Same j col v v' d s = record {
    typid = s.typid ∙ get_elem?-set_ne v.typid (gen.coltypid col) d;
    typparam = s.typparam ∙ get_elem?-set_ne v.typparam (gen.coltypparam col) d;
    isnullable = s.isnullable ∙ get_elem?-set_ne v.isnullable (gen.colisnullable col) d;
    field_names = s.field_names ∙ get_elem?-set_ne v.field_names (gen.colname col) d;
  }

  Same-Holds :
      (col : gen.Row) (v v' : Columns) → Same (gen.colid col) v v' → Holds col v → Holds col v'
  Same-Holds col v v' s h = record {
    typid = s.typid ∙ h.typid;
    typparam = s.typparam ∙ h.typparam;
    isnullable = s.isnullable ∙ h.isnullable;
    field_names = s.field_names ∙ h.field_names;
  }

  abbrev Filled : List gen.Row → ℕ → Columns → Result (Option Columns) → Type 0
  Filled cols n v res =
      (v' : Columns) × (res ≡ ok (some v'))
      × IsSized n v'
      × ((j : ℕ) → NoId j cols → Same j v v')
      × AllHold cols v'

  fill :
      (table : gen.Row) (n : ℕ) (cols : List gen.Row) (v : Columns)
      → n < 32768
      → IsProper table n cols
      → IsSized n v
      → Filled cols n v (fill_columns gen table cols v)
  unfolding fill_columns
  fill table n [] v small p s = (
    v,
    refl,
    s,
    λ j d. record { typid = refl; typparam = refl; isnullable = refl; field_names = refl },
    tt,
  )
  fill table n (col ∷ cols) v small (mine, below, new, p) s =
      on (fill table n cols (place_column gen col v) small p (place_column-IsSized n col v s))
    where
      own : (gen.coltabid col == gen.tabid table) ≡ true
      own = ground arith

      inside : (not (is_negative (gen.colid col)) && ltb (gen.colid col) (length v.typid)) ≡ true
      inside = ground (arith, s.typid)

      on :
          Filled cols n
            (place_column gen col v)
            (fill_columns gen table cols (place_column gen col v))
          → Filled (col ∷ cols) n v (
              if not (gen.coltabid col == gen.tabid table)
              then ok none
              else if not (is_negative (gen.colid col)) && ltb (gen.colid col) (length v.typid)
              then fill_columns gen table cols (place_column gen col v)
              else undefined)
      on (v', e, z, same, all) =
          rw (own, inside)
            (
              v',
              e,
              z,
              λ j (d, ds). place_column-Same j col v v' d (same j ds),
              (
                Same-Holds col (place_column gen col v) v' (same (gen.colid col) new)
                    (place_column-Holds n col v s below),
                all,
              ),
            )

  create-construct :
      (n : ℕ) (v : Columns)
      → 0 < n
      → IsSized n v
      → create v.typid v.typparam v.isnullable v.field_names
        ≡ some (construct v.typid v.typparam v.isnullable v.field_names)
  unfolding create
  create-construct n v h s = ground (arith, s.typid, s.typparam, s.isnullable, s.field_names)

  -- TableDesc::Create for a row of Table and between 1 and 32767 rows of Column, in any order,
  -- that belong to the table and have different IDs below their number. It lays out the schema of
  -- vectors that have one element for each row: at every row's ID the type, the type parameter,
  -- whether it is nullable and the name of this row. The descriptor has this schema.
  pub create_table_desc-AllHold :
      (find_type : ℕ → Option CatType) (call_length : ℕ → ℕ → Option ℕ) (table : gen.Row)
      (cols : List gen.Row)
      → 0 < length cols
      → length cols < 32768
      → IsProper table (length cols) cols
      → (v : Columns) × (create_table_desc gen find_type call_length table cols
          ≡ laid_out gen find_type call_length table (
              compute_layout find_type call_length
                (construct v.typid v.typparam v.isnullable v.field_names)))
        × IsSized (length cols) v
        × AllHold cols v
  unfolding create_table_desc described
  create_table_desc-AllHold find_type call_length table cols some_cols small p = on (
      fill table (length cols) cols (resized (length cols)) small p (record {
        typid = length-replicate {A = ℕ} (length cols) 0;
        typparam = length-replicate {A = ℕ} (length cols) 0;
        isnullable = length-replicate (length cols) false;
        field_names = length-replicate {A = String} (length cols) "";
      }))
    where
      filled : (length cols == 0) ≡ false
      filled = ground arith

      on :
          Filled cols
            (length cols)
            (resized (length cols))
            (fill_columns gen table cols (resized (length cols)))
          → (v : Columns) × (create_table_desc gen find_type call_length table cols
              ≡ laid_out gen find_type call_length table (
                  compute_layout find_type call_length
                    (construct v.typid v.typparam v.isnullable v.field_names)))
            × IsSized (length cols) v
            × AllHold cols v
      on (v, e, z, same, all) =
          (v, rw (filled, e, create-construct (length cols) v some_cols z) refl, z, all)
