-- ===== src/Schema/Samples.antt =====
-- A small type catalog, schemas over it and their layouts, for the tests.
use database_systems.Common.{
  arith, ℕ, Bool, true, false, List, [], ◌∷◌, Option, none, some, ◌==◌, if◌then◌else◌,
}
use database_systems.Schema.Defs.{Schema, CatType, construct}
use database_systems.Schema.Compute.{compute_layout}
use database_systems.Schema.Visit.{GivesAlignments, GivesLengths}

abbrev pub plain_type : ℕ → ℕ → CatType
plain_type len align = record {
  typlen = len;
  typalign = align;
  typisvarlen = false;
  typbyref = false;
  typlenfunc = 0;
}

abbrev pub varchar_type : CatType
varchar_type = record {
  typlen = 65535;
  typalign = 1;
  typisvarlen = true;
  typbyref = true;
  typlenfunc = 0;
}

-- 1: a byte, 2: INT2, 4: INT4, 8: INT8, 9: VARCHAR.
abbrev pub find_type : ℕ → Option CatType
find_type t =
    if t == 9
    then some varchar_type
    else if t == 1
    then some (plain_type 1 1)
    else if t == 2
    then some (plain_type 2 2)
    else if t == 4
    then some (plain_type 4 4)
    else if t == 8
    then some (plain_type 8 8)
    else none

abbrev pub call_length : ℕ → ℕ → Option ℕ
call_length f p = none

abbrev pub layout_of : List ℕ → List Bool → Option Schema
layout_of ts ns = compute_layout find_type call_length (construct ts ts ns [])

abbrev pub or_else : Option Schema → Schema → Schema
or_else none s = s
or_else (some s') s = s'

-- A byte, an INT4, two VARCHARs and an INT2; the last three may be NULL.
abbrev pub sample_schema : Schema
sample_schema =
    construct (1 ∷ 4 ∷ 9 ∷ 9 ∷ 2 ∷ []) (0 ∷ 0 ∷ 0 ∷ 0 ∷ 0 ∷ [])
      (false ∷ false ∷ true ∷ true ∷ true ∷ []) []

abbrev pub sample_laid : Schema
unfolding compute_layout construct
sample_laid = or_else (compute_layout find_type call_length sample_schema) sample_schema

-- A VARCHAR, a VARCHAR that may be NULL and an INT4 that may be NULL.
abbrev pub shared_schema : Schema
shared_schema = construct (9 ∷ 9 ∷ 4 ∷ []) (0 ∷ 0 ∷ 0 ∷ []) (false ∷ true ∷ true ∷ []) []

abbrev pub shared_laid : Schema
unfolding compute_layout construct
shared_laid = or_else (compute_layout find_type call_length shared_schema) shared_schema

pub find_type-GivesAlignments : GivesAlignments find_type
find_type-GivesAlignments id t e = ground arith

pub call_length-GivesLengths : GivesLengths call_length
call_length-GivesLengths g p n e = cc
