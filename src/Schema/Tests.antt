-- ===== src/Schema/Tests.antt =====
-- The layout theorems at small schemas.
use database_systems.Common.{undefined, ◌≢◌, ok, some, get_elem?, [], ◌∷◌, ℕ, ◌≡◌, refl, arith}
use Prim.Native.String.{String}
use database_systems.Schema.Names.{
  field_name_round_trip, invalid_field_id, get_field_id_from_field_name, get_field_name,
  IsFirstName,
}
use database_systems.Schema.Defs.{Schema, construct}
use database_systems.Schema.Compute.{compute_layout}
use database_systems.Schema.Samples.{
  find_type, call_length, sample_schema, sample_laid, find_type-GivesAlignments,
  call_length-GivesLengths,
}
use database_systems.Schema.Laid.{IsLaidOut}
use database_systems.Schema.Established.{compute_layout-IsLaidOut}

compute_layout-IsLaidOut_example : IsLaidOut sample_laid
unfolding compute_layout construct
compute_layout-IsLaidOut_example =
    compute_layout-IsLaidOut find_type call_length sample_schema sample_laid
      find_type-GivesAlignments call_length-GivesLengths (omega arith) refl refl refl

-- The fields of a sample.
-- Two fields with the same name, and a third one.
abbrev named_schema : Schema
named_schema = record sample_schema { field_names = "a" ∷ "a" ∷ "b" ∷ [] }

field_name_round_trip_example :
    ((i : ℕ) (name : String)
      → get_elem? named_schema.field_names i ≡ some name
      → IsFirstName name i named_schema.field_names
      → (get_field_name i named_schema ≡ ok name)
        × (get_field_id_from_field_name name named_schema ≡ i))
    × ((name : String)
        → ((i : ℕ) → get_elem? named_schema.field_names i ≢ some name)
        → get_field_id_from_field_name name named_schema ≡ invalid_field_id)
    × (get_field_name 3 named_schema ≡ undefined)
unfolding construct
field_name_round_trip_example = field_name_round_trip named_schema (omega arith)
