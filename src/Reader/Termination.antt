-- ===== src/Reader/Termination.antt =====
-- The loops of InitDataFileReader (src/catalog/InitDataFileReader.cpp) end, and so does a program
-- that calls `next` until the file is read.
use database_systems.Common.{
  same_bytes, ℕ, zero, suc, ◌-◌, ◌≤◌, ◌==◌, true, false, List, [], ◌∷◌, length, replicate,
  or_undefined, check, fatal, Ensures, ◌≡◌, refl, arith, not,
}
use database_systems.Schema.Defs.{Schema, create}
use database_systems.Schema.Compute.{compute_layout}
use database_systems.Payload.Write.{Value, is_null, write_payload}
use database_systems.Reader.State.{Services, find_type_in, Infuncs, Reader, Step, Stream}
use database_systems.Reader.Progress.{on_token-Ensures}
use database_systems.Common.{if-Ensures, option-Ensures, then-Ensures}
use database_systems.Reader.Next.{
  Loop, finished, rejected, out_of_fuel, num_fields, input_value, read_values, read_columns,
  read_data, read_table, use_values, use_columns, read_line, find_infuncs,
}

abbrev pub Finishes : {A : Type 0} → Loop A → Type 0
Finishes (finished a) = Unit
Finishes rejected = Unit
Finishes out_of_fuel = ⊥

module _ (services : Services) where
  -- From a place within a data line, the loop over its fields ends after at most as many rounds as
  -- there are bytes left in the line.
  pub read_values-Finishes :
      (s : Schema) (infuncs : Infuncs) (n : ℕ) (line : List ℕ) (pos i : ℕ) (values : List Value)
      → pos ≤ length line
      → length line - pos ≤ n
      → Ensures Finishes (read_values services s infuncs n line pos i values)
  unfolding read_values
  read_values-Finishes s infuncs zero line pos i values h k = rw at_end tt
    where
      at_end : (pos == length line) ≡ true
      at_end = ground arith
  read_values-Finishes s infuncs (suc n) line pos i values h k =
      if-Ensures _ (pos == length line) _ _ tt (
        if-Ensures _ (i == num_fields s) _ _ tt (
          on_token-Ensures _ line pos _ _ tt λ text pos' p q.
            then-Ensures _ (input_value services s infuncs i text) _ λ v.
              if-Ensures _ (is_null v) _ _ tt
                (read_values-Finishes s infuncs n line pos' _ _ q (omega arith))))

  -- The same of the loop over a table line.
  pub read_columns-Finishes :
      (n : ℕ) (line : List ℕ) (pos : ℕ) (typids typparams : List ℕ)
      → pos ≤ length line
      → length line - pos ≤ n
      → Ensures Finishes (read_columns services n line pos typids typparams)
  unfolding read_columns
  read_columns-Finishes zero line pos typids typparams h k = rw at_end tt
    where
      at_end : (pos == length line) ≡ true
      at_end = ground arith
  read_columns-Finishes (suc n) line pos typids typparams h k =
      if-Ensures _ (pos == length line) _ _ tt (
        on_token-Ensures _ line pos _ _ tt λ text pos' p q.
          if-Ensures _ (not (services.atoi_oid text).0) _ _ tt (
            on_token-Ensures _ line pos' _ _ tt λ text' pos'' p' q'.
              if-Ensures _ (not (services.atoi_uint64 text').0) _ _ tt
                (read_columns-Finishes n line pos'' _ _ q' (omega arith))))

  abbrev pub KeepsInput : Stream → Step → Type 0
  KeepsInput input st = st.0.input ≡ input

  use_values-KeepsInput :
      (r : Reader) (s : Schema) (loop : Loop (List Value × ℕ))
      → Ensures (KeepsInput r.input) (use_values services r s loop)
  unfolding use_values
  use_values-KeepsInput r s out_of_fuel = tt
  use_values-KeepsInput r s rejected = refl
  use_values-KeepsInput r s (finished found) =
      if-Ensures _ (not (found.1 == num_fields s)) _ _ refl (
        then-Ensures _ (write_payload s found.0 []) _
          λ written. option-Ensures _ written _ _ refl λ buf. refl)

  use_columns-KeepsInput :
      (r : Reader) (loop : Loop (List ℕ × List ℕ))
      → Ensures (KeepsInput r.input) (use_columns services r loop)
  unfolding use_columns
  use_columns-KeepsInput r out_of_fuel = tt
  use_columns-KeepsInput r rejected = refl
  use_columns-KeepsInput r (finished found) =
      then-Ensures _ (or_undefined (create found.0 found.1 (replicate (length found.0) false) [])) _
        λ fresh.
          option-Ensures _ (compute_layout (find_type_in services) services.call_length fresh) _ _
            tt
            λ s.
              then-Ensures _ (check s.layout_computed fatal) _
                λ _. then-Ensures _ (find_infuncs services found.0 r.infuncs) _ λ infuncs. refl

  pub read_line-KeepsInput :
      (r : Reader) (line : List ℕ) → Ensures (KeepsInput r.input) (read_line services r line)
  unfolding read_line read_data read_table
  read_line-KeepsInput r line = on_token-Ensures _ line 0 _ _ refl λ text pos _ _.
      if-Ensures _ (same_bytes text (100 ∷ 97 ∷ 116 ∷ 97 ∷ [])) _ _
        (then-Ensures _ (or_undefined r.schema) _ λ s.
          then-Ensures _ (read_values services s r.infuncs (length line) line pos 0 []) _
            λ loop. use_values-KeepsInput r s loop)
        (if-Ensures _ (same_bytes text (116 ∷ 97 ∷ 98 ∷ 108 ∷ 101 ∷ [])) _ _
          (on_token-Ensures _ line pos _ _ refl λ text' pos' _ _.
            if-Ensures _ (not (services.atoi_oid text').0) _ _ refl (
              then-Ensures _ (read_columns services (length line) line pos' [] []) _ λ loop.
                use_columns-KeepsInput (record r { tabid = (services.atoi_oid text').1 }) loop))
          refl)
