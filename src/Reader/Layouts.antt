-- ===== src/Reader/Layouts.antt =====
-- The schema that InitDataFileReader::next (src/catalog/InitDataFileReader.cpp) keeps.
use database_systems.Common.{
  same_bytes, ◌^◌, ◌%◌, ℕ, zero, suc, ◌+◌, ◌*◌, ◌≤◌, ◌<◌, ◌==◌, Bool, true, false, List, [], ◌∷◌,
  some, length, replicate, Ensures, >>=-Ensures, ◌≡◌, refl, arith, not, subst, length-append,
  or_undefined, check, fatal, check-Ensures, some_inj, ◌||◌,
}
use database_systems.Schema.Defs.{Schema, create, construct, make_fields}
use database_systems.Schema.Compute.{compute_layout}
use database_systems.Schema.Visit.{GivesAlignments, GivesLengths}
use database_systems.Schema.Laid.{IsLaidOut}
use database_systems.Schema.Established.{compute_layout-IsLaidOut}
use database_systems.Payload.Write.{Value, write_payload}
use database_systems.Reader.State.{Services, find_type_in, Reader, Step, is_final, getline}
use database_systems.Reader.Progress.{on_token-Ensures}
use database_systems.Common.{
  if-Ensures, option-Ensures, option-Ensures_eq, guarded-Ensures, then-Ensures,
}
use database_systems.Reader.Next.{
  Loop, finished, rejected, out_of_fuel, num_fields, read_values, read_columns, read_data,
  read_table, use_values, use_columns, read_line, use_line, next, find_infuncs,
}

-- What `Schema::Create` makes: no layout yet, and a field for each type.
length-make_fields : (ts ps : List ℕ) (ns : List Bool) → length (make_fields ts ps ns) ≤ length ts
unfolding make_fields
length-make_fields (t ∷ ts) (p ∷ ps) (n ∷ ns) = omega (arith, length-make_fields ts ps ns)
length-make_fields [] ps ns = omega arith
length-make_fields (t ∷ ts) [] ns = omega arith
length-make_fields (t ∷ ts) (p ∷ ps) [] = omega arith

abbrev IsFresh : ℕ → Schema → Type 0
IsFresh n s = (s.layout_computed ≡ false) × (length s.field ≤ n)

create-IsFresh :
    (ts ps : List ℕ) (ns : List Bool)
    → Ensures (IsFresh (length ts)) (or_undefined (create ts ps ns []))
unfolding create construct
create-IsFresh ts ps ns =
    guarded-Ensures (IsFresh (length ts))
      ((length ts == 0)
        || (not (length ts == length ps) || (not (length ts == length ns) || false)))
      (construct ts ps ns []) (refl, length-make_fields ts ps ns)

module _ (services : Services) (aligns : GivesAlignments (find_type_in services))
    (lengths : GivesLengths services.call_length) where
  abbrev Few : ℕ → Loop (List ℕ × List ℕ) → Type 0
  Few len (finished found) = 2 * length found.0 ≤ len
  Few len rejected = Unit
  Few len out_of_fuel = Unit

  read_columns-Few :
      (n : ℕ) (line : List ℕ) (pos : ℕ) (typids typparams : List ℕ)
      → 2 * length typids ≤ pos
      → pos ≤ length line
      → Ensures (Few (length line)) (read_columns services n line pos typids typparams)
  unfolding read_columns
  read_columns-Few zero line pos typids typparams h k =
      if-Ensures _ (pos == length line) _ _ (omega arith) tt
  read_columns-Few (suc n) line pos typids typparams h k =
      if-Ensures _ (pos == length line) _ _ (omega arith) (
        on_token-Ensures _ line pos _ _ tt λ text pos' p q.
          if-Ensures _ (not (services.atoi_oid text).0) _ _ tt (
            on_token-Ensures _ line pos' _ _ tt λ text' pos'' p' q'.
              if-Ensures _ (not (services.atoi_uint64 text').0) _ _ tt (
                read_columns-Few n line pos'' _ _
                  (omega (arith, length-append typids ((services.atoi_oid text).1 ∷ []))) q')))

  -- The reader has no schema or one whose layout is computed and sound.
  abbrev pub IsSound : Reader → Type 0
  IsSound r = (s : Schema) → r.schema ≡ some s → (s.layout_computed ≡ true) × IsLaidOut s

  abbrev KeepsSound : Step → Type 0
  KeepsSound st = IsSound st.0

  use_values-IsSound :
      (r : Reader) (s : Schema) (loop : Loop (List Value × ℕ))
      → IsSound r
      → Ensures KeepsSound (use_values services r s loop)
  unfolding use_values
  use_values-IsSound r s out_of_fuel sound = tt
  use_values-IsSound r s rejected sound = sound
  use_values-IsSound r s (finished found) sound =
      if-Ensures KeepsSound (not (found.1 == num_fields s)) _ _ sound (
        then-Ensures KeepsSound (write_payload s found.0 []) _
          λ written. option-Ensures KeepsSound written _ _ sound λ buf. sound)

  use_columns-IsSound :
      (r : Reader) (loop : Loop (List ℕ × List ℕ))
      → IsSound r
      → (len : ℕ) → len < 32768
      → Few len loop
      → Ensures KeepsSound (use_columns services r loop)
  unfolding use_columns
  use_columns-IsSound r out_of_fuel sound len h few = tt
  use_columns-IsSound r rejected sound len h few = sound
  use_columns-IsSound r (finished found) sound len h few =
      >>=-Ensures (IsFresh (length found.0)) KeepsSound
        (or_undefined (create found.0 found.1 (replicate (length found.0) false) [])) _
        (create-IsFresh found.0 found.1 _)
        λ fresh is_fresh.
          option-Ensures_eq KeepsSound
            (compute_layout (find_type_in services) services.call_length fresh) _ _ tt
            λ s made.
              >>=-Ensures (λ _. s.layout_computed ≡ true) KeepsSound (check s.layout_computed fatal)
                _ (check-Ensures _ s.layout_computed fatal (λ e. e))
                λ _ computed.
                  then-Ensures KeepsSound (find_infuncs services found.0 r.infuncs) _ λ infuncs.
                    λ s' e.
                      subst (λ x. (x.layout_computed ≡ true) × IsLaidOut x) (some_inj e)
                        (
                          computed,
                          compute_layout-IsLaidOut (find_type_in services) services.call_length
                              fresh s aligns lengths (omega (arith, is_fresh.1)) is_fresh.0 made
                              computed,
                        )

  read_line-IsSound :
      (r : Reader) (line : List ℕ)
      → IsSound r
      → length line < 32768
      → Ensures KeepsSound (read_line services r line)
  unfolding read_line read_data read_table
  read_line-IsSound r line sound h = on_token-Ensures KeepsSound line 0 _ _ sound λ text pos p q.
      if-Ensures KeepsSound (same_bytes text (100 ∷ 97 ∷ 116 ∷ 97 ∷ [])) _ _
        (then-Ensures KeepsSound (or_undefined r.schema) _ λ s.
          then-Ensures KeepsSound (read_values services s r.infuncs (length line) line pos 0 []) _
            λ loop. use_values-IsSound r s loop sound)
        (if-Ensures KeepsSound (same_bytes text (116 ∷ 97 ∷ 98 ∷ 108 ∷ 101 ∷ [])) _ _
          (on_token-Ensures KeepsSound line pos _ _ sound λ text' pos' p' q'.
            if-Ensures KeepsSound (not (services.atoi_oid text').0) _ _ sound (
              >>=-Ensures (Few (length line)) KeepsSound
                (read_columns services (length line) line pos' [] []) _
                (read_columns-Few (length line) line pos' [] [] (omega arith) q')
                λ loop few.
                  use_columns-IsSound (record r { tabid = (services.atoi_oid text').1 }) loop sound
                    (length line) h few))
          sound)

  use_line-IsSound :
      (r : Reader) (line : List ℕ)
      → IsSound r
      → length line < 32768
      → Ensures KeepsSound (use_line services r line)
  unfolding use_line
  use_line-IsSound r [] sound h = sound
  use_line-IsSound r (c ∷ cs) sound h = read_line-IsSound r (c ∷ cs) sound h

  -- Take a catalog whose alignments are 1, 2, 4 or 8 and whose length functions give no negative
  -- length. If the next line of the file has fewer than 2 ^ 15 bytes, then a call of `next` keeps it so
  -- that the reader has no schema or one whose layout is computed, with every field placed in the
  -- section of its kind and the sections one behind another within 2 ^ 15 bytes.
  pub next-IsSound :
      (r : Reader)
      → IsSound r
      → length (getline r.input).0 < 32768
      → Ensures KeepsSound (next services r)
  unfolding next
  next-IsSound r sound h = if-Ensures KeepsSound (is_final r.last_state) _ _ sound (
      use_line-IsSound (record r { input = (getline r.input).1; lineno = (r.lineno + 1) % 2 ^ 64 })
        (getline r.input).0 sound h)
