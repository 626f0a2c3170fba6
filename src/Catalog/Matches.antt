-- ===== src/Catalog/Matches.antt =====
-- SearchForCatalogEntry of src/catalog/CatCacheBase_private.inc against a search of the list of
-- entries: which entry it finds, and that the cache does not show in what it returns.
use database_systems.Common.{
  inr, some_inj, inl, ◌⊎◌, ℕ, zero, suc, ◌<◌, Bool, true, false, List, [], ◌∷◌, Option, none, some,
  length, Result, ok, ◌>>=◌, if◌then◌else◌, ◌≡◌, refl, ap, sym, ◌∙◌, arith,
}
use database_systems.Storage.RecordId.{RecordId}
use database_systems.Schema.Defs.{Schema}
use database_systems.Catalog.Interface.{CatalogFiles, SysTables, Scans, ended, entry}
use database_systems.Catalog.State.{CatCache, Key, find, emplaced, emplace_entry, record_id_key}
use database_systems.Catalog.Search.{
  Predicate, check_if_equal, systable_struct, entry_in_cache, get_or_create_cached_entry,
  search_unique,
}

abbrev pub Entry : Type 0
Entry = RecordId × List ℕ

-- The first entry whose bytes pass the test.
abbrev pub first_match : (List ℕ → Bool) → List Entry → Option Entry
first_match test [] = none
first_match test ((r, b) ∷ es) = if test b then some (r, b) else first_match test es

module _ {K A : Type 0} ⦃key : Key K⦄ where
  pub find-emplace_entry_cases :
      (k j : K) (a b : A) (m : List (K × A))
      → find j (emplace_entry k a m) ≡ some b
      → ((k ≡ j) × (a ≡ b)) ⊎ (find j m ≡ some b)
  unfolding emplace_entry
  find-emplace_entry_cases k j a b m h = on (find k m) h
    where
      new :
          (t : Bool)
          → key.same k j ≡ t
          → (if t then some a else find j m) ≡ some b
          → ((k ≡ j) × (a ≡ b)) ⊎ (find j m ≡ some b)
      new true e p = inl ((key.same_iff k j).0 e, some_inj p)
      new false e p = inr p

      on :
          (o : Option A)
          → find j (emplaced k a m o) ≡ some b
          → ((k ≡ j) × (a ≡ b)) ⊎ (find j m ≡ some b)
      on none p = new (key.same k j) refl p
      on (some x) p = inr p

module _ (io : CatalogFiles) (gen : SysTables) where
  -- The predicates come to the test on every entry.
  abbrev pub Decides : Schema → List Predicate → (List ℕ → Bool) → List Entry → Type 0
  Decides schema ps test [] = Unit {0}
  Decides schema ps test ((r, b) ∷ es) =
      (check_if_equal io gen schema ps b ≡ ok (test b)) × Decides schema ps test es

  -- Every entry is read as the row that `source` has under its record ID.
  abbrev pub Agrees : ℕ → Schema → (RecordId → Option gen.Row) → List Entry → Type 0
  Agrees systabid schema source [] = Unit {0}
  Agrees systabid schema source ((r, b) ∷ es) =
      ((row : gen.Row) × (systable_struct io gen systabid schema b ≡ ok row)
        × (source r ≡ some row))
      × Agrees systabid schema source es

  -- What is cached is what `source` has.
  abbrev pub IsCoherent : (RecordId → Option gen.Row) → CatCache io gen → Type 0
  IsCoherent source c =
      (r : RecordId) (row : gen.Row) → find r c.recid_lookup_table ≡ some row → source r ≡ some row

  abbrev pub source_of : (RecordId → Option gen.Row) → Option Entry → Option gen.Row
  source_of source none = none
  source_of source (some (r, b)) = source r

  -- What a search comes to.
  abbrev pub Found :
      (RecordId → Option gen.Row)
      → Option gen.Row
      → CatCache io gen
      → Result (Option gen.Row × CatCache io gen)
      → Type 0
  Found source row c res =
      (c' : CatCache io gen) × (res ≡ ok (row, c'))
      × (c' ≡ record c { recid_lookup_table = c'.recid_lookup_table })
      × IsCoherent source c'

  cached :
      (systabid : ℕ) (schema : Schema) (source : RecordId → Option gen.Row) (r : RecordId)
      (b : List ℕ) (row : gen.Row) (c : CatCache io gen)
      → systable_struct io gen systabid schema b ≡ ok row
      → source r ≡ some row
      → IsCoherent source c
      → Found source
          (source r)
          c
          (get_or_create_cached_entry io gen systabid r schema b c >>= λ e. ok (some e.0, e.1))
  unfolding get_or_create_cached_entry entry_in_cache
  cached systabid schema source r b row c decoded here coherent =
      on (find r c.recid_lookup_table) refl
    where
      on :
          (o : Option gen.Row)
          → find r c.recid_lookup_table ≡ o
          → Found source
              (source r)
              c
              (entry_in_cache io gen systabid r schema b c o >>= λ e. ok (some e.0, e.1))
      on (some x) e = (c, ap (λ s. ok (s, c)) (sym (coherent r x e)), refl, coherent)
      on none e = (
        record c { recid_lookup_table = emplace_entry r row c.recid_lookup_table },
        rw (decoded, here) refl,
        refl,
        λ j x h. elim (find-emplace_entry_cases r j row x c.recid_lookup_table h) [
          | inl (p, q) ↦ ap source (sym p) ∙ here ∙ ap some q
          | inr p ↦ coherent j x p
        ],
      )

  Found-if :
      (source : RecordId → Option gen.Row) (t : Bool) (r : RecordId) (b : List ℕ) (o : Option Entry)
      (c : CatCache io gen) {this rest : Result (Option gen.Row × CatCache io gen)}
      → Found source (source r) c this
      → Found source (source_of source o) c rest
      → Found source (source_of source (if t then some (r, b) else o)) c (if t then this else rest)
  Found-if source true r b o c yes_here no_here = yes_here
  Found-if source false r b o c yes_here no_here = no_here

  -- A scan for a unique entry over a file whose entries are `es`, with more fuel than entries,
  -- where the predicates come to a test on every entry, every entry is read as the row of its
  -- record ID, and the cache holds such rows only. The scan returns the row of the first entry
  -- that passes the test, or nothing if none passes, whatever is cached; it changes nothing but the
  -- cache, which holds such rows only again.
  pub search_unique-first_match :
      (fuel systabid : ℕ) (schema : Schema) (ps : List Predicate) (test : List ℕ → Bool)
      (source : RecordId → Option gen.Row) (c : CatCache io gen) (it : io.Iterator)
      (es : List Entry)
      → Scans io c.files it es
      → length es < fuel
      → Decides schema ps test es
      → Agrees systabid schema source es
      → IsCoherent source c
      → Found source
          (source_of source (first_match test es))
          c
          (search_unique io gen fuel systabid schema ps it c)
  unfolding search_unique
  search_unique-first_match zero systabid schema ps test source c it es s f d a v = elim f [ ]
  search_unique-first_match (suc fuel) systabid schema ps test source c it [] (ended e) f d a v =
      rw e (c, refl, refl, v)
  search_unique-first_match (suc fuel) systabid schema ps test source c it ((r, b) ∷ es)
        (entry {it' = it'} e g same more) f (d, ds) ((row, decoded, here), agree) v =
      rw (e, g, d, same)
        (Found-if source (test b) r b (first_match test es) c
          (cached systabid schema source r b row c decoded here v)
          (search_unique-first_match fuel systabid schema ps test source c it' es more (omega arith)
            ds agree v))
