-- ===== src/Catalog/State.antt =====
-- The state of CatCacheBase of include/catalog/CatCacheBase.h, and its lookup tables.
use database_systems.Common.{
  ℕ, ◌+◌, ◌%◌, ◌^◌, Bool, true, List, [], ◌∷◌, Option, none, some, ◌==◌, ltb, if◌then◌else◌, ◌↔◌,
  ◌≡◌, ==_iff,
}
use database_systems.Schema.Defs.{Schema}
use database_systems.Storage.RecordId.{RecordId, equal, equal_lem}
use database_systems.Catalog.Interface.{CatalogFiles, SysTables}
use database_systems.Catalog.Oids.{max_oid, invalid_oid}

-- What a flat_hash_map asks of its keys.
pub record Key (K : Type 0) : Type 0 where
  pub same : K → K → Bool
  pub same_iff : (a b : K) → (same a b ≡ true) ↔ (a ≡ b)

instance abbrev pub oid_key : Key ℕ
oid_key = record { same = ◌==◌; same_iff = ==_iff }

instance abbrev pub record_id_key : Key RecordId
record_id_key = record { same = equal; same_iff = equal_lem }

module _ {K A : Type 0} ⦃key : Key K⦄ where
  unfoldable pub find : K → List (K × A) → Option A
  find k [] = none
  find k ((k', a) ∷ m) = if key.same k' k then some a else find k m

  -- `emplace` leaves an entry that is there.
  unfoldable pub emplaced : K → A → List (K × A) → Option A → List (K × A)
  emplaced k a m none = (k, a) ∷ m
  emplaced k a m (some b) = m

  unfoldable pub emplace_entry : K → A → List (K × A) → List (K × A)
  unfolding find emplaced
  emplace_entry k a m = emplaced k a m (find k m)

-- The meta page, src/catalog/CatCacheBase_private.inc.
pub record DbMetaPage : Type 0 where
  pub magic : ℕ
  pub next_oid : ℕ
  pub systable_table_fid : ℕ

pub record TableDesc (gen : SysTables) : Type 0 where
  pub table_entry : gen.Row
  pub schema : Schema

pub record CatCache (io : CatalogFiles) (gen : SysTables) : Type 0 where
  pub initialized : Bool
  pub use_index : Bool
  pub recid_lookup_table : List (RecordId × gen.Row)
  pub table_desc : List (ℕ × TableDesc gen)
  pub files : io.Files
  pub meta : DbMetaPage

-- AllocateOid, called while no other call runs.
unfoldable pub allocate_oid :
    {io : CatalogFiles} {gen : SysTables} → CatCache io gen → ℕ × CatCache io gen
allocate_oid c = if ltb max_oid c.meta.next_oid then (invalid_oid, c) else (
  c.meta.next_oid,
  record c { meta = record c.meta { next_oid = (c.meta.next_oid + 1) % 2 ^ 32 } },
)
