-- ===== src/Catalog/Rows.antt =====
-- The rows that InsertCatalogEntries of src/catalog/CatCacheBase_private.inc adds to a file of
-- VolatileCatCache.
use database_systems.Common.{
  suc, ◌>>=◌, ◌%◌, ℕ, ◌+◌, ◌-◌, ◌*◌, ◌^◌, ◌<◌, true, ◌&&◌, List, [], ◌∷◌, ◌++◌, some, length,
  get_elem?, set, take, drop, replicate, ltb, leb, Result, ok, ◌≡◌, ◌≢◌, refl, ap, sym, ◌∙◌, arith,
  length-append, length-replicate, length-set, get_elem?-set_self, get_elem?-set_ne, drop-length,
  take-length,
}
use mathlib.Core.Path.{fun_ext}
use mathlib.Core.List.{append_assoc, append-nil}
use database_systems.Storage.RecordId.{RecordId}
use database_systems.Schema.Defs.{Schema}
use database_systems.Payload.Write.{Value, write_payload}
use database_systems.Volatile.Files.{InmemFile, VolatileCatCache, append_to, append_record}
use database_systems.Volatile.Appends.{append_to_appends, IsAligned}
use database_systems.Catalog.Interface.{SysTables}
use database_systems.Catalog.Insert.{append_rows}
use database_systems.Catalog.Volatile.{volatile_files}

-- The payloads stand at the offsets.
abbrev pub Stored : List ℕ → List ℕ → List (List ℕ) → Type 0
Stored bytes [] [] = Unit {0}
Stored bytes (o ∷ os) (p ∷ ps) = (take (length p) (drop o bytes) ≡ p) × Stored bytes os ps
Stored bytes os ps = ⊥

-- The rows are written as the payloads, each of less than 2 ^ 15 bytes.
abbrev pub Written : Schema → List (List Value) → List (List ℕ) → Type 0
Written schema [] [] = Unit {0}
Written schema (row ∷ rows) (p ∷ ps) =
    ((n : ℕ) × (write_payload schema row [] ≡ ok (some (p, n))))
    × (length p < 32768)
    × Written schema rows ps
Written schema rows ps = ⊥

-- The file with the payloads behind what it held.
pub record Extends (f g : InmemFile) (ps : List (List ℕ)) : Type 0 where
  pub offs : List ℕ
  pub tail : List ℕ
  pub bytes : g.bytes ≡ f.bytes ++ tail
  pub offsets : g.offsets ≡ f.offsets ++ offs
  pub valid : g.valid ≡ f.valid ++ replicate (length ps) true
  pub stored : Stored g.bytes offs ps

stored_here :
    (old p pad tail : List ℕ)
    → take (length p) (drop (length old) ((old ++ (p ++ pad)) ++ tail)) ≡ p
stored_here old p pad tail =
    ap (λ l. take (length p) (drop (length old) l)) (append_assoc old (p ++ pad) tail)
    ∙ ap (take (length p)) (drop-length old ((p ++ pad) ++ tail))
    ∙ ap (take (length p)) (append_assoc p pad tail)
    ∙ take-length p (pad ++ tail)

abbrev pub AllShort : List (List ℕ) → Type 0
AllShort [] = Unit {0}
AllShort (p ∷ ps) = (length p < 32768) × AllShort ps

module _ (fh : ℕ) where
  abbrev pub Appended :
      VolatileCatCache → InmemFile → List (List ℕ) → Result VolatileCatCache → Type 0
  Appended c f ps res =
      (c' : VolatileCatCache) × (g : InmemFile) × (res ≡ ok c')
      × (get_elem? c'.systables (fh - 2) ≡ some g)
      × (length c'.systables ≡ length c.systables)
      × ((i : ℕ) → fh - 2 ≢ i → get_elem? c'.systables i ≡ get_elem? c.systables i)
      × IsAligned g
      × Extends f g ps

  -- One more entry in front.
  Extends-cons :
      (f g h : InmemFile) (p : List ℕ) (ps : List (List ℕ)) (pad : ℕ)
      → g.bytes ≡ f.bytes ++ (p ++ replicate pad 0)
      → g.offsets ≡ f.offsets ++ (length f.bytes ∷ [])
      → g.valid ≡ f.valid ++ (true ∷ [])
      → Extends g h ps
      → Extends f h (p ∷ ps)
  Extends-cons f g h p ps pad b o v x = record {
    offs = length f.bytes ∷ x.offs;
    tail = (p ++ replicate pad 0) ++ x.tail;
    bytes = all ∙ append_assoc f.bytes (p ++ replicate pad 0) x.tail;
    offsets =
        x.offsets ∙ ap (λ l. l ++ x.offs) o ∙ append_assoc f.offsets (length f.bytes ∷ []) x.offs;
    valid =
        x.valid
        ∙ ap (λ l. l ++ replicate (length ps) true) v
        ∙ append_assoc f.valid (true ∷ []) (replicate (length ps) true);
    stored = (
      ap (λ l. take (length p) (drop (length f.bytes) l)) all
          ∙ stored_here f.bytes p (replicate pad 0) x.tail,
      x.stored,
    );
  }
    where
      all : h.bytes ≡ (f.bytes ++ (p ++ replicate pad 0)) ++ x.tail
      all = x.bytes ∙ ap (λ l. l ++ x.tail) b

  append_record-append_to :
      (c : VolatileCatCache) (f g : InmemFile) (rec : List ℕ)
      → (ltb 1 fh && leb fh (length c.systables + 1)) ≡ true
      → get_elem? c.systables (fh - 2) ≡ some f
      → append_to f rec ≡ ok g
      → (rid : RecordId) × (append_record fh rec c
          ≡ ok (rid, record c { systables = set c.systables (fh - 2) g }))
  unfolding append_record
  append_record-append_to c f g rec opened here e =
      (record { pid = fh; sid = (length g.offsets - 1) % 2 ^ 16 }, rw (opened, here, e) refl)

  in_range :
      (c : VolatileCatCache)
      → (ltb 1 fh && leb fh (length c.systables + 1)) ≡ true
      → fh - 2 < length c.systables
  in_range c opened = ground arith

  -- The records are appended one after the other.
  unfoldable pub append_all : List (List ℕ) → VolatileCatCache → Result VolatileCatCache
  append_all [] c = ok c
  append_all (p ∷ ps) c = append_record fh p c >>= λ appended. append_all ps appended.1

  pub append_all-Appended :
      (ps : List (List ℕ)) (c : VolatileCatCache) (f : InmemFile)
      → (ltb 1 fh && leb fh (length c.systables + 1)) ≡ true
      → get_elem? c.systables (fh - 2) ≡ some f
      → IsAligned f
      → length f.offsets + length ps < 65535
      → length f.bytes + 32775 * length ps < 2 ^ 63
      → AllShort ps
      → Appended c f ps (append_all ps c)
  unfolding append_all
  append_all-Appended [] c f opened here aligned few room short = (
    c,
    f,
    refl,
    here,
    refl,
    λ i d. refl,
    aligned,
    record {
      offs = [];
      tail = [];
      bytes = sym (append-nil f.bytes);
      offsets = sym (append-nil f.offsets);
      valid = sym (append-nil f.valid);
      stored = tt;
    },
  )
  append_all-Appended (p ∷ ps) c f opened here aligned few room (short, more) =
      let (g, pad, e1, b, sm, o, v, al) =
        append_to_appends f p aligned (omega arith) (omega arith) short in
      let c1 : VolatileCatCache = record c { systables = set c.systables (fh - 2) g } in
      let (rid, e2) = append_record-append_to c f g p opened here e1 in
      let (c', h, e3, found, count, others, al', x) =
        append_all-Appended ps c1 g
          (ap (λ k. ltb 1 fh && leb fh (k + 1)) (length-set c.systables (fh - 2) g) ∙ opened)
          (get_elem?-set_self c.systables (fh - 2) g (in_range c opened)) al
          (omega (arith, ap length o, length-append f.offsets (length f.bytes ∷ [])))
          (omega (
            arith,
            ap length b,
            length-append f.bytes (p ++ replicate pad 0),
            length-append p (replicate pad 0),
            length-replicate {A = ℕ} pad 0,
          ))
          more in
      (
        c',
        h,
        rw e2 e3,
        found,
        count ∙ length-set c.systables (fh - 2) g,
        λ i d. others i d ∙ get_elem?-set_ne c.systables g d,
        al',
        Extends-cons f g h p ps pad b o v x,
      )

module _ (gen : SysTables) (fh : ℕ) (schema : Schema) where
  -- What the rows are written as is what is appended.
  append_rows-append_all :
      (rows : List (List Value)) (ps : List (List ℕ)) (c : VolatileCatCache)
      → Written schema rows ps
      → (append_rows volatile_files gen fh schema rows c ≡ append_all fh ps c)
        × AllShort ps
        × (length ps ≡ length rows)
  unfolding append_rows append_all
  append_rows-append_all [] [] c w = (refl, tt, refl)
  append_rows-append_all [] (p ∷ ps) c w = elim w [ ]
  append_rows-append_all (row ∷ rows) [] c w = elim w [ ]
  append_rows-append_all (row ∷ rows) (p ∷ ps) c ((n, e), short, w) = (
    rw e (then_same (append_record fh p c) λ s. (append_rows-append_all rows ps s w).0),
    (short, (append_rows-append_all rows ps c w).1),
    ap suc (append_rows-append_all rows ps c w).2,
  )
    where
      then_same :
          (m : Result (RecordId × VolatileCatCache))
          {k l : VolatileCatCache → Result VolatileCatCache}
          → ((s : VolatileCatCache) → k s ≡ l s)
          → (m >>= λ a. k a.1) ≡ (m >>= λ a. l a.1)
      then_same m h = ap (λ f. m >>= λ a. f a.1) (fun_ext h)

  -- The loop of InsertCatalogEntries over an open file of VolatileCatCache with an aligned end and
  -- room for the rows, whose record count stays below 65535, where every row is written as a
  -- payload of less than 2 ^ 15 bytes. It succeeds. The file keeps its bytes, offsets and flags,
  -- behind them come a valid entry for each row in order, and the row's payload stands at the
  -- entry's offset. The other files are as they were.
  pub append_rows-Appended :
      (rows : List (List Value)) (ps : List (List ℕ)) (c : VolatileCatCache) (f : InmemFile)
      → (ltb 1 fh && leb fh (length c.systables + 1)) ≡ true
      → get_elem? c.systables (fh - 2) ≡ some f
      → IsAligned f
      → length f.offsets + length rows < 65535
      → length f.bytes + 32775 * length rows < 2 ^ 63
      → Written schema rows ps
      → Appended fh c f ps (append_rows volatile_files gen fh schema rows c)
  append_rows-Appended rows ps c f opened here aligned few room w =
      let (same, short, count) = append_rows-append_all rows ps c w in
      rw same (
        append_all-Appended fh ps c f opened here aligned (omega (arith, count))
          (omega (arith, count)) short)
