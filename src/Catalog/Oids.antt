-- ===== src/Catalog/Oids.antt =====
-- CatCacheBase::AllocateOid of src/catalog/CatCacheBase_private.inc: the calls of any number of
-- threads, each a load of the shared counter and then rounds of the compare-exchange loop.
use database_systems.Common.{
  ℕ, ◌+◌, ◌-◌, ◌%◌, ◌^◌, List, [], ◌∷◌, Option, none, some, get_elem?, set, ltb, ◌==◌,
  if◌then◌else◌,
}

abbrev pub invalid_oid : ℕ
invalid_oid = 0

abbrev pub max_oid : ℕ
max_oid = 2 ^ 32 - 2

-- How far a call is: before its load, in the loop with the value of its local `next_oid`, or
-- returned.
pub data Call : Type 0 where
  starting : Call
  holding : ℕ → Call
  returned : ℕ → Call

-- `m_next_oid` of the meta page, and the calls.
pub record Counter : Type 0 where
  pub next_oid : ℕ
  pub calls : List Call

abbrev pub put : ℕ → ℕ → Call → Counter → Counter
put i n a w = record { next_oid = n; calls = set w.calls i a }

-- One step of call `i`: the load, or a round of the loop.
unfoldable pub step_call : ℕ → Counter → Call → Counter
step_call i w starting = put i w.next_oid (holding w.next_oid) w
step_call i w (holding v) =
    if ltb max_oid v
    then put i w.next_oid (returned invalid_oid) w
    else if v == w.next_oid
    then put i ((v + 1) % 2 ^ 32) (returned v) w
    else put i w.next_oid (holding w.next_oid) w
step_call i w (returned v) = w

unfoldable pub step_found : ℕ → Counter → Option Call → Counter
step_found i w none = w
step_found i w (some a) = step_call i w a

unfoldable pub step : ℕ → Counter → Counter
unfolding step_found step_call
step i w = step_found i w (get_elem? w.calls i)

-- The threads take their steps in the order of the list.
unfoldable pub interleave : List ℕ → Counter → Counter
unfolding step
interleave [] w = w
interleave (i ∷ is) w = interleave is (step i w)
