-- ===== src/Datum/Cells.antt =====
-- Datum, DatumRef and NullableDatumRef of include/base/datum.h. A pointer is a number, and the null
-- pointer is 0; a DatumRep holds a value of up to 64 bits or a pointer.
use database_systems.Common.{
  ℕ, ◌+◌, ◌-◌, ◌%◌, ◌^◌, Bool, true, false, ◌&&◌, List, [], ◌∷◌, Option, get_elem?, ltb, leb, ◌==◌,
  if◌then◌else◌, Result, ok, throws, fatal, ◌>>=◌, ◌>>◌, check, or_undefined,
}

pub record Datum : Type 0 where
  pub isowned : Bool
  pub isnull : Bool
  pub isvarlen : Bool
  pub size : ℕ
  pub val : ℕ

-- The three constructors.
abbrev pub null_datum : Datum
null_datum = record { isowned = false; isnull = true; isvarlen = false; size = 0; val = 0 }

abbrev pub value_datum : ℕ → Datum
value_datum v = record { isowned = false; isnull = false; isvarlen = false; size = 0; val = v }

abbrev pub varlen_datum : ℕ → Bool → ℕ → Datum
varlen_datum v owned size = record {
  isowned = owned;
  isnull = false;
  isvarlen = true;
  size = size;
  val = v;
}

-- The pointers that the destructor frees.
unfoldable pub destroy_datum : Datum → List ℕ
destroy_datum d = if d.isowned then d.val ∷ [] else []

-- What a move copies into its target: the constructor, and the assignment, which does not look at
-- what the target held.
unfoldable pub move_datum : Datum → Datum
move_datum d = d

unfoldable pub assign_datum : Datum → Datum → Datum
assign_datum this d = d

-- What a move leaves in its source: zeroed, and null.
unfoldable pub moved_from : Datum → Datum
moved_from d = null_datum

unfoldable pub get_varlen_bytes : Datum → ℕ
get_varlen_bytes d = d.val

unfoldable pub get_varlen_size : Datum → ℕ
get_varlen_size d = d.size

-- The pointer and the size of the view.
unfoldable pub get_varlen_as_string_view : Datum → ℕ × ℕ
get_varlen_as_string_view d = (d.val, d.size)

-- FromVarlenBytes of bytes that the datum does not own.
unfoldable pub from_varlen_pointer : ℕ → ℕ → Datum
from_varlen_pointer bytes size = varlen_datum bytes false size

unfoldable pub from_nullable_varlen_pointer : ℕ → ℕ → Bool → Datum
unfolding from_varlen_pointer
from_nullable_varlen_pointer bytes size isnull =
    if isnull then null_datum else from_varlen_pointer bytes size

-- FromVarlenBytes of a unique pointer: the datum, and what the pointer frees when it goes out of
-- scope.
unfoldable pub from_owned_bytes : ℕ → ℕ → Bool → Datum × List ℕ
from_owned_bytes bytes size isnull =
    if bytes == 0
    then (null_datum, [])
    else if isnull
    then (null_datum, bytes ∷ [])
    else (varlen_datum bytes true size, [])

-- FromCString, of a string whose `strlen` is `len`.
unfoldable pub from_cstring : ℕ → ℕ → Result Datum
unfolding from_varlen_pointer
from_cstring str len = do check (ltb len (2 ^ 32)) fatal; ok (from_varlen_pointer str len)

unfoldable pub from_nullable_cstring : ℕ → ℕ → Bool → Result Datum
unfolding from_cstring
from_nullable_cstring str len isnull = if isnull then ok null_datum else from_cstring str len

unfoldable pub from_owned_cstring : ℕ → ℕ → Bool → Result (Datum × List ℕ)
from_owned_cstring str len isnull =
    if str == 0
    then ok (null_datum, [])
    else if isnull
    then ok (null_datum, str ∷ [])
    else (do check (ltb len (2 ^ 32)) fatal; ok (varlen_datum str true len, []))

-- The view's size is converted to a `uint32_t`.
unfoldable pub from_string_view : ℕ → ℕ → Datum
unfolding from_varlen_pointer
from_string_view bytes size =
    if bytes == 0 then null_datum else from_varlen_pointer bytes (size % 2 ^ 32)

-- `From` with `isnull`, where `d` is what `From` returns without it.
unfoldable pub from_nullable : Datum → Bool → Datum
from_nullable d isnull = if isnull then null_datum else d

unfoldable pub has_external_ref : Datum → Bool
has_external_ref d = d.isvarlen && d.isowned

-- What DeepCopy returns, where `fresh` is the pointer that the allocation returns.
unfoldable pub copied_datum : ℕ → Datum → Datum
unfolding has_external_ref from_owned_bytes get_varlen_size
copied_datum fresh d =
    if has_external_ref d then (from_owned_bytes fresh (get_varlen_size d) false).0 else d

-- The byte at each address.
abbrev pub Memory : Type 0
Memory = ℕ → ℕ

abbrev pub memcpy : ℕ → ℕ → ℕ → Memory → Memory
memcpy to from size mem a = if leb to a && ltb a (to + size) then mem (from + (a - to)) else mem a

-- DeepCopy, with the bytes.
unfoldable pub deep_copy : ℕ → Datum → Memory → Datum × Memory
unfolding copied_datum has_external_ref get_varlen_bytes get_varlen_size
deep_copy fresh d mem = (
  copied_datum fresh d,
  if has_external_ref d then memcpy fresh (get_varlen_bytes d) (get_varlen_size d) mem else mem,
)

-- A DatumRef is its `m_val`. `this` is the address of the datum.
unfoldable pub datum_ref : ℕ → Datum → ℕ
datum_ref this d = if d.isvarlen then this else d.val

pub record NullableDatumRef : Type 0 where
  pub isnull : Bool
  pub val : ℕ

unfoldable pub nullable_datum_ref : ℕ → Datum → NullableDatumRef
nullable_datum_ref this d = record { isnull = d.isnull; val = if d.isvarlen then this else d.val }

unfoldable pub nullable_of_ref : ℕ → NullableDatumRef
nullable_of_ref r = record { isnull = false; val = r }

-- The conversion to a DatumRef.
unfoldable pub to_datum_ref : NullableDatumRef → Result ℕ
to_datum_ref r = if r.isnull then throws fatal else ok r.val

-- The datum that a reference of variable length points to, among the variables at their addresses,
-- and its getters.
unfoldable pub get_datum : List (Option Datum) → ℕ → Result Datum
get_datum variables r = or_undefined (get_elem? variables r) >>= or_undefined

unfoldable pub ref_varlen_bytes : List (Option Datum) → ℕ → Result ℕ
unfolding get_datum get_varlen_bytes
ref_varlen_bytes variables r = do d ← get_datum variables r; ok (get_varlen_bytes d)

unfoldable pub ref_varlen_size : List (Option Datum) → ℕ → Result ℕ
unfolding get_datum get_varlen_size
ref_varlen_size variables r = do d ← get_datum variables r; ok (get_varlen_size d)

unfoldable pub ref_varlen_as_string_view : List (Option Datum) → ℕ → Result (ℕ × ℕ)
unfolding get_datum get_varlen_as_string_view
ref_varlen_as_string_view variables r = do
  d ← get_datum variables r
  ok (get_varlen_as_string_view d)
