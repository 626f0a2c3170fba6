-- ===== src/Common/Bytes.antt =====
-- Byte strings as lists of numbers below 256: reads, writes and little-endian integers. `none` is
-- an access out of range.
use Prim.Native.Nat.{ℕ, zero, suc, ◌+◌, ◌-◌, ◌*◌, ◌/◌, ◌%◌}
use mathlib.Core.List.{List, [], ◌∷◌, ◌++◌}
use mathlib.Core.Option.{Option, none, some}
use database_systems.Common.Tests.{leb, if◌then◌else◌}
use database_systems.Common.Lists.{length, take, drop, replicate}

-- `memcpy(buf + pos, bytes, n)`.
unfoldable pub store : List ℕ → ℕ → List ℕ → Option (List ℕ)
store buf pos bytes =
    if leb (pos + length bytes) (length buf)
    then some (take pos buf ++ (bytes ++ drop (pos + length bytes) buf))
    else none

unfoldable pub load : List ℕ → ℕ → ℕ → Option (List ℕ)
load buf pos n = if leb (pos + n) (length buf) then some (take n (drop pos buf)) else none

-- The first `n` little-endian bytes of a number.
unfoldable pub to_bytes : ℕ → ℕ → List ℕ
to_bytes zero v = []
to_bytes (suc n) v = v % 256 ∷ to_bytes n (v / 256)

unfoldable pub of_bytes : List ℕ → ℕ
of_bytes [] = 0
of_bytes (b ∷ bs) = b + 256 * of_bytes bs

-- `std::vector::resize`: new bytes are 0.
abbrev pub resize {ℓ} : {A : Type ℓ} → A → List A → ℕ → List A
resize a xs n = take n xs ++ replicate (n - length xs) a
