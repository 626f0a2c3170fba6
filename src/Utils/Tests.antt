-- ===== src/Utils/Tests.antt =====
-- The logarithm theorems at single values, and `logn_ceil` at 1, where it answers 1 and not 0.
use database_systems.Common.{◌+◌, ◌^◌, ◌≤◌, ◌<◌, ◌≡◌, refl, arith}
use database_systems.Utils.Logn.{log_entry, logn_floor, logn_ceil, logn_floor_bounds}

logn_floor_bounds_example : (2 ^ logn_floor 4097 ≤ 4097) × (4097 < 2 ^ (logn_floor 4097 + 1))
logn_floor_bounds_example = logn_floor_bounds 4097 (omega arith) (omega arith)

logn_ceil_at_1 : logn_ceil 1 ≡ 1
unfolding logn_ceil logn_floor log_entry
logn_ceil_at_1 = refl
