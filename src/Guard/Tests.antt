-- ===== src/Guard/Tests.antt =====
-- The theorems on guards at a short program.
use database_systems.Common.{
  false, ℕ, zero, suc, List, [], ◌∷◌, none, some, get_elem?, ◌≡◌, ◌≢◌, refl, ◌+◌,
}
use database_systems.Guard.Cells.{Guard}
use database_systems.Guard.Program.{
  Call, Program, run_calls, make, make_from, assign, release, destroy,
}
use database_systems.Guard.Sentinel.{sentinel_guard}
use database_systems.Guard.Flagged.{flagged_guard}
use database_systems.Guard.Ownership.{times, held, resources_accounted, resources_released}

-- Two resources: an assignment frees 5, and 6 is given back.
abbrev calls : List Call
calls = make 0 5 ∷ make 1 6 ∷ assign 0 1 ∷ release 0 ∷ []

abbrev flagged_after : Program (flagged_guard 0)
unfolding flagged_guard
flagged_after = record {
  variables =
      some (record { val = 0; isvalid = false }) ∷ some (record { val = 0; isvalid = false }) ∷ [];
  freed = 5 ∷ [];
  acquired = 6 ∷ 5 ∷ [];
  returned = 6 ∷ [];
}

resources_accounted_example :
    times 5 flagged_after.acquired
    ≡ times 5 flagged_after.freed
      + times 5 flagged_after.returned
      + held (flagged_guard 0) 5 flagged_after.variables
unfolding flagged_guard run_calls
resources_accounted_example = resources_accounted (flagged_guard 0) 2 calls flagged_after 5 refl

-- A self-assignment frees the resource.
abbrev sentinel_calls : List Call
sentinel_calls = make 0 5 ∷ assign 0 0 ∷ make_from 1 0 ∷ destroy 0 ∷ destroy 1 ∷ []

abbrev sentinel_after : Program (sentinel_guard 99)
sentinel_after = record {
  variables = none ∷ none ∷ [];
  freed = 5 ∷ [];
  acquired = 5 ∷ [];
  returned = [];
}

all_over :
    (i : ℕ) (c : Guard.Cell (sentinel_guard 99))
    → get_elem? sentinel_after.variables i ≢ some (some c)
all_over zero c e = cc e
all_over (suc zero) c e = cc e
all_over (suc (suc i)) c e = cc e

resources_released_example :
    times 5 sentinel_after.freed + times 5 sentinel_after.returned ≡ times 5 sentinel_after.acquired
unfolding sentinel_guard run_calls
resources_released_example =
    resources_released (sentinel_guard 99) 2 sentinel_calls sentinel_after 5 refl all_over
