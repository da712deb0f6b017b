-- ===== src/Tests/ModelTests.antt =====
-- src/indexer/model.ts at block 200 of a chain with a block every twelve seconds.
use ether_state.Prelude.{ℕ, ◌*◌, ◌≡◌, refl, none, some}
use ether_state.Prelude.Results.{ok}
use ether_state.ModelStore.{IndexedBlock}
use ether_state.Model.{Blocks}
use ether_state.Model.Retention.{BoundaryPlan, Boundary, CachedBoundary, retention_boundary}

abbrev block_of : ℕ → IndexedBlock
block_of n = record { number = n; hash = n; parent_hash = 0; timestamp = n * 12 }

abbrev chain : Blocks
chain n = ok (some (block_of n))

-- The last 10 blocks that are also of the last 60 seconds.
abbrev plan : BoundaryPlan
plan = record { from = some 3; retention = some (record { blocks = some 10; seconds = some 60 }) }

abbrev value : Boundary
value = record { store_from = 72; from_time = 2328 }

abbrev cached : CachedBoundary
cached = record { number = 200; hash = 200; value = value }

at_200 : retention_boundary chain plan none (block_of 200) ≡ some (ok value, some cached)
unfolding retention_boundary
at_200 = refl

again_at_200 :
    retention_boundary chain plan (some cached) (block_of 200) ≡ some (ok value, some cached)
unfolding retention_boundary
again_at_200 = refl

abbrev by_time : BoundaryPlan
by_time = record { from = some 3; retention = some (record { blocks = none; seconds = some 60 }) }
