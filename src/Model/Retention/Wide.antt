-- ===== src/Model/Retention/Wide.antt =====
-- What the boundary of retention leaves in.
use ether_state.Prelude.{ℕ, ◌+◌, ◌≤◌, ◌<◌, ◌≡◌, some, ◌⊎◌}
use ether_state.ModelStore.{IndexedBlock}
use ether_state.Model.Retention.{BoundaryPlan, Boundary, start_of, blocks_of, seconds_of}
use ether_state.Model.Retention.Kept.{IsBoundary}

-- A block among the last `blocks`, where these are given.
abbrev pub IsRecentBlock : BoundaryPlan → IndexedBlock → ℕ → Type 0
IsRecentBlock plan block n =
    (count : ℕ) × (blocks_of plan ≡ some count) × (block.number < n + count)

-- A time of the last `seconds`, where these are given.
abbrev pub IsRecentTime : BoundaryPlan → IndexedBlock → ℕ → Type 0
IsRecentTime plan block timestamp =
    (seconds : ℕ) × (seconds_of plan ≡ some seconds) × (block.timestamp ≤ timestamp + seconds)

-- A boundary that leaves nothing out that is asked for.
pub record IsWide (plan : BoundaryPlan) (at : ℕ → IndexedBlock) (block : IndexedBlock)
    (value : Boundary) : Type 0 where
  pub boundary : IsBoundary plan at block value
  pub keeps_all :
      (n : ℕ)
      → n ≤ block.number
      → start_of plan ≤ n
      → IsRecentBlock plan block n ⊎ IsRecentTime plan block (at n).timestamp
      → boundary.from ≤ n
