-- ===== src/Model/Retention.antt =====
-- `retentionBoundary` of src/indexer/model.ts: from which block on a model keeps its history.
pub mod Search
pub mod Kept
pub mod Wide
use ether_state.Prelude.{
  ℕ, zero, suc, ◌+◌, ◌-◌, ◌/◌, Bool, true, false, ◌&&◌, Option, none, some, ltb, leb, ◌==◌,
  if◌then◌else◌,
}
use ether_state.Prelude.Results.{Result, ok, err}
use ether_state.ModelStore.{IndexedBlock}
use ether_state.Model.{ModelFailure, Blocks, block_at}

pub record Retention : Type 0 where
  pub blocks : Option ℕ
  pub seconds : Option ℕ

-- `from` of the history, which is `none` for "origin" and without a history.
pub record BoundaryPlan : Type 0 where
  pub from : Option ℕ
  pub retention : Option Retention

-- `historyFrom` of the value is the same as `storeFrom`.
pub record Boundary : Type 0 where
  pub store_from : ℕ
  pub from_time : ℕ

pub record CachedBoundary : Type 0 where
  pub number : ℕ
  pub hash : ℕ
  pub value : Boundary

abbrev pub start_of : BoundaryPlan → ℕ
start_of plan = elim plan.from [ none ↦ 0 | some from ↦ from ]

abbrev pub blocks_of : BoundaryPlan → Option ℕ
blocks_of plan = elim plan.retention [ none ↦ none | some retention ↦ retention.blocks ]

abbrev pub seconds_of : BoundaryPlan → Option ℕ
seconds_of plan = elim plan.retention [ none ↦ none | some retention ↦ retention.seconds ]

abbrev pub raise_to : ℕ → ℕ → ℕ
raise_to bound from = if ltb from bound then bound else from

abbrev pub before : ℕ → ℕ
before n = if ltb 0 n then n - 1 else 0

abbrev pub first_retained : ℕ → ℕ → ℕ
first_retained count number = if leb count number then number - count + 1 else 0

abbrev pub oldest_time : ℕ → ℕ → ℕ
oldest_time seconds timestamp = if ltb seconds timestamp then timestamp - seconds else 0

-- The loop that halves, `none` where the fuel did not do.
unfoldable pub search : Blocks → ℕ → ℕ → ℕ → ℕ → Option (Result ModelFailure ℕ)
search blocks target zero low high = none
search blocks target (suc fuel) low high =
    let middle : ℕ = (low + high) / 2 in
    elim (ltb low high) [
      | false ↦ some (ok low)
      | true ↦ elim (block_at blocks middle) [
        | err error ↦ some (err error)
        | ok block ↦ elim (ltb block.timestamp target) [
          | true ↦ search blocks target fuel (middle + 1) high
          | false ↦ search blocks target fuel low middle
        ]
      ]
    ]

unfoldable pub history_from : Blocks → BoundaryPlan → IndexedBlock → Option (Result ModelFailure ℕ)
unfolding search
history_from blocks plan block =
    let from : ℕ = elim (blocks_of plan) [
      | none ↦ start_of plan
      | some count ↦ raise_to (before (first_retained count block.number)) (start_of plan)
    ] in
    elim (seconds_of plan) [
      | none ↦ some (ok from)
      | some seconds ↦
          elim (search blocks (oldest_time seconds block.timestamp) (block.number + 1) 0
            block.number) [
              | none ↦ none
              | some (err error) ↦ some (err error)
              | some (ok low) ↦ some (ok (raise_to (before low) from))
            ]
    ]

abbrev pub recovery_from : ℕ → ℕ
recovery_from number = if ltb 128 number then number - 128 else 0

abbrev pub store_from : BoundaryPlan → ℕ → ℕ → ℕ
store_from plan number from = elim plan.retention [
  | none ↦ from
  | some retention ↦ if ltb from (recovery_from number) then from else recovery_from number
]

abbrev pub is_cached : Option CachedBoundary → IndexedBlock → Option Boundary
is_cached none block = none
is_cached (some cached) block =
    if cached.number == block.number && cached.hash == block.hash then some cached.value else none

unfoldable pub retention_boundary :
    Blocks
    → BoundaryPlan
    → Option CachedBoundary
    → IndexedBlock
    → Option (Result ModelFailure Boundary × Option CachedBoundary)
unfolding history_from block_at
retention_boundary blocks plan cache block = elim (is_cached cache block) [
  | some value ↦ some (ok value, cache)
  | none ↦ elim (history_from blocks plan block) [
    | none ↦ none
    | some (err error) ↦ some (err error, cache)
    | some (ok from) ↦ elim (block_at blocks from) [
      | err error ↦ some (err error, cache)
      | ok boundary ↦
          let value : Boundary = record {
            store_from = store_from plan block.number from;
            from_time = boundary.timestamp;
          } in
          some (ok value, some (record { number = block.number; hash = block.hash; value = value }))
    ]
  ]
]
