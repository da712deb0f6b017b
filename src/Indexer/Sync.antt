-- ===== src/Indexer/Sync.antt =====
-- `Indexer.sync` and `recover` of src/indexer/index.ts, over the tables of the stores. The provider's
-- answers change with time, which the model counts in rounds: `client` gives those of each round.
-- The loop of `sync` ends only when the provider's chain stops changing, so it takes fuel.
pub mod Canonical
pub mod Synced
pub mod Rollback
pub mod Recover
pub mod Steps
pub mod Runs
pub mod Steady
use ether_state.Prelude.{
  ℕ, zero, suc, ◌+◌, ◌-◌, Bool, true, false, not, ◌&&◌, Option, none, some, List, [], ◌∷◌, ltb, leb,
  ◌==◌, if◌then◌else◌, keep,
}
use ether_state.Prelude.Texts.{same_text}
use ether_state.Prelude.Results.{Result, ok, err, ◌>>=◌, ◌>>◌, fail_if}
use ether_state.Rpc.{RpcBlock}
use ether_state.ModelStore.{IndexedBlock}
use ether_state.Indexer.{
  FinalizedAnchor, IndexCheckpoint, at_number, IndexerError, index_metadata_mismatch,
  index_block_unavailable, index_reorg_too_deep, finalized_chain_conflict, IndexDefinition,
  block_data,
}
use ether_state.Indexer.Bundle.{Client, fetch_block}
use ether_state.Indexer.Transform.{target_block, finalized_anchor, Transformed, transform_block}
use ether_state.Indexer.Storage.{Tables, commit, rollback, load, recent}

unfoldable pub check_finalized : Client → Option FinalizedAnchor → Result IndexerError (Unit {0})
check_finalized client none = ok tt
check_finalized client (some anchor) = do
  block ← fetch_block client (at_number anchor.number) false
  fail_if (not (block.hash == anchor.hash)) (finalized_chain_conflict anchor)

-- `Effect.catch((error) => error.cause === undefined ? … null … : … error …)`
abbrev pub null_if_absent : Result IndexerError RpcBlock → Result IndexerError (Option RpcBlock)
null_if_absent (ok block) = ok (some block)
null_if_absent (err (index_block_unavailable label none)) = ok none
null_if_absent (err error) = err error

abbrev pub has_hash : ℕ → Option RpcBlock → Bool
has_hash hash none = false
has_hash hash (some block) = block.hash == hash

-- The loop over `recent`.
unfoldable pub find_canonical :
    Client → List IndexedBlock → Result IndexerError (Option IndexedBlock)
find_canonical client [] = ok none
find_canonical client (stored ∷ recent) =
    elim (null_if_absent (fetch_block client (at_number stored.number) false)) [
      | err error ↦ err error
      | ok canonical ↦
          if has_hash stored.hash canonical then ok (some stored) else find_canonical client recent
    ]

-- `recent.length > 0 && recent[recent.length - 1]?.number === startBlock`
unfoldable pub can_restart : ℕ → List IndexedBlock → Bool
can_restart start [] = false
can_restart start (block ∷ []) = block.number == start
can_restart start (block ∷ other ∷ recent) = can_restart start (other ∷ recent)

pub record Progress : Type 0 where
  pub checkpoint : Option IndexCheckpoint
  pub tables : Tables
  pub number : ℕ
  pub time : ℕ

-- How the loop over the blocks of a window ends.
pub data WindowEnd : Type 0 where
  all_committed must_restart : Progress → WindowEnd
  window_failed : IndexerError → Tables → WindowEnd

-- `none` means that the fuel ran out.
pub record SyncRun : Type 0 where
  pub tables : Tables
  pub outcome : Option (Result IndexerError (Option IndexCheckpoint))

abbrev pub fails_in : Tables → IndexerError → SyncRun
fails_in t error = record { tables = t; outcome = some (err error) }

abbrev pub Recovered : Type 0
Recovered = Option IndexCheckpoint × Tables

abbrev pub parent_differs : Option IndexCheckpoint → Transformed → Bool
parent_differs none t = false
parent_differs (some c) t = not (t.bundle.block.parent_hash == c.block.hash)

-- `finalized !== null && finalized.number <= number ? finalized : checkpoint?.finalized ?? null`
abbrev pub next_finalized :
    Option FinalizedAnchor → ℕ → Option IndexCheckpoint → Option FinalizedAnchor
next_finalized (some anchor) number none = if leb anchor.number number then some anchor else none
next_finalized (some anchor) number (some c) =
    if leb anchor.number number then some anchor else c.finalized
next_finalized none number none = none
next_finalized none number (some c) = c.finalized

abbrev pub is_of_index : IndexDefinition → ℕ → IndexCheckpoint → Bool
is_of_index index chain_id c =
    (c.chain_id == chain_id)
    && (c.start_block == index.start_block)
    && same_text c.index_id index.id
    && (c.version == index.version)

-- The checkpoint, where it is another index's.
abbrev pub is_foreign : IndexDefinition → ℕ → Option IndexCheckpoint → Option IndexCheckpoint
is_foreign index chain_id none = none
is_foreign index chain_id (some c) = if is_of_index index chain_id c then none else some c

abbrev pub requested_block : IndexDefinition → Client → Option ℕ → Result IndexerError RpcBlock
requested_block index client none = target_block client index.finality
requested_block index client (some number) = fetch_block client (at_number number) false

module _ (index : IndexDefinition) (depth : ℕ) where
  pub rollback_to : List IndexedBlock → Option IndexCheckpoint → Tables → Recovered
  rollback_to orphaned checkpoint t = (
    checkpoint,
    rollback
        (record {
          index_id = index.id;
          version = index.version;
          orphaned = orphaned;
          checkpoint = checkpoint;
        })
        t,
  )

  -- `recover` from where the checkpoint is not known to be canonical.
  unfoldable pub recover_from : Client → IndexCheckpoint → Tables → Result IndexerError Recovered
  unfolding find_canonical can_restart rollback_to
  recover_from client checkpoint t =
      let stored = recent index.id index.version depth t in
      elim (find_canonical client stored) [
        | err error ↦ err error
        | ok none ↦
            if can_restart index.start_block stored
            then ok (rollback_to stored none t)
            else err (index_reorg_too_deep checkpoint)
        | ok (some ancestor) ↦ ok (
            rollback_to (keep (λ block. ltb ancestor.number block.number) stored)
              (some (record checkpoint { block = ancestor })) t)
      ]

  unfoldable pub recover :
      Client → Option IndexCheckpoint → Bool → Tables → Result IndexerError Recovered
  unfolding check_finalized recover_from
  recover client none force t = ok (none, t)
  recover client (some checkpoint) force t = do
    check_finalized client checkpoint.finalized
    current ←
        if force
        then ok none
        else null_if_absent (fetch_block client (at_number checkpoint.block.number) false)
    if has_hash checkpoint.block.hash current
        then ok (some checkpoint, t)
        else recover_from client checkpoint t

  unfoldable pub next_number : Option IndexCheckpoint → ℕ
  next_number none = index.start_block
  next_number (some c) = c.block.number + 1

  module _ (to_lower_case : ℕ → ℕ) (chain_id : ℕ) (client : ℕ → Client) where
    -- The rest of a round of the inner loop, for a block that extends the checkpoint.
    unfoldable pub commit_block : Progress → Transformed → Progress
    commit_block p t =
        let block = t.bundle.block in
        let next : IndexCheckpoint = record {
          block = block_data block;
          index_id = index.id;
          version = index.version;
          chain_id = chain_id;
          start_block = index.start_block;
          finalized = next_finalized (finalized_anchor (client p.time)) block.number p.checkpoint;
        } in
        record {
          checkpoint = some next;
          tables = commit (record { checkpoint = next; rows = t.rows }) p.tables;
          number = p.number + 1;
          time = p.time + 1;
        }

    unfoldable pub commit_blocks : Progress → List Transformed → WindowEnd
    unfolding commit_block recover next_number
    commit_blocks p [] = all_committed p
    commit_blocks p (t ∷ ts) =
        let rest = commit_blocks (commit_block p t) ts in
        if parent_differs p.checkpoint t
        then elim (recover (client p.time) p.checkpoint true p.tables) [
          | err error ↦ window_failed error p.tables
          | ok (checkpoint, tables) ↦ must_restart (record {
            checkpoint = checkpoint;
            tables = tables;
            number = next_number checkpoint;
            time = p.time + 1;
          })
        ]
        else rest

    unfoldable pub transform_blocks : Client → ℕ → ℕ → Result IndexerError (List Transformed)
    transform_blocks c number zero = ok []
    transform_blocks c number (suc blocks) = do
      t ← transform_block to_lower_case chain_id c index number
      ts ← transform_blocks c (number + 1) blocks
      ok (t ∷ ts)

    -- `end + 1 - number`: the window ends with the target at the latest.
    abbrev pub window_size : ℕ → ℕ → ℕ → ℕ
    window_size concurrency number target =
        (if ltb (number + (concurrency - 1)) target then number + (concurrency - 1) else target)
        + 1
        - number

    unfoldable pub sync_loop : ℕ → ℕ → ℕ → Progress → SyncRun
    unfolding transform_blocks commit_blocks
    sync_loop zero concurrency target p = record { tables = p.tables; outcome = none }
    sync_loop (suc fuel) concurrency target p =
        let window : Result IndexerError (List Transformed) =
          transform_blocks (client p.time) p.number (window_size concurrency p.number target) in
        let round : SyncRun = elim window [
          | err error ↦ fails_in p.tables error
          | ok ts ↦ elim (commit_blocks (record p { time = p.time + 1 }) ts) [
            | all_committed p' ↦ sync_loop fuel concurrency target p'
            | must_restart p' ↦ sync_loop fuel concurrency target p'
            | window_failed error t ↦ fails_in t error
          ]
        ] in
        if leb p.number target
        then round
        else record { tables = p.tables; outcome = some (ok p.checkpoint) }

    -- The target is asked for after `recover`: both in round 0.
    unfoldable pub sync : ℕ → ℕ → Option ℕ → Tables → SyncRun
    unfolding sync_loop recover next_number
    sync fuel concurrency to_block t = elim (is_foreign index chain_id (load index.id t)) [
      | some c ↦ fails_in t (index_metadata_mismatch c)
      | none ↦ elim (recover (client 0) (load index.id t) false t) [
        | err error ↦ fails_in t error
        | ok (checkpoint, t') ↦ elim (requested_block index (client 0) to_block) [
          | err error ↦ fails_in t' error
          | ok target ↦ sync_loop fuel concurrency target.number (record {
            checkpoint = checkpoint;
            tables = t';
            number = next_number checkpoint;
            time = 1;
          })
        ]
      ]
    ]
