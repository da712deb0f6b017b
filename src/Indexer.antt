-- ===== src/Indexer.antt =====
-- src/indexer/index.ts: an index that follows the chain block by block. Ids and keys are texts; the
-- values of rows, hashes and causes are named by numbers. A definition's `transform` and the encoding
-- by its schema are parameters, as fields of the definition.
pub mod Bundle
pub mod Transform
pub mod Storage
pub mod Sync
pub mod Keys
pub mod Valid
use ether_state.Prelude.{
  ℕ, Bool, true, false, not, ◌&&◌, ◌||◌, Option, none, some, List, [], ◌∷◌, map, ltb, leb, ◌==◌,
  if◌then◌else◌, any, length, or_default,
}
use ether_state.Prelude.Texts.{same_text}
use ether_state.Prelude.Results.{Result, ok, err, ◌>>=◌, ◌>>◌, fail_if}
use ether_state.Rpc.{
  RpcTransactionRequest, RpcTransaction, RpcReceipt, RpcLog, RpcLogFilter, RpcBlock,
}
use ether_state.Rpc.Errors.{ClientError}
use ether_state.ModelStore.{IndexedBlock}

pub record IndexValue : Type 0 where
  pub key : List ℕ
  pub value : ℕ

pub record IndexRow : Type 0 where
  pub key : List ℕ
  pub value : ℕ
  pub block_number : ℕ
  pub block_hash : ℕ
  pub block_timestamp : ℕ

pub record IndexCall : Type 0 where
  pub key : List ℕ
  pub transaction : RpcTransactionRequest

pub record IndexSource : Type 0 where
  pub transactions : Bool
  pub receipts : Bool
  pub logs : Option RpcLogFilter
  pub calls : List IndexCall

pub data IndexFinality : Type 0 where
  latest_mode : IndexFinality
  confirmations : ℕ → IndexFinality
  finalized_mode : IndexFinality

pub record IndexBlockBundle : Type 0 where
  pub block : RpcBlock
  pub transactions : List RpcTransaction
  pub receipts : List RpcReceipt
  pub logs : List RpcLog
  pub calls : List (List ℕ × ℕ)

pub record FinalizedAnchor : Type 0 where
  pub number : ℕ
  pub hash : ℕ

-- `block` has the fields that a checkpoint takes over from `IndexedBlock`.
pub record IndexCheckpoint : Type 0 where
  pub block : IndexedBlock
  pub index_id : List ℕ
  pub version : ℕ
  pub chain_id : ℕ
  pub start_block : ℕ
  pub finalized : Option FinalizedAnchor

pub data BlockTag : Type 0 where
  latest finalized : BlockTag

-- `block: bigint | string` of `IndexBlockUnavailable`.
pub data BlockLabel : Type 0 where
  at_number at_hash : ℕ → BlockLabel
  at_tag : BlockTag → BlockLabel

pub data DefinitionReason : Type 0 where
  empty_id bad_version bad_calls bad_limits bad_range : DefinitionReason

pub data BundleReason : Type 0 where
  not_in_full wrong_transactions wrong_receipts wrong_logs : BundleReason

-- `IndexerError | TransformError`
pub data IndexerError : Type 0 where
  invalid_index_definition : DefinitionReason → IndexerError
  index_metadata_mismatch : IndexCheckpoint → IndexerError
  index_block_unavailable : BlockLabel → Option ClientError → IndexerError
  inconsistent_index_bundle : ℕ → ℕ → BundleReason → IndexerError
  duplicate_index_row : List ℕ → ℕ → IndexerError
  index_reorg_too_deep : IndexCheckpoint → IndexerError
  finalized_chain_conflict : FinalizedAnchor → IndexerError
  row_schema_error transform_error : ℕ → IndexerError

-- `encode` is the schema's, and fails with an error that a number names.
pub record IndexDefinition : Type 0 where
  pub id : List ℕ
  pub version : ℕ
  pub start_block : ℕ
  pub finality : IndexFinality
  pub source : IndexSource
  pub encode : ℕ → Result ℕ ℕ
  pub transform : IndexBlockBundle → Result ℕ (List IndexValue)

pub data IndexChange : Type 0 where
  applies : IndexedBlock → List IndexRow → IndexCheckpoint → IndexChange
  reverts : List IndexedBlock → Option IndexCheckpoint → IndexChange

pub record IndexCommit : Type 0 where
  pub checkpoint : IndexCheckpoint
  pub rows : List IndexRow

pub record IndexRollback : Type 0 where
  pub index_id : List ℕ
  pub version : ℕ
  pub orphaned : List IndexedBlock
  pub checkpoint : Option IndexCheckpoint

-- What `callbackStore` writes for a commit and for a rollback.
pub change_of_commit : IndexCommit → IndexChange
change_of_commit c = applies c.checkpoint.block c.rows c.checkpoint

pub change_of_rollback : IndexRollback → IndexChange
change_of_rollback r = reverts r.orphaned r.checkpoint

abbrev pub is_empty {ℓ} : {A : Type ℓ} → List A → Bool
is_empty [] = true
is_empty (x ∷ xs) = false

-- `new Set(keys).size`
unfoldable pub distinct_size : List (List ℕ) → List (List ℕ) → ℕ
distinct_size seen [] = length seen
distinct_size seen (key ∷ keys) =
    if any (same_text key) seen then distinct_size seen keys else distinct_size (key ∷ seen) keys

-- `Number.isSafeInteger` of a number that is not negative.
abbrev pub is_safe_integer : ℕ → Bool
is_safe_integer n = leb n 9007199254740991

unfoldable pub validate_definition : IndexDefinition → Result IndexerError (Unit {0})
unfolding distinct_size
validate_definition index = do
  let keys = map (λ call. call.key) index.source.calls
  fail_if (is_empty index.id) (invalid_index_definition empty_id)
  fail_if (not (is_safe_integer index.version) || ltb index.version 1)
      (invalid_index_definition bad_version)
  fail_if (any is_empty keys || not (distinct_size [] keys == length keys))
      (invalid_index_definition bad_calls)
  ok tt

pub record Indexer : Type 0 where
  pub index : IndexDefinition
  pub reorg_depth : ℕ
  pub bootstrap_concurrency : ℕ

-- `Indexer.make`, without the client and the store, which the operations take.
unfoldable pub make : IndexDefinition → Option ℕ → Option ℕ → Result IndexerError Indexer
unfolding validate_definition
make index reorg_depth bootstrap_concurrency =
    let concurrency = or_default 4 bootstrap_concurrency in
    let depth = or_default 128 reorg_depth in
    let limits =
      not (is_safe_integer concurrency)
      || ltb concurrency 1
      || not (is_safe_integer depth)
      || ltb depth 1 in
    validate_definition index
    >> (fail_if limits (invalid_index_definition bad_limits)
        >> ok (record { index = index; reorg_depth = depth; bootstrap_concurrency = concurrency }))

abbrev pub block_data : RpcBlock → IndexedBlock
block_data block = record {
  number = block.number;
  hash = block.hash;
  parent_hash = block.parent_hash;
  timestamp = block.timestamp;
}
