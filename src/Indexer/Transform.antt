-- ===== src/Indexer/Transform.antt =====
-- `targetBlock`, `finalizedAnchor`, `transformBlock` and `indexChanges` of src/indexer/index.ts.
pub mod Stamped
use ether_state.Prelude.{
  ℕ, zero, suc, ◌+◌, ◌-◌, Bool, true, false, not, ◌&&◌, ◌||◌, Option, none, some, List, [], ◌∷◌,
  ltb, if◌then◌else◌, any,
}
use ether_state.Prelude.Texts.{same_text}
use ether_state.Prelude.Results.{Result, ok, err, ◌>>=◌, ◌>>◌, fail_if, map_error}
use ether_state.Rpc.{RpcBlock}
use ether_state.Indexer.{
  IndexValue, IndexRow, IndexFinality, latest_mode, confirmations, finalized_mode, IndexBlockBundle,
  FinalizedAnchor, IndexCheckpoint, latest, finalized, at_number, at_tag, IndexerError,
  duplicate_index_row, row_schema_error, transform_error, IndexDefinition, IndexChange, applies,
  block_data, invalid_index_definition, bad_range,
}
use ether_state.Indexer.Bundle.{Client, fetch_block, fetch_bundle}

-- `latest.number > count ? latest.number - count : 0n`
abbrev pub confirmed : ℕ → ℕ → ℕ
confirmed count number = if ltb count number then number - count else 0

unfoldable pub target_block : Client → IndexFinality → Result IndexerError RpcBlock
target_block client finalized_mode = fetch_block client (at_tag finalized) false
target_block client latest_mode = fetch_block client (at_tag latest) false
target_block client (confirmations count) = do
  head ← fetch_block client (at_tag latest) false
  fetch_block client (at_number (confirmed count head.number)) false

-- A failure gives no anchor.
unfoldable pub finalized_anchor : Client → Option FinalizedAnchor
finalized_anchor client = elim (client.by_tag finalized false) [
  | err cause ↦ none
  | ok none ↦ none
  | ok (some block) ↦ some (record { number = block.number; hash = block.hash })
]

-- The loop over the values that `transform` gave.
unfoldable pub encode_rows :
    IndexDefinition
    → RpcBlock
    → List (List ℕ)
    → List IndexValue
    → Result IndexerError (List IndexRow)
encode_rows index block seen [] = ok []
encode_rows index block seen (v ∷ values) = do
  fail_if (any (same_text v.key) seen) (duplicate_index_row v.key block.hash)
  value ← map_error row_schema_error (index.encode v.value)
  rows ← encode_rows index block (v.key ∷ seen) values
  ok (
      record {
        key = v.key;
        value = value;
        block_number = block.number;
        block_hash = block.hash;
        block_timestamp = block.timestamp;
      }
      ∷ rows)

pub record Transformed : Type 0 where
  pub bundle : IndexBlockBundle
  pub rows : List IndexRow

-- `chain_id` is that of the client's configuration.
module _ (to_lower_case : ℕ → ℕ) (chain_id : ℕ) where
  unfoldable pub transform_block : Client → IndexDefinition → ℕ → Result IndexerError Transformed
  unfolding encode_rows
  transform_block client index number = do
    bundle ← fetch_bundle to_lower_case client index number
    values ← map_error transform_error (index.transform bundle)
    rows ← encode_rows index bundle.block [] values
    ok (record { bundle = bundle; rows = rows })

  -- A stream that has come to its end: what it gave, and the error that ended it, if one did.
  unfoldable pub changes_from :
      Client → IndexDefinition → ℕ → ℕ → List IndexChange × Option IndexerError
  unfolding transform_block
  changes_from client index number zero = ([], none)
  changes_from client index number (suc blocks) = elim (transform_block client index number) [
    | err error ↦ ([], some error)
    | ok t ↦
        let block = block_data t.bundle.block in
        let checkpoint : IndexCheckpoint = record {
          block = block;
          index_id = index.id;
          version = index.version;
          chain_id = chain_id;
          start_block = index.start_block;
          finalized = none;
        } in
        let (changes, ended) = changes_from client index (number + 1) blocks in
        (applies block t.rows checkpoint ∷ changes, ended)
  ]

  unfoldable pub index_changes :
      Client → IndexDefinition → ℕ → ℕ → List IndexChange × Option IndexerError
  unfolding changes_from
  index_changes client index from_block to_block =
      if ltb from_block index.start_block || ltb to_block from_block
      then ([], some (invalid_index_definition bad_range))
      else changes_from client index from_block (to_block + 1 - from_block)
