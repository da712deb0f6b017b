-- ===== src/Indexer/Storage/Json/RoundTrip.antt =====
-- What is stored of a checkpoint or a block is read back as it was.
use ether_state.Prelude.{ℕ, ◌≡◌, refl, Option, none, some, List}
use ether_state.Prelude.Digits.{big_int-to_string}
use ether_state.Prelude.Results.{ok}
use ether_state.ModelStore.{IndexedBlock}
use ether_state.Indexer.{FinalizedAnchor, IndexCheckpoint}
use ether_state.Indexer.Storage.Json.{
  anchor_json, checkpoint_json, parse_anchor, parse_checkpoint, block_columns, parse_block,
}

module _ (hash_text : ℕ → List ℕ) (hash_named : List ℕ → ℕ) where
  anchor_round_trip :
      (anchor : Option FinalizedAnchor)
      → ((h : ℕ) → hash_named (hash_text h) ≡ h)
      → parse_anchor hash_text hash_named (some (anchor_json hash_text hash_named anchor))
        ≡ ok anchor
  anchor_round_trip none named = refl
  anchor_round_trip (some a) named = rw (big_int-to_string a.number, named a.hash)

  -- A checkpoint that is written is read back as it was, whether or not it has a finalized block,
  -- where the text of a hash determines the hash.
  pub parse_checkpoint-checkpoint_json :
      (c : IndexCheckpoint)
      → ((h : ℕ) → hash_named (hash_text h) ≡ h)
      → parse_checkpoint hash_text hash_named (checkpoint_json hash_text hash_named c) ≡ ok c
  unfolding parse_checkpoint checkpoint_json
  parse_checkpoint-checkpoint_json c named = rw (
    anchor_round_trip c.finalized named,
    big_int-to_string c.chain_id,
    big_int-to_string c.start_block,
    big_int-to_string c.block.number,
    big_int-to_string c.block.timestamp,
    named c.block.hash,
    named c.block.parent_hash,
  )

  pub parse_block-block_columns :
      (b : IndexedBlock)
      → ((h : ℕ) → hash_named (hash_text h) ≡ h)
      → parse_block hash_text hash_named (block_columns hash_text hash_named b) ≡ ok b
  unfolding parse_block block_columns
  parse_block-block_columns b named =
      rw (
        big_int-to_string b.number,
        big_int-to_string b.timestamp,
        named b.hash,
        named b.parent_hash,
      )
