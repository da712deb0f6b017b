-- ===== src/Tests/BlocksTests.antt =====
-- The blocks 3 and 4 of a provider, in which each has one transaction and one receipt.
use ether_state.Prelude.{ℕ, ◌+◌, none, some, [], ◌∷◌}
use ether_state.Prelude.Results.{ok}
use ether_state.Rpc.{RpcBlock, RpcReceipt, hash_only}
use ether_state.History.Blocks.{BlocksRequest, Source, stream_blocks}
use ether_state.History.Blocks.Complete.{BlocksEnd, stream_blocks_lem}

abbrev block_at : ℕ → RpcBlock
block_at n = record {
  hash = n + 100;
  parent_hash = n + 99;
  state_root = 0;
  transactions_root = 0;
  receipts_root = 0;
  logs_bloom = 0;
  number = n;
  timestamp = 0;
  gas_limit = 0;
  gas_used = 0;
  size = 0;
  transactions = hash_only n ∷ [];
  base_fee_per_gas = none;
}

abbrev receipt_at : ℕ → RpcReceipt
receipt_at n = record {
  transaction_hash = n;
  transaction_index = 0;
  block_hash = n + 100;
  block_number = n;
  from = 0;
  gas_used = 0;
  cumulative_gas_used = 0;
  effective_gas_price = 0;
  logs = [];
  status = some 1;
}

abbrev source : Source
source = record {
  by_number = λ n full. ok (some (block_at n));
  receipts_at = λ n. ok (some (receipt_at n ∷ []));
}

abbrev request : BlocksRequest
request = record { from_block = 3; to_block = 4; concurrency = none; full = none }

stream_blocks_lem_example : BlocksEnd source request (stream_blocks source request)
stream_blocks_lem_example = stream_blocks_lem source request
