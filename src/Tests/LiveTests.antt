-- ===== src/Tests/LiveTests.antt =====
-- `orderedReceipts` on a block of two transactions.
use ether_state.Prelude.{ℕ, none, some, List, [], ◌∷◌}
use ether_state.Rpc.{RpcLog, RpcReceipt, hash_only, RpcBlock}

abbrev block : RpcBlock
block = record {
  hash = 700;
  parent_hash = 600;
  state_root = 0;
  transactions_root = 0;
  receipts_root = 0;
  logs_bloom = 0;
  number = 7;
  timestamp = 84;
  gas_limit = 0;
  gas_used = 0;
  size = 0;
  transactions = hash_only 71 ∷ hash_only 72 ∷ [];
  base_fee_per_gas = none;
}

abbrev log_of : ℕ → ℕ → ℕ → RpcLog
log_of hash index log_index = record {
  transaction_hash = hash;
  transaction_index = some index;
  log_index = some log_index;
  block_hash = some 700;
  block_number = some 7;
  block_timestamp = none;
  address = some 1;
  bytes = some 2;
  topics = some [];
  removed = none;
}

abbrev receipt : ℕ → ℕ → List RpcLog → RpcReceipt
receipt hash index logs = record {
  transaction_hash = hash;
  transaction_index = index;
  block_hash = 700;
  block_number = 7;
  from = 0;
  gas_used = 0;
  cumulative_gas_used = 0;
  effective_gas_price = 0;
  logs = logs;
  status = some 1;
}

abbrev first : RpcReceipt
first = receipt 71 0 (log_of 71 0 0 ∷ [])

abbrev second : RpcReceipt
second = receipt 72 1 (log_of 72 1 1 ∷ log_of 72 1 2 ∷ [])
