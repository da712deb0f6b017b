-- ===== src/Tests/IndexerTests.antt =====
-- An index of one row for each block, which follows a provider with a block of each number. The
-- block `n` has the hash `n + 101`.
use ether_state.Prelude.{
  ℕ, ◌+◌, ◌-◌, ◌*◌, ◌==◌, if◌then◌else◌, ◌<◌, ◌≡◌, ◌↔◌, refl, sym, ap, ◌∙◌, false, none, some, List,
  [], ◌∷◌, arith,
}
use ether_state.Prelude.Results.{ok}
use ether_state.Rpc.{RpcBlock, full_transactions}
use ether_state.ModelStore.{IndexedBlock}
use ether_state.Indexer.{
  IndexRow, IndexDefinition, IndexCheckpoint, latest_mode, IndexBlockBundle, make, block_data,
}
use ether_state.Indexer.Valid.{IsValid, make_iff}
use ether_state.Indexer.Bundle.{
  Client, fetch_block, fetch_bundle, with_block, with_receipts, are_transactions_of,
  are_receipts_of, fetch_logs, flat_logs, fetch_calls,
}
use ether_state.Indexer.Bundle.Consistent.{IsConsistent, fetch_bundle_lem}
use ether_state.Indexer.Transform.{
  Transformed, transform_block, encode_rows, target_block, finalized_anchor,
}
use ether_state.Indexer.Transform.Stamped.{IsProvider, IsTransformed, transform_block_lem}
use ether_state.Indexer.Storage.{
  Tables, StoredRow, no_tables, load, commit, put_rows, put_row, recent, rollback, drop_blocks,
}
use ether_state.Indexer.Sync.{sync, recover, recover_from, next_number, requested_block}
use ether_state.Indexer.Sync.Synced.{IsSynced, IsRecovered, no_tables-IsSynced}
use ether_state.Indexer.Sync.Recover.{recover_lem}
use ether_state.Indexer.Sync.Runs.{sync-IsSynced, sync_returns}

abbrev block_at : ℕ → RpcBlock
block_at n = record {
  hash = n + 101;
  parent_hash = n + 100;
  state_root = 0;
  transactions_root = 0;
  receipts_root = 0;
  logs_bloom = 0;
  number = n;
  timestamp = 12 * n;
  gas_limit = 0;
  gas_used = 0;
  size = 0;
  transactions = [];
  base_fee_per_gas = none;
}

abbrev number_of : ℕ → ℕ
number_of hash = hash - 101

abbrev head : ℕ
head = 2

abbrev client : Client
client = record {
  by_number = λ n full. ok (some (block_at n));
  by_tag = λ tag full. ok (some (block_at head));
  by_hash = λ hash full. ok (some (block_at (number_of hash)));
  block_receipts = λ hash. ok none;
  transaction_receipt = λ hash. ok none;
  logs = λ filter hash. ok [];
  call = λ request hash. ok 0;
}

abbrev index : IndexDefinition
index = record {
  id = 105 ∷ [];
  version = 1;
  start_block = 0;
  finality = latest_mode;
  source = record { transactions = false; receipts = false; logs = none; calls = [] };
  encode = λ value. ok value;
  transform = λ bundle. ok (record { key = 107 ∷ []; value = bundle.block.number } ∷ []);
}

abbrev bundle_at : ℕ → IndexBlockBundle
bundle_at n = record { block = block_at n; transactions = []; receipts = []; logs = []; calls = [] }

abbrev row_at : ℕ → IndexRow
row_at n = record {
  key = 107 ∷ [];
  value = n;
  block_number = n;
  block_hash = n + 101;
  block_timestamp = 12 * n;
}

abbrev answer : ℕ → Transformed
answer n = record { bundle = bundle_at n; rows = row_at n ∷ [] }

abbrev same_hash : ℕ → ℕ
same_hash a = a

bundle_is_read : (n : ℕ) → fetch_bundle same_hash client index n ≡ ok (bundle_at n)
unfolding fetch_bundle fetch_block with_block with_receipts are_transactions_of are_receipts_of
    fetch_logs flat_logs fetch_calls
bundle_is_read n = refl

fetch_bundle_lem_example :
    (block : RpcBlock) × (client.by_number 5 false ≡ ok (some block))
    × IsConsistent index block (bundle_at 5)
fetch_bundle_lem_example =
    fetch_bundle_lem same_hash client index 5 (bundle_at 5) (bundle_is_read 5)

block_is_transformed : (n : ℕ) → transform_block same_hash 1 client index n ≡ ok (answer n)
unfolding transform_block encode_rows fetch_bundle fetch_block with_block with_receipts
    full_transactions are_transactions_of are_receipts_of fetch_logs flat_logs fetch_calls
block_is_transformed n = refl

transform_block_lem_example : IsTransformed client index 5 (answer 5)
transform_block_lem_example =
    transform_block_lem same_hash 1 client index 5 (answer 5) (block_is_transformed 5)

client-IsProvider : IsProvider number_of client
client-IsProvider n full block h =
    let same : block_at n ≡ block = cc h in
    (ap (λ b. b.number) (sym same), ap (λ b. number_of b.hash) (sym same) ∙ omega arith)

make_iff_example :
    (make index none (some 8)
      ≡ ok (record { index = index; reorg_depth = 128; bootstrap_concurrency = 8 }))
    ↔ IsValid index 128 8
make_iff_example = make_iff index none (some 8)

sync-IsSynced_example :
    (bs : List IndexedBlock) × IsSynced number_of index 1
      (sync index 128 same_hash 1 (λ time. client) 3 2 none no_tables).tables
      bs
sync-IsSynced_example =
    sync-IsSynced number_of index 128 same_hash 1 (λ time. client) 3 2 none no_tables []
      (λ time. client-IsProvider) (no_tables-IsSynced number_of index 1)

abbrev reached : IndexCheckpoint
reached = record {
  block = block_data (block_at 2);
  index_id = 105 ∷ [];
  version = 1;
  chain_id = 1;
  start_block = 0;
  finalized = some (record { number = 2; hash = 103 });
}

reaches :
    (sync index 128 same_hash 1 (λ time. client) 4 2 none no_tables).outcome
    ≡ some (ok (some reached))
unfolding sync target_block fetch_block transform_block encode_rows fetch_bundle with_block
    with_receipts full_transactions are_transactions_of are_receipts_of fetch_logs flat_logs
    fetch_calls finalized_anchor load commit put_rows put_row recent rollback drop_blocks recover
    recover_from next_number
reaches = refl

sync_returns_example :
    (target : RpcBlock) × (requested_block index client none ≡ ok target)
    × (load index.id (sync index 128 same_hash 1 (λ time. client) 4 2 none no_tables).tables
        ≡ some reached)
    × (target.number < next_number index 128 (some reached))
sync_returns_example =
    sync_returns number_of index 128 same_hash 1 (λ time. client) 4 2 none no_tables []
      (some reached) (λ time. client-IsProvider) (no_tables-IsSynced number_of index 1) reaches

-- The tables after blocks from 0 on, in which the newest is replaced by another of hash 3000.
abbrev stored_row : ℕ → (List ℕ × ℕ) × StoredRow
stored_row n =
    ((107 ∷ [], n + 101), record { block_number = n; block_timestamp = 12 * n; value = n })

abbrev entry : ℕ → ℕ × IndexedBlock
entry n = (n + 101, block_data (block_at n))

abbrev at_two : Tables
at_two = record {
  rows = ((105 ∷ [], 1), stored_row 0 ∷ stored_row 1 ∷ stored_row 2 ∷ []) ∷ [];
  blocks = ((105 ∷ [], 1), entry 0 ∷ entry 1 ∷ entry 2 ∷ []) ∷ [];
  checkpoints = (105 ∷ [], record reached { finalized = none }) ∷ [];
}

abbrev at_one : Tables
at_one = record {
  rows = ((105 ∷ [], 1), stored_row 0 ∷ stored_row 1 ∷ []) ∷ [];
  blocks = ((105 ∷ [], 1), entry 0 ∷ entry 1 ∷ []) ∷ [];
  checkpoints =
      (105 ∷ [], record reached { block = block_data (block_at 1); finalized = none }) ∷ [];
}

abbrev three_blocks : List IndexedBlock
three_blocks = block_data (block_at 2) ∷ block_data (block_at 1) ∷ block_data (block_at 0) ∷ []

at_two-IsSynced : IsSynced number_of index 1 at_two three_blocks
unfolding load
at_two-IsSynced = record {
  holds = record {
    chain = (refl, (refl, refl), (refl, (refl, refl), (refl, refl, tt)));
    blocks = refl;
    rows = refl;
  };
  tip = refl;
  own = refl;
}

abbrev forked : Client
forked = record client {
  by_number = λ n full.
      if n == 2 then ok (some (record (block_at 2) { hash = 3000 })) else ok (some (block_at n));
}

steps_back :
    recover index 128 forked (load index.id at_two) false at_two
    ≡ ok (some (record reached { block = block_data (block_at 1); finalized = none }), at_one)
unfolding recover recover_from load recent rollback drop_blocks fetch_block
steps_back = refl

recover_lem_example :
    IsRecovered number_of index 1 forked three_blocks
      (some (record reached { block = block_data (block_at 1); finalized = none }))
      at_one
recover_lem_example =
    recover_lem number_of index 128 1 forked false three_blocks at_two
      (some (record reached { block = block_data (block_at 1); finalized = none })) at_one
      at_two-IsSynced steps_back
