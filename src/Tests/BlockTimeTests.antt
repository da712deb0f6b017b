-- ===== src/Tests/BlockTimeTests.antt =====
-- Blocks 12 seconds apart, and blocks that are not linked.
use ether_state.Prelude.{ℕ, ◌+◌, ◌*◌, ◌≡◌, refl, none, some, []}
use ether_state.Prelude.Results.{ok, err}
use ether_state.Rpc.{RpcBlock}
use ether_state.Live.BlockTime.{estimate_block_time, inconsistent_sample, too_few_blocks}

abbrev block_at : ℕ → ℕ → RpcBlock
block_at parent n = record {
  hash = n + 100;
  parent_hash = n + parent;
  state_root = 0;
  transactions_root = 0;
  receipts_root = 0;
  logs_bloom = 0;
  number = n;
  timestamp = 12 * n;
  gas_limit = 0;
  gas_used = 0;
  size = 0;
  transactions = [];
  base_fee_per_gas = none;
}

twelve_seconds : estimate_block_time (block_at 99 40) (λ n. ok (some (block_at 99 n))) ≡ ok 12000
unfolding estimate_block_time
twelve_seconds = refl

not_linked :
    estimate_block_time (block_at 99 40) (λ n. ok (some (block_at 98 n))) ≡ err inconsistent_sample
unfolding estimate_block_time
not_linked = refl

too_early :
    estimate_block_time (block_at 99 30) (λ n. ok (some (block_at 99 n))) ≡ err too_few_blocks
unfolding estimate_block_time
too_early = refl
