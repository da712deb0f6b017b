-- ===== src/Model.antt =====
-- src/indexer/model.ts: what a model keeps of its history (Retention). The coverage that it works on
-- is that of Coverage.
pub mod Retention
use ether_state.Prelude.{ℕ, Option, none, some, ◌==◌, if◌then◌else◌}
use ether_state.Prelude.Results.{Result, ok, err, ◌>>=◌}
use ether_state.ModelStore.{IndexedBlock}

pub data ModelFailure : Type 0 where
  request_failed : ℕ → ModelFailure
  block_missing : ModelFailure

-- What the client answers to eth_getBlockByNumber.
abbrev pub Blocks : Type 0
Blocks = ℕ → Result ModelFailure (Option IndexedBlock)

abbrev pub expect_number : ℕ → Option IndexedBlock → Result ModelFailure IndexedBlock
expect_number number none = err block_missing
expect_number number (some block) = if block.number == number then ok block else err block_missing

unfoldable pub block_at : Blocks → ℕ → Result ModelFailure IndexedBlock
block_at blocks number = blocks number >>= expect_number number
