-- ===== src/Indexer/Sync/Steady.antt =====
-- `sync` comes to its end with a provider whose chain stays as it is.
use ether_state.Prelude.{ℕ, zero, suc, ◌+◌, ◌<◌, ◌≤◌, ◌≡◌, false, List, [], ◌∷◌}
use ether_state.Prelude.Results.{ok}
use ether_state.Indexer.{IndexDefinition, at_number}
use ether_state.Indexer.Bundle.{Client, fetch_block}
use ether_state.Indexer.Transform.{Transformed, transform_block}
use ether_state.Indexer.Sync.{Progress, WindowEnd, all_committed, parent_differs, window_size}

-- The blocks up to a number, which the provider gives at all times.
pub record IsSteady (index : IndexDefinition) (to_lower_case : ℕ → ℕ) (chain_id : ℕ)
    (client : ℕ → Client) (target : ℕ) (answer : ℕ → Transformed) : Type 0 where
  pub given :
      (time number : ℕ)
      → number ≤ target
      → transform_block to_lower_case chain_id (client time) index number ≡ ok (answer number)
  pub fetched :
      (time number : ℕ)
      → number ≤ target
      → fetch_block (client time) (at_number number) false ≡ ok (answer number).bundle.block
  pub linked :
      (number : ℕ)
      → number < target
      → (answer (number + 1)).bundle.block.parent_hash ≡ (answer number).bundle.block.hash

module _ (index : IndexDefinition) (depth : ℕ) (to_lower_case : ℕ → ℕ) (chain_id : ℕ)
    (client : ℕ → Client) (target : ℕ) (answer : ℕ → Transformed) where
  answers : ℕ → ℕ → List Transformed
  answers number zero = []
  answers number (suc blocks) = answer number ∷ answers (number + 1) blocks

  -- The next block of the chain extends the checkpoint.
  abbrev OnChain : Progress → Type 0
  OnChain p = p.number ≤ target → parent_differs p.checkpoint (answer p.number) ≡ false

  -- A window of which all is committed.
  record IsCommitted (p : Progress) (blocks : ℕ) (w : WindowEnd) : Type 0 where
    after : Progress
    ends : w ≡ all_committed after
    number : after.number ≡ p.number + blocks
    on_chain : OnChain after

  size : ℕ → ℕ → ℕ
  size concurrency number =
      window_size index depth to_lower_case chain_id client concurrency number target
