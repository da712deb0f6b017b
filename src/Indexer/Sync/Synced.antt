-- ===== src/Indexer/Sync/Synced.antt =====
-- The invariant of an index's tables, and what a recovery makes of them.
use ether_state.Prelude.{ℕ, ◌≡◌, refl, ap, Option, none, some, List, [], ◌∷◌, ◌++◌}
use ether_state.Prelude.Texts.{text_eq}
use ether_state.ModelStore.{IndexedBlock}
use ether_state.Indexer.{IndexDefinition, IndexCheckpoint}
use ether_state.Indexer.Bundle.{Client}
use ether_state.Indexer.Storage.{Tables, no_tables, load}
use ether_state.Indexer.Storage.Holds.{Holds, load-no_tables}
use ether_state.Indexer.Sync.Canonical.{HasNewest, HasNone}
use ether_state.Indexer.Sync.{is_foreign}

abbrev pub block_of : Option IndexCheckpoint → Option IndexedBlock
block_of none = none
block_of (some c) = some c.block

abbrev pub newest : List IndexedBlock → Option IndexedBlock
newest [] = none
newest (b ∷ bs) = some b

-- The tables hold a chain, and the checkpoint is that of its newest block.
pub record IsSynced (number_of : ℕ → ℕ) (index : IndexDefinition) (chain_id : ℕ) (t : Tables)
    (bs : List IndexedBlock) : Type 0 where
  pub holds : Holds number_of index t bs
  pub tip : block_of (load index.id t) ≡ newest bs
  pub own : is_foreign index chain_id (load index.id t) ≡ none

pub no_tables-IsSynced :
    (number_of : ℕ → ℕ) (index : IndexDefinition) (chain_id : ℕ)
    → IsSynced number_of index chain_id no_tables []
no_tables-IsSynced number_of index chain_id = record {
  holds = record { chain = tt; blocks = refl; rows = refl };
  tip = ap block_of (load-no_tables index.id);
  own = ap (is_foreign index chain_id) (load-no_tables index.id);
}

-- What a recovery makes of the tables: the newest blocks that the provider does not have are gone.
pub record IsRecovered (number_of : ℕ → ℕ) (index : IndexDefinition) (chain_id : ℕ)
    (client : Client) (before : List IndexedBlock) (checkpoint : Option IndexCheckpoint)
    (t : Tables) : Type 0 where
  pub orphaned : List IndexedBlock
  pub left : List IndexedBlock
  pub whole : before ≡ orphaned ++ left
  pub gone : HasNone client orphaned
  pub canonical : HasNewest client left
  pub loaded : load index.id t ≡ checkpoint
  pub synced : IsSynced number_of index chain_id t left
