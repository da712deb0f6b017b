-- ===== src/Indexer/Storage.antt =====
-- src/indexer/storage.ts and the stores of src/indexer/d1.ts, libsql.ts and pglite.ts, whose statements
-- are the same: three tables, of which those of rows and blocks are grouped here by index and
-- version, which begin their primary keys. A batch of statements is a transaction.
pub mod Chain
pub mod Holds
pub mod Prefix
pub mod Json
use ether_state.Prelude.{
  ℕ, Bool, true, false, not, Option, none, some, List, [], ◌∷◌, map, ltb, ◌==◌, keep, sort_by, take,
}
use ether_state.Prelude.JsMap
use ether_state.Prelude.JsMap.{nat_eq}
use ether_state.Prelude.Texts.{text_eq, pair_eq}
use ether_state.ModelStore.{IndexedBlock, or_empty}
use ether_state.Indexer.{IndexRow, IndexCheckpoint, IndexCommit, IndexRollback}

abbrev pub IndexKey : Type 0
IndexKey = List ℕ × ℕ

pub record StoredRow : Type 0 where
  pub block_number : ℕ
  pub block_timestamp : ℕ
  pub value : ℕ

-- A row is keyed by its key and its block's hash, a block by its hash, a checkpoint by its index.
pub record Tables : Type 0 where
  pub rows : List (IndexKey × List ((List ℕ × ℕ) × StoredRow))
  pub blocks : List (IndexKey × List (ℕ × IndexedBlock))
  pub checkpoints : List (List ℕ × IndexCheckpoint)

abbrev pub no_tables : Tables
no_tables = record { rows = []; blocks = []; checkpoints = [] }

abbrev pub rows_of : IndexKey → Tables → List ((List ℕ × ℕ) × StoredRow)
rows_of key t = or_empty (JsMap.get key t.rows)

abbrev pub blocks_of : IndexKey → Tables → List (ℕ × IndexedBlock)
blocks_of key t = or_empty (JsMap.get key t.blocks)

-- `INSERT … ON CONFLICT … DO UPDATE SET value_json = excluded.value_json`
unfoldable pub put_row :
    IndexRow → List ((List ℕ × ℕ) × StoredRow) → List ((List ℕ × ℕ) × StoredRow)
put_row row rows =
    let key : List ℕ × ℕ = (row.key, row.block_hash) in
    let fresh : StoredRow = record {
      block_number = row.block_number;
      block_timestamp = row.block_timestamp;
      value = row.value;
    } in
    elim (JsMap.get key rows) [
      | none ↦ JsMap.set key fresh rows
      | some old ↦ JsMap.set key (record old { value = row.value }) rows
    ]

unfoldable pub put_rows :
    List IndexRow → List ((List ℕ × ℕ) × StoredRow) → List ((List ℕ × ℕ) × StoredRow)
unfolding put_row
put_rows [] rows = rows
put_rows (row ∷ rest) rows = put_rows rest (put_row row rows)

abbrev pub key_of : IndexCheckpoint → IndexKey
key_of c = (c.index_id, c.version)

unfoldable pub commit : IndexCommit → Tables → Tables
unfolding put_rows
commit c t =
    let key = key_of c.checkpoint in
    let block = c.checkpoint.block in
    record {
      rows = JsMap.set key (put_rows c.rows (rows_of key t)) t.rows;
      blocks = JsMap.set key (JsMap.set block.hash block (blocks_of key t)) t.blocks;
      checkpoints = JsMap.set c.checkpoint.index_id c.checkpoint t.checkpoints;
    }

-- `DELETE FROM … WHERE … block_hash = ?` in both tables.
abbrev pub drop_block : IndexKey → IndexedBlock → Tables → Tables
drop_block key block t = record t {
  rows = JsMap.set key (keep (λ entry. not (entry.0.1 == block.hash)) (rows_of key t)) t.rows;
  blocks = JsMap.set key (JsMap.delete block.hash (blocks_of key t)) t.blocks;
}

unfoldable pub drop_blocks : IndexKey → List IndexedBlock → Tables → Tables
drop_blocks key [] t = t
drop_blocks key (block ∷ orphaned) t = drop_blocks key orphaned (drop_block key block t)

abbrev pub put_checkpoint : List ℕ → Option IndexCheckpoint → Tables → Tables
put_checkpoint id none t = record t { checkpoints = JsMap.delete id t.checkpoints }
put_checkpoint id (some c) t = record t { checkpoints = JsMap.set c.index_id c t.checkpoints }

unfoldable pub rollback : IndexRollback → Tables → Tables
unfolding drop_blocks
rollback r t =
    put_checkpoint r.index_id r.checkpoint (drop_blocks (r.index_id, r.version) r.orphaned t)

unfoldable pub load : List ℕ → Tables → Option IndexCheckpoint
load id t = JsMap.get id t.checkpoints

abbrev pub is_higher : IndexedBlock → IndexedBlock → Bool
is_higher a b = ltb b.number a.number

-- `ORDER BY … block_number … DESC LIMIT ?`
unfoldable pub recent : List ℕ → ℕ → ℕ → Tables → List IndexedBlock
recent id version limit t =
    take limit (sort_by is_higher (map (λ entry. entry.1) (blocks_of (id, version) t)))
