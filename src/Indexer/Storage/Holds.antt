-- ===== src/Indexer/Storage/Holds.antt =====
-- What the tables hold of an index, and what a commit and a rollback make of it.
use ether_state.Prelude.{
  ℕ, ◌≡◌, refl, ap, subst, ◌∙◌, Bool, true, not, Option, none, some, List, [], ◌∷◌, ◌++◌, map, ◌==◌,
  all, keep, take, sort_by, arith, Option-cases, inl, inr,
}
use ether_state.Prelude.JsMap
use ether_state.Prelude.JsMap.{Eq, nat_eq}
use ether_state.Prelude.Texts.{text_eq, pair_eq}
use ether_state.ModelStore.{IndexedBlock, or_empty}
use ether_state.Indexer.{IndexDefinition, IndexCheckpoint, IndexRow}
use ether_state.Indexer.Storage.{
  IndexKey, Tables, no_tables, StoredRow, rows_of, blocks_of, put_row, put_rows, commit, drop_block,
  drop_blocks, put_checkpoint, rollback, load, recent, is_higher,
}
use ether_state.Indexer.Storage.Chain.{
  stored, is_stored, IsChain, set-stored, delete-stored, all-set, keep-is_stored, all-is_stored,
  sort_by-stored,
}

abbrev pub block_of : Option IndexCheckpoint → Option IndexedBlock
block_of none = none
block_of (some c) = some c.block

abbrev pub newest : List IndexedBlock → Option IndexedBlock
newest [] = none
newest (b ∷ bs) = some b

-- The rows and blocks of an index, for blocks from the newest to the oldest.
pub record Holds (number_of : ℕ → ℕ) (index : IndexDefinition) (t : Tables) (bs : List IndexedBlock)
    : Type 0 where
  pub chain : IsChain number_of index.start_block bs
  pub blocks : blocks_of (index.id, index.version) t ≡ stored bs
  pub rows : all (λ row. is_stored bs row.0.1) (rows_of (index.id, index.version) t) ≡ true

module _ {K A : Type 0} ⦃e : Eq K⦄ where
  of-set :
      (k : K) (xs : List A) (m : List (K × List A)) → or_empty (JsMap.get k (JsMap.set k xs m)) ≡ xs
  of-set k xs m = ground (arith, JsMap.get-set k k xs m, e.beq_iff k k)

  found-set : (k : K) (a : A) (m : List (K × A)) → JsMap.get k (JsMap.set k a m) ≡ some a
  found-set k a m = ground (arith, JsMap.get-set k k a m, e.beq_iff k k)

  gone-delete : (k : K) (m : List (K × A)) → JsMap.get k (JsMap.delete k m) ≡ none
  gone-delete k m = ground (arith, JsMap.get-delete k k m, e.beq_iff k k)

put_row-all :
    (test : ℕ → Bool) (row : IndexRow) (rows : List ((List ℕ × ℕ) × StoredRow))
    → test row.block_hash ≡ true
    → all (λ entry. test entry.0.1) rows ≡ true
    → all (λ entry. test entry.0.1) (put_row row rows) ≡ true
unfolding put_row
put_row-all test row rows h a =
    let key : List ℕ × ℕ = (row.key, row.block_hash) in
    let fresh : StoredRow = record {
      block_number = row.block_number;
      block_timestamp = row.block_timestamp;
      value = row.value;
    } in
    elim (Option-cases (JsMap.get key rows)) [
      | inl new ↦ rw (new, put_row) (all-set (λ k. test k.1) key fresh rows h a)
      | inr (old, there) ↦
          rw (there, put_row)
            (all-set (λ k. test k.1) key (record old { value = row.value }) rows h a)
    ]

put_rows-all :
    (test : ℕ → Bool) (new : List IndexRow) (rows : List ((List ℕ × ℕ) × StoredRow))
    → all (λ row. test row.block_hash) new ≡ true
    → all (λ entry. test entry.0.1) rows ≡ true
    → all (λ entry. test entry.0.1) (put_rows new rows) ≡ true
unfolding put_rows
put_rows-all test [] rows h a = a
put_rows-all test (row ∷ new) rows h a =
    put_rows-all test new (put_row row rows) (ground (arith, h))
      (put_row-all test row rows (ground (arith, h)) a)

module _ (number_of : ℕ → ℕ) (index : IndexDefinition) where
  drop_blocks-Holds :
      (passed rest : List IndexedBlock) (t : Tables)
      → Holds number_of index t (passed ++ rest)
      → Holds number_of index (drop_blocks (index.id, index.version) passed t) rest
  unfolding drop_blocks
  drop_blocks-Holds [] rest t h = h
  drop_blocks-Holds (b ∷ passed) rest t h =
      let key : IndexKey = (index.id, index.version) in
      let left = keep (λ row. not (row.0.1 == b.hash)) (rows_of key t) in
      drop_blocks-Holds passed rest (drop_block key b t) (record {
        chain = h.chain.2;
        blocks =
            of-set key (JsMap.delete b.hash (blocks_of key t)) t.blocks
            ∙ ap (JsMap.delete b.hash) h.blocks
            ∙ delete-stored number_of index.start_block b (passed ++ rest) h.chain;
        rows =
            ap (all (λ row. is_stored (passed ++ rest) row.0.1)) (of-set key left t.rows)
            ∙ keep-is_stored number_of index.start_block b (passed ++ rest) (rows_of key t) h.rows;
      })

  abbrev pub own : IndexCheckpoint → IndexCheckpoint
  own c = record c { index_id = index.id; version = index.version }

  pub commit-Holds :
      (c : IndexCheckpoint) (new : List IndexRow) (t : Tables) (bs : List IndexedBlock)
      → IsChain number_of index.start_block (c.block ∷ bs)
      → all (λ row. is_stored (c.block ∷ bs) row.block_hash) new ≡ true
      → Holds number_of index t bs
      → Holds number_of index (commit (record { checkpoint = own c; rows = new }) t) (c.block ∷ bs)
  unfolding commit
  commit-Holds c new t bs chain stamped h =
      let key : IndexKey = (index.id, index.version) in
      let rows' = put_rows new (rows_of key t) in
      record {
        chain = chain;
        blocks =
            of-set key (JsMap.set c.block.hash c.block (blocks_of key t)) t.blocks
            ∙ ap (JsMap.set c.block.hash c.block) h.blocks
            ∙ set-stored number_of index.start_block c.block bs chain;
        rows =
            ap (all (λ row. is_stored (c.block ∷ bs) row.0.1)) (of-set key rows' t.rows)
            ∙ put_rows-all (is_stored (c.block ∷ bs)) new (rows_of key t) stamped
                (all-is_stored number_of index.start_block c.block bs (rows_of key t) h.rows);
      }

  pub load-commit :
      (c : IndexCheckpoint) (new : List IndexRow) (t : Tables)
      → load index.id (commit (record { checkpoint = own c; rows = new }) t) ≡ some (own c)
  unfolding commit load
  load-commit c new t = found-set index.id (own c) t.checkpoints

  pub rollback-Holds :
      (passed rest : List IndexedBlock) (next : Option IndexCheckpoint) (t : Tables)
      → Holds number_of index t (passed ++ rest)
      → Holds number_of index
          (rollback
            (record {
              index_id = index.id;
              version = index.version;
              orphaned = passed;
              checkpoint = next;
            })
            t)
          rest
  unfolding rollback
  rollback-Holds passed rest none t h =
      let d = drop_blocks-Holds passed rest t h in
      record { chain = d.chain; blocks = d.blocks; rows = d.rows }
  rollback-Holds passed rest (some c) t h =
      let d = drop_blocks-Holds passed rest t h in
      record { chain = d.chain; blocks = d.blocks; rows = d.rows }

  pub load-rollback-none :
      (passed : List IndexedBlock) (t : Tables)
      → load index.id (
          rollback
            (record {
              index_id = index.id;
              version = index.version;
              orphaned = passed;
              checkpoint = none;
            })
            t)
        ≡ none
  unfolding rollback load
  load-rollback-none passed t =
      gone-delete index.id (drop_blocks (index.id, index.version) passed t).checkpoints

  pub load-rollback-some :
      (passed : List IndexedBlock) (c : IndexCheckpoint) (t : Tables)
      → c.index_id ≡ index.id
      → load index.id (
          rollback
            (record {
              index_id = index.id;
              version = index.version;
              orphaned = passed;
              checkpoint = some c;
            })
            t)
        ≡ some c
  unfolding rollback load
  load-rollback-some passed c t same =
      subst
        (λ id.
          JsMap.get id
            (put_checkpoint index.id (some c)
              (drop_blocks (index.id, index.version) passed t)).checkpoints
          ≡ some c)
        same (found-set c.index_id c (drop_blocks (index.id, index.version) passed t).checkpoints)

  -- The newest blocks first.
  pub recent-Holds :
      (depth : ℕ) (t : Tables) (bs : List IndexedBlock)
      → Holds number_of index t bs
      → recent index.id index.version depth t ≡ take depth bs
  unfolding recent
  recent-Holds depth t bs h =
      ap (λ entries. take depth (sort_by is_higher (map (λ entry. entry.1) entries))) h.blocks
      ∙ ap (take depth) (sort_by-stored number_of index.start_block bs h.chain)

pub load-no_tables : (id : List ℕ) → load id no_tables ≡ none
unfolding load
load-no_tables id = refl
