-- ===== src/Indexer/Sync/Steps.antt =====
-- The steps of `sync` keep the tables synced.
use ether_state.Prelude.{
  ℕ, zero, suc, ◌+◌, ◌≡◌, refl, sym, ap, subst, ◌∙◌, true, false, Option, none, some, List, [], ◌∷◌,
  ◌==◌, ==_iff, ==-refl, all, arith, Bool-cases, inl, inr,
}
use ether_state.Prelude.Texts.{text_eq}
use ether_state.Prelude.Results.{ok, Result-cases}
use ether_state.ModelStore.{IndexedBlock}
use ether_state.Indexer.{IndexDefinition, IndexCheckpoint, IndexRow, block_data}
use ether_state.Indexer.Bundle.{Client}
use ether_state.Indexer.Transform.{finalized_anchor, Transformed, transform_block}
use ether_state.Indexer.Transform.Stamped.{
  IsStamped, IsProvider, IsTransformed-IsStamped, transform_block_lem,
}
use ether_state.Indexer.Storage.{Tables, load}
use ether_state.Indexer.Storage.Chain.{is_stored, Extends, IsChain}
use ether_state.Indexer.Storage.Holds.{commit-Holds, load-commit}
use ether_state.Indexer.Sync.{
  Progress, WindowEnd, all_committed, must_restart, window_failed, parent_differs, next_finalized,
  is_foreign, next_number, commit_block, commit_blocks, transform_blocks, recover,
}
use ether_state.Indexer.Sync.Canonical.{result_eq, some_eq}
use ether_state.Indexer.Sync.Synced.{block_of, newest, IsSynced, IsRecovered}
use ether_state.Indexer.Sync.Recover.{recover_lem}

all-is_stored_new :
    (b : IndexedBlock) (bs : List IndexedBlock) (rows : List IndexRow)
    → all (λ row. row.block_hash == b.hash) rows ≡ true
    → all (λ row. is_stored (b ∷ bs) row.block_hash) rows ≡ true
all-is_stored_new b bs [] h = refl
all-is_stored_new b bs (row ∷ rows) h = ground (
  arith,
  h,
  all-is_stored_new b bs rows,
  ==_iff row.block_hash b.hash,
  ==_iff b.hash row.block_hash,
)

module _ (number_of : ℕ → ℕ) (index : IndexDefinition) (depth : ℕ) (to_lower_case : ℕ → ℕ)
    (chain_id : ℕ) where
  -- Between the blocks, the checkpoint in hand is the stored one, and the next number follows it.
  pub record IsAt (p : Progress) (bs : List IndexedBlock) : Type 0 where
    pub synced : IsSynced number_of index chain_id p.tables bs
    pub loaded : load index.id p.tables ≡ p.checkpoint
    pub number : p.number ≡ next_number index depth p.checkpoint

  -- The blocks of a window, from a number on.
  abbrev pub AllStamped : ℕ → List Transformed → Type 0
  AllStamped number [] = Unit {0}
  AllStamped number (t ∷ ts) = IsStamped number_of number t × AllStamped (number + 1) ts

  -- The tables are synced however a window ends.
  abbrev pub EndsSynced : WindowEnd → Type 0
  EndsSynced (all_committed p) = (bs : List IndexedBlock) × IsAt p bs
  EndsSynced (must_restart p) = (bs : List IndexedBlock) × IsAt p bs
  EndsSynced (window_failed error t) =
      (bs : List IndexedBlock) × IsSynced number_of index chain_id t bs

  pub transform_blocks-AllStamped :
      (client : ℕ → Client) (c : Client) (number blocks : ℕ) (ts : List Transformed)
      → IsProvider number_of c
      → transform_blocks index depth to_lower_case chain_id client c number blocks ≡ ok ts
      → AllStamped number ts
  unfolding transform_blocks
  transform_blocks-AllStamped client c number zero ts provider h =
      subst (AllStamped number) (result_eq h) tt
  transform_blocks-AllStamped client c number (suc blocks) ts provider h =
      elim (Result-cases (transform_block to_lower_case chain_id c index number)) [
        | inl (e, failed) ↦ absurd (cc (rw (failed, transform_blocks) at h))
        | inr (t, got) ↦
            elim (Result-cases
              (transform_blocks index depth to_lower_case chain_id client c (number + 1) blocks)) [
                | inl (e, failed) ↦ absurd (cc (rw (got, failed, transform_blocks) at h))
                | inr (rest, more) ↦
                    subst (AllStamped number) (result_eq (rw (got, more, transform_blocks) at h)) (
                      IsTransformed-IsStamped number_of c index number t provider
                          (transform_block_lem to_lower_case chain_id c index number t got),
                      transform_blocks-AllStamped client c (number + 1) blocks rest provider more,
                    )
              ]
      ]

  extends :
      (cp : Option IndexCheckpoint) (t : Transformed) (bs : List IndexedBlock)
      → block_of cp ≡ newest bs
      → parent_differs cp t ≡ false
      → t.bundle.block.number ≡ next_number index depth cp
      → Extends index.start_block (block_data t.bundle.block) bs
  unfolding next_number
  extends none t [] tip same at = at
  extends none t (b ∷ bs) tip same at = absurd (cc tip)
  extends (some c) t [] tip same at = absurd (cc tip)
  extends (some c) t (b ∷ bs) tip same at =
      let here : c.block ≡ b = some_eq tip in
      (
        at ∙ ap (λ x. x.number + 1) here,
        (==_iff t.bundle.block.parent_hash c.block.hash).0 (ground (arith, same))
            ∙ ap (λ x. x.hash) here,
      )

  commit_block-IsAt :
      (client : ℕ → Client) (p : Progress) (t : Transformed) (bs : List IndexedBlock)
      → IsAt p bs
      → IsStamped number_of p.number t
      → parent_differs p.checkpoint t ≡ false
      → IsAt
          (commit_block index depth to_lower_case chain_id client p t)
          (block_data t.bundle.block ∷ bs)
  unfolding commit_block next_number
  commit_block-IsAt client p t bs a stamp same =
      let b : IndexedBlock = block_data t.bundle.block in
      let next : IndexCheckpoint = record {
        block = b;
        index_id = index.id;
        version = index.version;
        chain_id = chain_id;
        start_block = index.start_block;
        finalized = next_finalized (finalized_anchor (client p.time)) b.number p.checkpoint;
      } in
      let now = load-commit number_of index next t.rows p.tables in
      let links =
        extends p.checkpoint t bs (sym (ap block_of a.loaded) ∙ a.synced.tip) same
          (stamp.at ∙ a.number) in
      let chain : IsChain number_of index.start_block (b ∷ bs) =
        (stamp.hash ∙ sym stamp.at, links, a.synced.holds.chain) in
      record {
        synced = record {
          holds =
              commit-Holds number_of index next t.rows p.tables bs chain
                (all-is_stored_new b bs t.rows stamp.rows) a.synced.holds;
          tip = ap block_of now;
          own =
              ap (is_foreign index chain_id) now
              ∙ ground (
                arith,
                ==-refl chain_id,
                ==-refl index.start_block,
                ==-refl index.version,
                (text_eq.beq_iff index.id index.id).1 refl,
              );
        };
        loaded = now;
        number = ap (λ n. n + 1) (sym stamp.at);
      }

  recover-IsRecovered :
      (client : Client) (p : Progress) (bs : List IndexedBlock) (cp : Option IndexCheckpoint)
      (t : Tables)
      → IsAt p bs
      → recover index depth client p.checkpoint true p.tables ≡ ok (cp, t)
      → IsRecovered number_of index chain_id client bs cp t
  recover-IsRecovered client p bs cp t a h =
      recover_lem number_of index depth chain_id client true bs p.tables cp t a.synced
        (ap (λ x. recover index depth client x true p.tables) a.loaded ∙ h)

  pub commit_blocks-EndsSynced :
      (client : ℕ → Client) (p : Progress) (ts : List Transformed) (bs : List IndexedBlock)
      → IsAt p bs
      → AllStamped p.number ts
      → EndsSynced (commit_blocks index depth to_lower_case chain_id client p ts)
  unfolding commit_blocks
  commit_blocks-EndsSynced client p [] bs a stamps = (bs, a)
  commit_blocks-EndsSynced client p (t ∷ ts) bs a stamps =
      elim (Bool-cases (parent_differs p.checkpoint t)) [
        | inr same ↦
            rw (same, commit_blocks)
              (commit_blocks-EndsSynced client
                (commit_block index depth to_lower_case chain_id client p t) ts
                (block_data t.bundle.block ∷ bs) (commit_block-IsAt client p t bs a stamps.0 same)
                stamps.1)
        | inl differs ↦
            elim (Result-cases (recover index depth (client p.time) p.checkpoint true p.tables)) [
              | inl (e, failed) ↦ rw (differs, failed, commit_blocks) (bs, a.synced)
              | inr (result, back) ↦
                  let r = recover-IsRecovered (client p.time) p bs result.0 result.1 a back in
                  rw (differs, back, commit_blocks)
                    (r.left, record { synced = r.synced; loaded = r.loaded; number = refl })
            ]
      ]
