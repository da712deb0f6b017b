-- ===== src/Indexer/Sync/Runs.antt =====
-- What `sync` promises of the tables and of the checkpoint that it returns.
use ether_state.Prelude.{
  ℕ, zero, suc, ◌+◌, ◌<◌, ◌≡◌, refl, ap, subst, ◌∙◌, false, ◌⊎◌, inl, inr, Option, some, List, leb,
  arith, Bool-cases,
}
use ether_state.Prelude.Results.{ok, Result-cases}
use ether_state.Rpc.{RpcBlock}
use ether_state.ModelStore.{IndexedBlock}
use ether_state.Indexer.{IndexDefinition, IndexCheckpoint, IndexerError}
use ether_state.Indexer.Bundle.{Client}
use ether_state.Indexer.Transform.Stamped.{IsProvider}
use ether_state.Indexer.Storage.{Tables, load}
use ether_state.Indexer.Sync.{
  Progress, WindowEnd, all_committed, must_restart, window_failed, SyncRun, fails_in,
  requested_block, next_number, recover, commit_blocks, transform_blocks, window_size, sync_loop,
  sync,
}
use ether_state.Indexer.Sync.Canonical.{result_eq, some_eq}
use ether_state.Indexer.Sync.Synced.{IsSynced}
use ether_state.Indexer.Sync.Recover.{recover_lem}
use ether_state.Indexer.Sync.Steps.{
  IsAt, EndsSynced, transform_blocks-AllStamped, commit_blocks-EndsSynced,
}

WindowEnd-cases :
    (w : WindowEnd)
    → ((p : Progress) × (w ≡ all_committed p))
      ⊎ ((p : Progress) × (w ≡ must_restart p))
      ⊎ ((e : IndexerError) × (t : Tables) × (w ≡ window_failed e t))
WindowEnd-cases (all_committed p) = inl (p, refl)
WindowEnd-cases (must_restart p) = inr (inl (p, refl))
WindowEnd-cases (window_failed e t) = inr (inr (e, t, refl))

module _ (number_of : ℕ → ℕ) (index : IndexDefinition) (depth : ℕ) (to_lower_case : ℕ → ℕ)
    (chain_id : ℕ) where
  -- The tables are synced, and a checkpoint that is returned is the stored one and reaches the target.
  pub record RunsTo (target : ℕ) (run : SyncRun) : Type 0 where
    pub blocks : List IndexedBlock
    pub synced : IsSynced number_of index chain_id run.tables blocks
    pub returned :
        (cp : Option IndexCheckpoint)
        → run.outcome ≡ some (ok cp)
        → (load index.id run.tables ≡ cp) × (target < next_number index depth cp)

  fails_in-RunsTo :
      (target : ℕ) (e : IndexerError) (t : Tables) (bs : List IndexedBlock)
      → IsSynced number_of index chain_id t bs
      → RunsTo target (fails_in t e)
  fails_in-RunsTo target e t bs s = record {
    blocks = bs;
    synced = s;
    returned = λ cp h. absurd (cc h);
  }

  sync_loop-RunsTo :
      (client : ℕ → Client) (fuel concurrency target : ℕ) (p : Progress) (bs : List IndexedBlock)
      → ((time : ℕ) → IsProvider number_of (client time))
      → IsAt number_of index depth to_lower_case chain_id p bs
      → RunsTo target
          (sync_loop index depth to_lower_case chain_id client fuel concurrency target p)
  unfolding sync_loop
  sync_loop-RunsTo client zero concurrency target p bs provider a = record {
    blocks = bs;
    synced = a.synced;
    returned = λ cp h. absurd (cc h);
  }
  sync_loop-RunsTo client (suc fuel) concurrency target p bs provider a =
      let size =
        window_size index depth to_lower_case chain_id client concurrency p.number target in
      let later : Progress = record p { time = p.time + 1 } in
      let a' : IsAt number_of index depth to_lower_case chain_id later bs = record {
        synced = a.synced;
        loaded = a.loaded;
        number = a.number;
      } in
      elim (Bool-cases (leb p.number target)) [
        | inr done ↦
            rw (done, sync_loop)
              (record {
                blocks = bs;
                synced = a.synced;
                returned = λ cp h.
                    let same : p.checkpoint ≡ cp = result_eq (some_eq h) in
                    (
                      a.loaded ∙ same,
                      ground (arith, done, a.number, ap (next_number index depth) same),
                    );
              })
        | inl small ↦
            elim (Result-cases (
              transform_blocks index depth to_lower_case chain_id client (client p.time) p.number
                size)) [
                  | inl (e, failed) ↦
                      rw (small, failed, sync_loop) (fails_in-RunsTo target e p.tables bs a.synced)
                  | inr (ts, got) ↦
                      let stamps =
                        transform_blocks-AllStamped number_of index depth to_lower_case chain_id
                          client (client p.time) p.number size ts (provider p.time) got in
                      let ends =
                        commit_blocks-EndsSynced number_of index depth to_lower_case chain_id client
                          later ts bs a' stamps in
                      elim (WindowEnd-cases
                        (commit_blocks index depth to_lower_case chain_id client later ts)) [
                          | inl (p', committed) ↦
                              let end =
                                subst (EndsSynced number_of index depth to_lower_case chain_id)
                                  committed ends in
                              rw (small, got, committed, sync_loop)
                                (sync_loop-RunsTo client fuel concurrency target p' end.0 provider
                                  end.1)
                          | inr (inl (p', restarts)) ↦
                              let end =
                                subst (EndsSynced number_of index depth to_lower_case chain_id)
                                  restarts ends in
                              rw (small, got, restarts, sync_loop)
                                (sync_loop-RunsTo client fuel concurrency target p' end.0 provider
                                  end.1)
                          | inr (inr (e, t, failed)) ↦
                              let end =
                                subst (EndsSynced number_of index depth to_lower_case chain_id)
                                  failed ends in
                              rw (small, got, failed, sync_loop)
                                (fails_in-RunsTo target e t end.0 end.1)
                        ]
                ]
      ]

  sync_parts :
      (client : ℕ → Client) (fuel concurrency : ℕ) (to_block : Option ℕ) (t : Tables)
      (bs : List IndexedBlock)
      → ((time : ℕ) → IsProvider number_of (client time))
      → IsSynced number_of index chain_id t bs
      → ((bs' : List IndexedBlock) × IsSynced number_of index chain_id
            (sync index depth to_lower_case chain_id client fuel concurrency to_block t).tables
            bs')
        × ((cp : Option IndexCheckpoint)
            → (sync index depth to_lower_case chain_id client fuel concurrency to_block t).outcome
              ≡ some (ok cp)
            → (target : RpcBlock) × (requested_block index (client 0) to_block ≡ ok target)
              × (load index.id
                    (sync index depth to_lower_case chain_id client fuel concurrency to_block
                      t).tables
                  ≡ cp)
              × (target.number < next_number index depth cp))
  unfolding sync
  sync_parts client fuel concurrency to_block t bs provider s =
      elim (Result-cases (recover index depth (client 0) (load index.id t) false t)) [
        | inl (e, failed) ↦ rw (s.own, failed, sync) ((bs, s), λ cp h. absurd (cc h))
        | inr (result, back) ↦
            let r =
              recover_lem number_of index depth chain_id (client 0) false bs t result.0 result.1 s
                back in
            elim (Result-cases (requested_block index (client 0) to_block)) [
              | inl (e, failed) ↦
                  rw (s.own, back, failed, sync) ((r.left, r.synced), λ cp h. absurd (cc h))
              | inr (target, asked) ↦
                  let start : Progress = record {
                    checkpoint = result.0;
                    tables = result.1;
                    number = next_number index depth result.0;
                    time = 1;
                  } in
                  let run =
                    sync_loop-RunsTo client fuel concurrency target.number start r.left provider
                      (record { synced = r.synced; loaded = r.loaded; number = refl }) in
                  rw (s.own, back, asked, sync)
                    (
                      (run.blocks, run.synced),
                      λ cp h. let got = run.returned cp h in (target, refl, got.0, got.1),
                    )
            ]
      ]

  -- However `sync` ends, with an error or not, and whether or not the provider's answers change as
  -- it runs, it leaves tables that were synced so: they hold linked blocks from the one that the
  -- index starts at, their newest is the stored checkpoint's, and each row is of one of these blocks.
  -- The hypothesis is that a provider gives the block of the number it is asked for, and that a hash
  -- is of one number.
  pub sync-IsSynced :
      (client : ℕ → Client) (fuel concurrency : ℕ) (to_block : Option ℕ) (t : Tables)
      (bs : List IndexedBlock)
      → ((time : ℕ) → IsProvider number_of (client time))
      → IsSynced number_of index chain_id t bs
      → (bs' : List IndexedBlock) × IsSynced number_of index chain_id
          (sync index depth to_lower_case chain_id client fuel concurrency to_block t).tables
          bs'
  sync-IsSynced client fuel concurrency to_block t bs provider s =
      (sync_parts client fuel concurrency to_block t bs provider s).0

  -- A checkpoint that `sync` returns, for tables that were synced, is the stored one and reaches the
  -- block that was asked for, which the provider gave. The hypothesis on the provider is that of
  -- `sync-IsSynced`.
  pub sync_returns :
      (client : ℕ → Client) (fuel concurrency : ℕ) (to_block : Option ℕ) (t : Tables)
      (bs : List IndexedBlock) (cp : Option IndexCheckpoint)
      → ((time : ℕ) → IsProvider number_of (client time))
      → IsSynced number_of index chain_id t bs
      → (sync index depth to_lower_case chain_id client fuel concurrency to_block t).outcome
        ≡ some (ok cp)
      → (target : RpcBlock) × (requested_block index (client 0) to_block ≡ ok target)
        × (load index.id
              (sync index depth to_lower_case chain_id client fuel concurrency to_block t).tables
            ≡ cp)
        × (target.number < next_number index depth cp)
  sync_returns client fuel concurrency to_block t bs cp provider s h =
      (sync_parts client fuel concurrency to_block t bs provider s).1 cp h
