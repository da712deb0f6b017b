-- ===== src/Indexer/Sync/Recover.antt =====
-- `recover` goes back to the newest stored block that the provider still has.
use ether_state.Prelude.{
  ℕ, ◌≡◌, refl, sym, ap, subst, ◌∙◌, Bool, true, false, Option, none, some, List, [], ◌∷◌, ◌++◌,
  ltb, if◌then◌else◌, keep, Bool-cases, Option-cases, inl, inr,
}
use ether_state.Prelude.Texts.{text_eq}
use ether_state.Prelude.Results.{Result, ok, Result-cases}
use ether_state.Rpc.{RpcBlock}
use ether_state.ModelStore.{IndexedBlock}
use ether_state.Indexer.{at_number, IndexDefinition, IndexCheckpoint, IndexerError}
use ether_state.Indexer.Bundle.{Client, fetch_block}
use ether_state.Indexer.Storage.{Tables, load, recent}
use ether_state.Indexer.Storage.Holds.{recent-Holds}
use ether_state.Indexer.Sync.Canonical.{
  StillHas, HasNewest, has_hash-StillHas, result_eq, some_eq, take-rest,
}
use ether_state.Indexer.Sync.{
  check_finalized, null_if_absent, has_hash, find_canonical, can_restart, is_of_index, is_foreign,
  Recovered, rollback_to, recover_from, recover,
}
use ether_state.Indexer.Sync.Synced.{block_of, newest, IsSynced, IsRecovered}
use ether_state.Indexer.Sync.Rollback.{is_foreign-own, all_gone, some_gone}

module _ (number_of : ℕ → ℕ) (index : IndexDefinition) (depth chain_id : ℕ) where
  recovered_as :
      (client : Client) (bs : List IndexedBlock) (result : Recovered) (cp : Option IndexCheckpoint)
      (t : Tables)
      → IsRecovered number_of index chain_id client bs result.0 result.1
      → ◌≡◌ {A = Result IndexerError Recovered} (ok result) (ok (cp, t))
      → IsRecovered number_of index chain_id client bs cp t
  recovered_as client bs result cp t r e =
      subst (λ p. IsRecovered number_of index chain_id client bs p.0 p.1) (result_eq e) r

  recover_from-IsRecovered :
      (client : Client) (c : IndexCheckpoint) (bs : List IndexedBlock) (t : Tables)
      (cp : Option IndexCheckpoint) (t' : Tables)
      → IsSynced number_of index chain_id t bs
      → is_of_index index chain_id c ≡ true
      → recover_from index depth client c t ≡ ok (cp, t')
      → IsRecovered number_of index chain_id client bs cp t'
  unfolding recover_from rollback_to
  recover_from-IsRecovered client c bs t cp t' s own h =
      let older = take-rest depth bs in
      let found = recent index.id index.version depth t in
      let whole : bs ≡ found ++ older.0 =
        older.1
        ∙ ap (λ xs. xs ++ older.0) (sym (recent-Holds number_of index depth t bs s.holds)) in
      elim (Result-cases (find_canonical client found)) [
        | inl (e, failed) ↦ absurd (cc (rw (failed, recover_from) at h))
        | inr (answer, searched) ↦ elim (Option-cases answer) [
          | inl nothing ↦ elim (Bool-cases (can_restart index.start_block found)) [
            | inr no_start ↦ absurd (cc (rw (searched, nothing, no_start, recover_from) at h))
            | inl starts ↦
                recovered_as client bs (rollback_to index depth found none t) cp t'
                  (all_gone number_of index depth chain_id client found older.0 bs t s whole
                    (searched ∙ ap ok nothing) starts)
                  (rw (searched, nothing, starts, recover_from) at h)
          ]
          | inr (a, there) ↦
              recovered_as client bs
                (rollback_to index depth (keep (λ b. ltb a.number b.number) found)
                  (some (record c { block = a })) t)
                cp t'
                (some_gone number_of index depth chain_id client found older.0 bs a c t s own whole
                  (searched ∙ ap ok there))
                (rw (searched, there, recover_from) at h)
        ]
      ]

  stays :
      (client : Client) (bs : List IndexedBlock) (t : Tables)
      → IsSynced number_of index chain_id t bs
      → HasNewest client bs
      → IsRecovered number_of index chain_id client bs (load index.id t) t
  stays client bs t s canonical = record {
    orphaned = [];
    left = bs;
    whole = refl;
    gone = tt;
    canonical = canonical;
    loaded = refl;
    synced = s;
  }

  nothing_newest :
      (client : Client) (bs : List IndexedBlock) → newest bs ≡ none → HasNewest client bs
  nothing_newest client [] e = tt
  nothing_newest client (b ∷ bs) e = absurd (cc e)

  tip_newest :
      (client : Client) (c : IndexCheckpoint) (bs : List IndexedBlock)
      → some c.block ≡ newest bs
      → StillHas client c.block
      → HasNewest client bs
  tip_newest client c [] e h = absurd (cc e)
  tip_newest client c (b ∷ bs) e h = subst (λ x. StillHas client x) (some_eq e) h

  current_block : Client → Bool → IndexCheckpoint → Result IndexerError (Option RpcBlock)
  current_block client force c =
      if force
      then ok none
      else null_if_absent (fetch_block client (at_number c.block.number) false)

  current_block-StillHas :
      (client : Client) (force : Bool) (c : IndexCheckpoint) (current : Option RpcBlock)
      → current_block client force c ≡ ok current
      → has_hash c.block.hash current ≡ true
      → StillHas client c.block
  unfolding current_block
  current_block-StillHas client true c none got same = absurd (cc same)
  current_block-StillHas client true c (some block) got same = absurd (cc got)
  current_block-StillHas client false c current got same =
      has_hash-StillHas client c.block current got same

  -- A recovery that succeeds leaves the tables synced. It drops the newest blocks, and only such for
  -- whose number the provider answers, without failing, otherwise than with a block of their hash,
  -- until the newest that is left is one that it answers for with that hash, or none is left; the
  -- checkpoint that it returns is the one that is stored.
  pub recover_lem :
      (client : Client) (force : Bool) (bs : List IndexedBlock) (t : Tables)
      (cp : Option IndexCheckpoint) (t' : Tables)
      → IsSynced number_of index chain_id t bs
      → recover index depth client (load index.id t) force t ≡ ok (cp, t')
      → IsRecovered number_of index chain_id client bs cp t'
  unfolding recover current_block
  recover_lem client force bs t cp t' s h = elim (Option-cases (load index.id t)) [
    | inl fresh ↦
        recovered_as client bs (load index.id t, t) cp t'
          (stays client bs t s (nothing_newest client bs (sym s.tip ∙ ap block_of fresh)))
          (ap (λ checkpoint. ok (checkpoint, t)) fresh ∙ (rw (fresh, recover) at h))
    | inr (c, there) ↦ elim (Result-cases (check_finalized client c.finalized)) [
      | inl (e, failed) ↦ absurd (cc (rw (there, failed, recover) at h))
      | inr (u, checked) ↦ elim (Result-cases (current_block client force c)) [
        | inl (e, failed) ↦ absurd (cc (rw (there, checked, failed, recover) at h))
        | inr (current, got) ↦ elim (Bool-cases (has_hash c.block.hash current)) [
          | inl same ↦
              let canonical = current_block-StillHas client force c current got same in
              recovered_as client bs (load index.id t, t) cp t'
                (stays client bs t s
                  (tip_newest client c bs (sym (ap block_of there) ∙ s.tip) canonical))
                (ap (λ checkpoint. ok (checkpoint, t)) there
                  ∙ (rw (there, checked, got, same, recover) at h))
          | inr other ↦
              recover_from-IsRecovered client c bs t cp t' s
                (is_foreign-own index chain_id c
                  (sym (ap (is_foreign index chain_id) there) ∙ s.own))
                (rw (there, checked, got, other, recover) at h)
        ]
      ]
    ]
  ]
