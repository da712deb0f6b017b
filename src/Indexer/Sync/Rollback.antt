-- ===== src/Indexer/Sync/Rollback.antt =====
-- The rollback of `recover`, to nothing or to the newest block that is left.
use ether_state.Prelude.{
  ℕ, ◌≡◌, refl, sym, ap, subst, ◌∙◌, true, none, some, List, [], ◌∷◌, ◌++◌, append_assoc,
  append-nil, ltb, ==_iff, keep, arith,
}
use ether_state.Prelude.Texts.{text_eq}
use ether_state.Prelude.Results.{ok}
use ether_state.ModelStore.{IndexedBlock}
use ether_state.Indexer.{IndexDefinition, IndexCheckpoint}
use ether_state.Indexer.Bundle.{Client}
use ether_state.Indexer.Storage.{Tables}
use ether_state.Indexer.Storage.Chain.{IsChain}
use ether_state.Indexer.Storage.Prefix.{keep-higher, start-IsChain_le}
use ether_state.Indexer.Storage.Holds.{
  Holds, rollback-Holds, load-rollback-none, load-rollback-some,
}
use ether_state.Indexer.Sync.Canonical.{
  StillHas, HasNone, find_canonical-SplitAt, find_canonical-none,
}
use ether_state.Indexer.Sync.{find_canonical, can_restart, is_of_index, is_foreign, rollback_to}
use ether_state.Indexer.Sync.Synced.{block_of, IsSynced, IsRecovered}

can_restart-whole :
    (number_of : ℕ → ℕ) (start : ℕ) (bs older : List IndexedBlock)
    → IsChain number_of start (bs ++ older)
    → can_restart start bs ≡ true
    → older ≡ []
unfolding can_restart
can_restart-whole number_of start [] older c h = absurd (cc h)
can_restart-whole number_of start (b ∷ []) [] c h = refl
can_restart-whole number_of start (b ∷ []) (o ∷ older) c h =
    absurd
      (ground (arith, ==_iff b.number start, start-IsChain_le number_of start o older c.2, c.1.0))
can_restart-whole number_of start (b ∷ d ∷ bs) older c h =
    can_restart-whole number_of start (d ∷ bs) older c.2 h

pub is_foreign-own :
    (index : IndexDefinition) (chain_id : ℕ) (c : IndexCheckpoint)
    → is_foreign index chain_id (some c) ≡ none
    → is_of_index index chain_id c ≡ true
is_foreign-own index chain_id c h = ground (arith, h)

is_of_index-id :
    (index : IndexDefinition) (chain_id : ℕ) (c : IndexCheckpoint)
    → is_of_index index chain_id c ≡ true
    → c.index_id ≡ index.id
is_of_index-id index chain_id c h = (text_eq.beq_iff c.index_id index.id).0 (ground (arith, h))

module _ (number_of : ℕ → ℕ) (index : IndexDefinition) (depth chain_id : ℕ) where
  restart-IsRecovered :
      (client : Client) (bs : List IndexedBlock) (t : Tables)
      → IsSynced number_of index chain_id t bs
      → HasNone client bs
      → IsRecovered number_of index chain_id client bs none (rollback_to index depth bs none t).1
  unfolding rollback_to
  restart-IsRecovered client bs t s gone =
      let none_left = load-rollback-none number_of index bs t in
      record {
        orphaned = bs;
        left = [];
        whole = sym (append-nil bs);
        gone = gone;
        canonical = tt;
        loaded = none_left;
        synced = record {
          holds =
              rollback-Holds number_of index bs [] none t
                (subst (Holds number_of index t) (sym (append-nil bs)) s.holds);
          tip = ap block_of none_left;
          own = ap (is_foreign index chain_id) none_left;
        };
      }

  step_back-IsRecovered :
      (client : Client) (passed rest : List IndexedBlock) (a : IndexedBlock) (c : IndexCheckpoint)
      (t : Tables)
      → IsSynced number_of index chain_id t (passed ++ a ∷ rest)
      → is_of_index index chain_id c ≡ true
      → HasNone client passed
      → StillHas client a
      → IsRecovered number_of index chain_id client
          (passed ++ a ∷ rest)
          (some (record c { block = a }))
          (rollback_to index depth passed (some (record c { block = a })) t).1
  unfolding rollback_to
  step_back-IsRecovered client passed rest a c t s own gone canonical =
      let next : IndexCheckpoint = record c { block = a } in
      let now =
        load-rollback-some number_of index passed next t (is_of_index-id index chain_id c own) in
      record {
        orphaned = passed;
        left = a ∷ rest;
        whole = refl;
        gone = gone;
        canonical = canonical;
        loaded = now;
        synced = record {
          holds = rollback-Holds number_of index passed (a ∷ rest) (some next) t s.holds;
          tip = ap block_of now;
          own = ap (is_foreign index chain_id) now ∙ ground (arith, own);
        };
      }

  pub all_gone :
      (client : Client) (found older bs : List IndexedBlock) (t : Tables)
      → IsSynced number_of index chain_id t bs
      → bs ≡ found ++ older
      → find_canonical client found ≡ ok none
      → can_restart index.start_block found ≡ true
      → IsRecovered number_of index chain_id client bs none (rollback_to index depth found none t).1
  all_gone client found older bs t s whole searched starts =
      let chain = subst (IsChain number_of index.start_block) whole s.holds.chain in
      let nothing = can_restart-whole number_of index.start_block found older chain starts in
      let same : bs ≡ found = whole ∙ ap (λ xs. found ++ xs) nothing ∙ append-nil found in
      subst
        (λ xs.
          IsRecovered number_of index chain_id client xs none
            (rollback_to index depth found none t).1)
        (sym same)
        (restart-IsRecovered client found t (subst (IsSynced number_of index chain_id t) same s)
          (find_canonical-none client found searched))

  pub some_gone :
      (client : Client) (found older bs : List IndexedBlock) (a : IndexedBlock)
      (c : IndexCheckpoint) (t : Tables)
      → IsSynced number_of index chain_id t bs
      → is_of_index index chain_id c ≡ true
      → bs ≡ found ++ older
      → find_canonical client found ≡ ok (some a)
      → IsRecovered number_of index chain_id client bs
          (some (record c { block = a }))
          (rollback_to index depth
            (keep (λ b. ltb a.number b.number) found)
            (some (record c { block = a }))
            t).1
  some_gone client found older bs a c t s own whole searched =
      let split = find_canonical-SplitAt client found a searched in
      let same : bs ≡ split.passed ++ a ∷ (split.rest ++ older) =
        whole
        ∙ ap (λ xs. xs ++ older) split.whole
        ∙ append_assoc split.passed (a ∷ split.rest) older in
      let s' = subst (IsSynced number_of index chain_id t) same s in
      let dropped : split.passed ≡ keep (λ b. ltb a.number b.number) found = sym (
        ap (keep (λ b. ltb a.number b.number)) split.whole
        ∙ keep-higher number_of index.start_block split.passed a split.rest older s'.holds.chain) in
      subst
        (λ xs.
          IsRecovered number_of index chain_id client bs (some (record c { block = a }))
            (rollback_to index depth xs (some (record c { block = a })) t).1)
        dropped
        (subst
          (λ xs.
            IsRecovered number_of index chain_id client xs (some (record c { block = a }))
              (rollback_to index depth split.passed (some (record c { block = a })) t).1)
          (sym same)
          (step_back-IsRecovered client split.passed (split.rest ++ older) a c t s' own
            split.orphaned split.canonical))
