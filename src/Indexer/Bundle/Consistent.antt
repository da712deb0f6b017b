-- ===== src/Indexer/Bundle/Consistent.antt =====
-- A bundle that `fetchBundle` returns is consistent.
use ether_state.Prelude.{
  ℕ, ◌+◌, ◌≡◌, refl, ap, ◌∙◌, Bool, true, false, not, ◌&&◌, ◌||◌, Option, none, some, List, [], ◌∷◌,
  ◌==◌, ==_iff, if◌then◌else◌, any, length, Bool-cases, Option-cases, inl, inr, subst, arith,
}
use ether_state.Prelude.Results.{Result, ok, Result-cases}
use ether_state.Rpc.{RpcTransaction, RpcReceipt, RpcLog, RpcBlock, full_transactions}
use ether_state.Indexer.{IndexerError, IndexBlockBundle, IndexDefinition}
use ether_state.Indexer.Bundle.{
  Client, fetch_block, are_transactions_of, is_some_of, is_removed, is_log_in, are_receipts_of,
  is_in_block, fetch_receipts, fetch_logs, fetch_calls, with_receipts, with_block, fetch_bundle,
}

-- The logs of a receipt name it, its transaction and its block, and none is removed.
abbrev pub LogsOf : RpcBlock → RpcReceipt → List RpcLog → Type 0
LogsOf block receipt [] = Unit {0}
LogsOf block receipt (log ∷ logs) =
    (log.block_hash ≡ some block.hash)
    × (log.block_number ≡ some block.number)
    × (log.transaction_hash ≡ receipt.transaction_hash)
    × (log.transaction_index ≡ some receipt.transaction_index)
    × (is_removed log.removed ≡ false)
    × LogsOf block receipt logs

-- One receipt for each transaction, in order.
pub data Receipted (block : RpcBlock) : ℕ → List RpcTransaction → List RpcReceipt → Type 0 where
  all_receipted : (position : ℕ) → Receipted block position [] []
  receipted :
      (position : ℕ) (tx : RpcTransaction) (txs : List RpcTransaction) (receipt : RpcReceipt)
      (receipts : List RpcReceipt)
      → receipt.transaction_hash ≡ tx.hash
      → receipt.block_hash ≡ block.hash
      → receipt.block_number ≡ block.number
      → receipt.transaction_index ≡ position
      → LogsOf block receipt receipt.logs
      → Receipted block (position + 1) txs receipts
      → Receipted block position (tx ∷ txs) (receipt ∷ receipts)

is_some_of-eq : (n : ℕ) (o : Option ℕ) → is_some_of n o ≡ true → o ≡ some n
is_some_of-eq n none h = absurd (cc h)
is_some_of-eq n (some m) h = ap some ((==_iff m n).0 h)

is_log_in-LogsOf :
    (block : RpcBlock) (receipt : RpcReceipt) (logs : List RpcLog)
    → any (λ log. not (is_log_in block receipt log)) logs ≡ false
    → LogsOf block receipt logs
unfolding is_log_in
is_log_in-LogsOf block receipt [] h = tt
is_log_in-LogsOf block receipt (log ∷ logs) h = ground (
  arith,
  h,
  is_some_of-eq block.hash log.block_hash,
  is_some_of-eq block.number log.block_number,
  is_some_of-eq receipt.transaction_index log.transaction_index,
  ==_iff log.transaction_hash receipt.transaction_hash,
  is_log_in-LogsOf block receipt logs,
)

are_receipts_of-Receipted :
    (block : RpcBlock) (position : ℕ) (txs : List RpcTransaction) (receipts : List RpcReceipt)
    → are_receipts_of block position txs receipts ≡ true
    → length receipts ≡ length txs
    → Receipted block position txs receipts
unfolding are_receipts_of
are_receipts_of-Receipted block position [] [] h l = all_receipted position
are_receipts_of-Receipted block position [] (r ∷ rs) h l = absurd (omega (arith, l))
are_receipts_of-Receipted block position (tx ∷ txs) [] h l = absurd (omega (arith, l))
are_receipts_of-Receipted block position (tx ∷ txs) (r ∷ rs) h l =
    receipted position tx txs r rs (ground (arith, h)) (ground (arith, h)) (ground (arith, h))
      (ground (arith, h)) (is_log_in-LogsOf block r r.logs (ground (arith, h)))
      (are_receipts_of-Receipted block (position + 1) txs rs (ground (arith, h)) (omega (arith, l)))

-- The transactions stand in the block at their places.
abbrev pub TransactionsOf : RpcBlock → ℕ → List RpcTransaction → Type 0
TransactionsOf block position [] = Unit {0}
TransactionsOf block position (tx ∷ txs) =
    (tx.block_hash ≡ block.hash)
    × (tx.block_number ≡ block.number)
    × (tx.transaction_index ≡ position)
    × TransactionsOf block (position + 1) txs

are_transactions_of-TransactionsOf :
    (block : RpcBlock) (position : ℕ) (txs : List RpcTransaction)
    → are_transactions_of block position txs ≡ true
    → TransactionsOf block position txs
unfolding are_transactions_of
are_transactions_of-TransactionsOf block position [] h = tt
are_transactions_of-TransactionsOf block position (tx ∷ txs) h =
    ground (arith, h, are_transactions_of-TransactionsOf block (position + 1) txs)

abbrev pub LogsIn : RpcBlock → List RpcLog → Type 0
LogsIn block [] = Unit {0}
LogsIn block (log ∷ logs) =
    (log.block_hash ≡ some block.hash) × (log.block_number ≡ some block.number) × LogsIn block logs

is_in_block-LogsIn :
    (block : RpcBlock) (logs : List RpcLog)
    → any (λ log. not (is_in_block block log)) logs ≡ false
    → LogsIn block logs
is_in_block-LogsIn block [] h = tt
is_in_block-LogsIn block (log ∷ logs) h = ground (
  arith,
  h,
  is_some_of-eq block.hash log.block_hash,
  is_some_of-eq block.number log.block_number,
  is_in_block-LogsIn block logs,
)

pub record IsConsistent (index : IndexDefinition) (block : RpcBlock) (bundle : IndexBlockBundle)
    : Type 0 where
  pub same_block : bundle.block ≡ block
  pub transactions : TransactionsOf block 0 bundle.transactions
  pub all_transactions :
      (index.source.transactions || index.source.receipts) ≡ true
      → length bundle.transactions ≡ length block.transactions
  pub receipts :
      index.source.receipts ≡ true → Receipted block 0 bundle.transactions bundle.receipts
  pub logs : LogsIn block bundle.logs

module _ (to_lower_case : ℕ → ℕ) where
  with_receipts-IsConsistent :
      (client : Client) (index : IndexDefinition) (block : RpcBlock) (txs : List RpcTransaction)
      (receipts : List RpcReceipt) (bundle : IndexBlockBundle)
      → TransactionsOf block 0 txs
      → ((index.source.transactions || index.source.receipts) ≡ true
          → length txs ≡ length block.transactions)
      → with_receipts to_lower_case client index block txs receipts ≡ ok bundle
      → IsConsistent index block bundle
  unfolding with_receipts
  with_receipts-IsConsistent client index block txs receipts bundle placed full h =
      elim (Bool-cases bad) [
        | inl b ↦ absurd (cc (rw (b, with_receipts) at h))
        | inr good ↦
            elim (Result-cases (
              fetch_logs to_lower_case client block index.source.receipts receipts
                index.source.logs)) [
                  | inl (e, failed) ↦ absurd (cc (rw (good, failed, with_receipts) at h))
                  | inr (logs, got) ↦
                      elim (Bool-cases (any (λ log. not (is_in_block block log)) logs)) [
                        | inl outside ↦ absurd (cc (rw (good, got, outside, with_receipts) at h))
                        | inr inside ↦
                            elim (Result-cases (fetch_calls client block index.source.calls)) [
                              | inl (e, failed) ↦
                                  absurd (cc (rw (good, got, inside, failed, with_receipts) at h))
                              | inr (calls, called) ↦
                                  let whole = rw (good, got, inside, called, with_receipts) at h in
                                  subst (IsConsistent index block) (result whole) (record {
                                    same_block = refl;
                                    transactions = placed;
                                    all_transactions = full;
                                    receipts = λ wants.
                                        are_receipts_of-Receipted block 0 txs receipts
                                          (ground (arith, good))
                                          (ground (
                                            arith,
                                            good,
                                            wants,
                                            full,
                                            ==_iff (length receipts) (length block.transactions),
                                          ));
                                    logs = is_in_block-LogsIn block logs inside;
                                  })
                            ]
                      ]
                ]
      ]
    where
      bad : Bool
      bad =
          not (are_receipts_of block 0 txs receipts)
          || (index.source.receipts && not (length receipts == length block.transactions))

      result :
          {b c : IndexBlockBundle}
          → ◌≡◌ {A = Result IndexerError IndexBlockBundle} (ok b) (ok c)
          → b ≡ c
      result e = cc e

  with_block-IsConsistent :
      (client : Client) (index : IndexDefinition) (block : RpcBlock) (bundle : IndexBlockBundle)
      → with_block to_lower_case client index
          (index.source.transactions || index.source.receipts)
          block
        ≡ ok bundle
      → IsConsistent index block bundle
  unfolding with_block
  with_block-IsConsistent client index block bundle h =
      let txs = full_transactions block.transactions in
      elim (Bool-cases (
        (index.source.transactions || index.source.receipts)
        && not (length txs == length block.transactions))) [
          | inl short ↦ absurd (cc (rw (short, with_block) at h))
          | inr full ↦ elim (Bool-cases (are_transactions_of block 0 txs)) [
            | inr misplaced ↦ absurd (cc (rw (full, misplaced, with_block) at h))
            | inl placed ↦
                elim (Result-cases
                  (if index.source.receipts then fetch_receipts client block txs else ok [])) [
                    | inl (e, failed) ↦ absurd (cc (rw (full, placed, failed, with_block) at h))
                    | inr (receipts, got) ↦
                        with_receipts-IsConsistent client index block txs receipts bundle
                          (are_transactions_of-TransactionsOf block 0 txs placed)
                          (λ needs.
                            ground
                              (arith, full, needs, ==_iff (length txs) (length block.transactions)))
                          (rw (full, placed, got, with_block) at h)
                  ]
          ]
        ]

  -- A bundle that `fetchBundle` returns is of the block that the provider gave for the number. Its
  -- transactions stand in that block, each at its place, and are all of the block's where they or
  -- receipts are asked for; where receipts are asked for there is one for each transaction, in
  -- order, with logs of that transaction and block; and all its logs are of the block.
  pub fetch_bundle_lem :
      (client : Client) (index : IndexDefinition) (number : ℕ) (bundle : IndexBlockBundle)
      → fetch_bundle to_lower_case client index number ≡ ok bundle
      → (block : RpcBlock) × (client.by_number number
            (index.source.transactions || index.source.receipts)
          ≡ ok (some block))
        × IsConsistent index block bundle
  unfolding fetch_bundle fetch_block
  fetch_bundle_lem client index number bundle h =
      let needs = index.source.transactions || index.source.receipts in
      elim (Result-cases (client.by_number number needs)) [
        | inl (e, failed) ↦ absurd (cc (rw (failed, fetch_bundle, fetch_block) at h))
        | inr (answer, got) ↦ elim (Option-cases answer) [
          | inl null ↦ absurd (cc (rw (got, null, fetch_bundle, fetch_block) at h))
          | inr (block, there) ↦ (
            block,
            got ∙ ap ok there,
            with_block-IsConsistent client index block bundle
                (rw (got, there, fetch_bundle, fetch_block) at h),
          )
        ]
      ]
