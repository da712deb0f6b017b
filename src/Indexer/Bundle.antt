-- ===== src/Indexer/Bundle.antt =====
-- `fetchBundle` of src/indexer/index.ts: all that an index reads of one block.
-- Requests that the source makes at once are made one after another here, so that of several
-- failures the first in order is the one that is reported.
pub mod Consistent
use ether_state.Prelude.{
  ℕ, ◌+◌, ◌-◌, Bool, true, false, not, ◌&&◌, ◌||◌, Option, none, some, List, [], ◌∷◌, ◌++◌, ltb,
  leb, ◌==◌, if◌then◌else◌, any, keep, length,
}
use ether_state.Prelude.JsMap
use ether_state.Prelude.Texts.{same_text, text_eq}
use ether_state.Prelude.Results.{Result, ok, err, ◌>>=◌, ◌>>◌, fail_if, map_error}
use ether_state.Rpc.{
  RpcTransactionRequest, RpcTransaction, RpcReceipt, RpcLog, RpcLogFilter, RpcBlock,
  ListedTransaction, hash_only, in_full, minus, is_code, full_transactions,
}
use ether_state.Rpc.Errors.{ClientError, rpc_error}
use ether_state.Watch.{matches_log}
use ether_state.Indexer.{
  IndexValue, IndexRow, IndexCall, IndexFinality, latest_mode, confirmations, finalized_mode,
  IndexBlockBundle, FinalizedAnchor, IndexCheckpoint, BlockTag, latest, finalized, BlockLabel,
  at_number, at_hash, at_tag, BundleReason, not_in_full, wrong_transactions, wrong_receipts,
  wrong_logs, IndexerError, index_block_unavailable, inconsistent_index_bundle, duplicate_index_row,
  row_schema_error, transform_error, IndexDefinition, IndexChange, applies, block_data,
  invalid_index_definition, bad_range,
}

-- What the provider answers at a moment. `none` is a JSON null. `by_number n full` is
-- eth_getBlockByNumber, and so on.
pub record Client : Type 0 where
  pub by_number : ℕ → Bool → Result ClientError (Option RpcBlock)
  pub by_tag : BlockTag → Bool → Result ClientError (Option RpcBlock)
  pub by_hash : ℕ → Bool → Result ClientError (Option RpcBlock)
  pub block_receipts : ℕ → Result ClientError (Option (List RpcReceipt))
  pub transaction_receipt : ℕ → Result ClientError (Option RpcReceipt)
  pub logs : RpcLogFilter → ℕ → Result ClientError (List RpcLog)
  pub call : RpcTransactionRequest → ℕ → Result ClientError ℕ

abbrev pub request_block : Client → BlockLabel → Bool → Result ClientError (Option RpcBlock)
request_block client (at_number n) full = client.by_number n full
request_block client (at_hash hash) full = client.by_hash hash full
request_block client (at_tag tag) full = client.by_tag tag full

abbrev pub there_or {ℓ κ} : {E : Type ℓ} {A : Type κ} → E → Option A → Result E A
there_or error none = err error
there_or error (some a) = ok a

unfoldable pub fetch_block : Client → BlockLabel → Bool → Result IndexerError RpcBlock
fetch_block client reference full = do
  block ←
      map_error (λ cause. index_block_unavailable reference (some cause))
        (request_block client reference full)
  there_or (index_block_unavailable reference none) block

unfoldable pub are_transactions_of : RpcBlock → ℕ → List RpcTransaction → Bool
are_transactions_of block position [] = true
are_transactions_of block position (tx ∷ txs) =
    (tx.block_hash == block.hash)
    && (tx.block_number == block.number)
    && (tx.transaction_index == position)
    && are_transactions_of block (position + 1) txs

abbrev is_unsupported : ClientError → Bool
is_unsupported (rpc_error code message) = is_code code (minus 32601) || is_code code (minus 32004)
is_unsupported _ = false

-- "Transaction receipt is unavailable", with a message that 0 names.
abbrev receipt_unavailable : ClientError
receipt_unavailable = rpc_error (minus 32001) 0

unfoldable pub each_receipt : Client → List RpcTransaction → Result ClientError (List RpcReceipt)
each_receipt client [] = ok []
each_receipt client (tx ∷ txs) = do
  answer ← client.transaction_receipt tx.hash
  receipt ← there_or receipt_unavailable answer
  receipts ← each_receipt client txs
  ok (receipt ∷ receipts)

unfoldable pub block_receipts_or_each :
    Client → RpcBlock → List RpcTransaction → Result ClientError (Option (List RpcReceipt))
unfolding each_receipt
block_receipts_or_each client block txs = elim (client.block_receipts block.hash) [
  | ok receipts ↦ ok receipts
  | err cause ↦
      if is_unsupported cause
      then (do receipts ← each_receipt client txs; ok (some receipts))
      else err cause
]

unfoldable pub fetch_receipts :
    Client → RpcBlock → List RpcTransaction → Result IndexerError (List RpcReceipt)
unfolding block_receipts_or_each
fetch_receipts client block txs = do
  receipts ←
      map_error (λ cause. index_block_unavailable (at_hash block.hash) (some cause))
        (block_receipts_or_each client block txs)
  there_or (index_block_unavailable (at_hash block.hash) none) receipts

abbrev pub is_some_of : ℕ → Option ℕ → Bool
is_some_of n none = false
is_some_of n (some m) = m == n

abbrev pub is_removed : Option Bool → Bool
is_removed none = false
is_removed (some b) = b

unfoldable pub is_log_in : RpcBlock → RpcReceipt → RpcLog → Bool
is_log_in block receipt log =
    is_some_of block.hash log.block_hash
    && is_some_of block.number log.block_number
    && (log.transaction_hash == receipt.transaction_hash)
    && is_some_of receipt.transaction_index log.transaction_index
    && not (is_removed log.removed)

abbrev pub names_first : ℕ → List RpcTransaction → Bool
names_first hash [] = false
names_first hash (tx ∷ txs) = hash == tx.hash

abbrev pub rest_of {ℓ} : {A : Type ℓ} → List A → List A
rest_of [] = []
rest_of (x ∷ xs) = xs

-- `txs` are the transactions from `position` on.
unfoldable pub are_receipts_of : RpcBlock → ℕ → List RpcTransaction → List RpcReceipt → Bool
unfolding is_log_in
are_receipts_of block position txs [] = true
are_receipts_of block position txs (receipt ∷ receipts) =
    (receipt.block_hash == block.hash)
    && (receipt.block_number == block.number)
    && names_first receipt.transaction_hash txs
    && (receipt.transaction_index == position)
    && not (any (λ log. not (is_log_in block receipt log)) receipt.logs)
    && are_receipts_of block (position + 1) (rest_of txs) receipts

unfoldable pub flat_logs : List RpcReceipt → List RpcLog
flat_logs [] = []
flat_logs (receipt ∷ receipts) = receipt.logs ++ flat_logs receipts

abbrev pub is_in_block : RpcBlock → RpcLog → Bool
is_in_block block log =
    is_some_of block.hash log.block_hash && is_some_of block.number log.block_number

unfoldable pub fetch_calls :
    Client → RpcBlock → List IndexCall → Result IndexerError (List (List ℕ × ℕ))
fetch_calls client block [] = ok []
fetch_calls client block (call ∷ calls) = do
  value ←
      map_error (λ cause. index_block_unavailable (at_hash block.hash) (some cause))
        (client.call call.transaction block.hash)
  entries ← fetch_calls client block calls
  ok ((call.key, value) ∷ entries)

-- `Object.fromEntries`
abbrev pub from_entries : List (List ℕ × ℕ) → List (List ℕ × ℕ) → List (List ℕ × ℕ)
from_entries m [] = m
from_entries m ((k, v) ∷ entries) = from_entries (JsMap.set k v m) entries

module _ (to_lower_case : ℕ → ℕ) where
  unfoldable pub fetch_logs :
      Client
      → RpcBlock
      → Bool
      → List RpcReceipt
      → Option RpcLogFilter
      → Result IndexerError (List RpcLog)
  unfolding flat_logs
  fetch_logs client block from_receipts receipts none = ok []
  fetch_logs client block from_receipts receipts (some filter) =
      if from_receipts
      then ok (keep (λ log. matches_log to_lower_case log filter) (flat_logs receipts))
      else map_error (λ cause. index_block_unavailable (at_hash block.hash) (some cause))
          (client.logs filter block.hash)

  -- The end of `fetchBundle`, from the check of the receipts on.
  unfoldable pub with_receipts :
      Client
      → IndexDefinition
      → RpcBlock
      → List RpcTransaction
      → List RpcReceipt
      → Result IndexerError IndexBlockBundle
  unfolding are_receipts_of fetch_logs fetch_calls
  with_receipts client index block transactions receipts = do
    fail_if
        (not (are_receipts_of block 0 transactions receipts)
          || (index.source.receipts && not (length receipts == length block.transactions)))
        (inconsistent_index_bundle block.number block.hash wrong_receipts)
    logs ← fetch_logs client block index.source.receipts receipts index.source.logs
    fail_if (any (λ log. not (is_in_block block log)) logs)
        (inconsistent_index_bundle block.number block.hash wrong_logs)
    entries ← fetch_calls client block index.source.calls
    ok (record {
      block = block;
      transactions = transactions;
      receipts = receipts;
      logs = logs;
      calls = from_entries [] entries;
    })

  -- `fetchBundle` from the check of the transactions on.
  unfoldable pub with_block :
      Client → IndexDefinition → Bool → RpcBlock → Result IndexerError IndexBlockBundle
  unfolding full_transactions are_transactions_of fetch_receipts with_receipts
  with_block client index needs_transactions block = do
    let transactions = full_transactions block.transactions
    fail_if (needs_transactions && not (length transactions == length block.transactions))
        (inconsistent_index_bundle block.number block.hash not_in_full)
    fail_if (not (are_transactions_of block 0 transactions))
        (inconsistent_index_bundle block.number block.hash wrong_transactions)
    receipts ← if index.source.receipts then fetch_receipts client block transactions else ok []
    with_receipts client index block transactions receipts

  unfoldable pub fetch_bundle : Client → IndexDefinition → ℕ → Result IndexerError IndexBlockBundle
  unfolding fetch_block with_block
  fetch_bundle client index number = do
    let needs_transactions = index.source.transactions || index.source.receipts
    block ← fetch_block client (at_number number) needs_transactions
    with_block client index needs_transactions block
