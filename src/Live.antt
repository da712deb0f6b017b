-- ===== src/Live.antt =====
-- `orderedReceipts` of src/rpc/live.ts: the receipts of a block are checked against the block and
-- put in the order of its transactions.
pub mod Receipts
pub mod BlockTime
use ether_state.Prelude.{
  ℕ, ◌+◌, Bool, true, false, not, ◌&&◌, ◌||◌, Option, none, some, List, [], ◌∷◌, ◌==◌,
  if◌then◌else◌, length, any, all,
}
use ether_state.Prelude.JsMap
use ether_state.Prelude.JsMap.{nat_eq}
use ether_state.Rpc.{RpcLog, RpcReceipt, ListedTransaction, hash_only, in_full, RpcBlock}

abbrev pub hash_of : ListedTransaction → ℕ
hash_of (hash_only hash) = hash
hash_of (in_full tx) = tx.hash

-- `new Map(receipts.map(receipt => [receipt.transactionHash, receipt]))`
abbrev pub put_receipts : List RpcReceipt → List (ℕ × RpcReceipt) → List (ℕ × RpcReceipt)
put_receipts [] m = m
put_receipts (r ∷ rest) m = put_receipts rest (JsMap.set r.transaction_hash r m)

abbrev pub is_some_of : ℕ → Option ℕ → Bool
is_some_of n none = false
is_some_of n (some m) = m == n

abbrev pub is_there {ℓ} : {A : Type ℓ} → Option A → Bool
is_there none = false
is_there (some a) = true

abbrev pub is_true : Option Bool → Bool
is_true none = false
is_true (some b) = b

unfoldable pub is_log_of : RpcBlock → ℕ → ℕ → RpcLog → Bool
is_log_of block hash index log =
    not (is_true log.removed)
    && is_some_of block.hash log.block_hash
    && is_some_of block.number log.block_number
    && (log.transaction_hash == hash)
    && is_some_of index log.transaction_index
    && is_there log.log_index
    && is_there log.address
    && is_there log.bytes
    && is_there log.topics

unfoldable pub is_receipt_of : RpcBlock → ℕ → ℕ → RpcReceipt → Bool
unfolding is_log_of
is_receipt_of block hash index r =
    (r.block_hash == block.hash)
    && (r.block_number == block.number)
    && (r.transaction_index == index)
    && all (is_log_of block hash index) r.logs

-- `for (const log of receipt.logs) if (log.logIndex !== nextLogIndex++) return undefined`
unfoldable pub number_logs : ℕ → List RpcLog → Option ℕ
number_logs next [] = some next
number_logs next (log ∷ logs) =
    let rest = number_logs (next + 1) logs in if is_some_of next log.log_index then rest else none

abbrev prepend_receipt : RpcReceipt → Option (List RpcReceipt) → Option (List RpcReceipt)
prepend_receipt r none = none
prepend_receipt r (some rs) = some (r ∷ rs)

unfoldable pub order_receipts :
    RpcBlock → List (ℕ × RpcReceipt) → ℕ → ℕ → List ListedTransaction → Option (List RpcReceipt)
unfolding is_receipt_of number_logs
order_receipts block by_hash index next [] = some []
order_receipts block by_hash index next (tx ∷ txs) = elim (JsMap.get (hash_of tx) by_hash) [
  | none ↦ none
  | some r ↦
      if is_receipt_of block (hash_of tx) index r
      then elim (number_logs next r.logs) [
        | none ↦ none
        | some next' ↦ prepend_receipt r (order_receipts block by_hash (index + 1) next' txs)
      ]
      else none
]

-- `none` is `undefined`.
unfoldable pub ordered_receipts : RpcBlock → List RpcReceipt → Option (List RpcReceipt)
unfolding order_receipts
ordered_receipts block receipts =
    let by_hash = put_receipts receipts [] in
    let ordered = order_receipts block by_hash 0 0 block.transactions in
    if not (length receipts == length block.transactions)
    then none
    else if not (length by_hash == length receipts)
    then none
    else ordered
