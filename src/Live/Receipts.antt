-- ===== src/Live/Receipts.antt =====
-- The receipts that `orderedReceipts` returns: one for each transaction, in order.
use mathlib.Core.List.{Memᴰ}
use ether_state.Prelude.{ℕ, ◌+◌, ◌≡◌, true, some, List, [], ◌∷◌, length}
use ether_state.Prelude.JsMap
use ether_state.Prelude.JsMap.{nat_eq}
use ether_state.Rpc.{RpcLog, RpcReceipt, ListedTransaction, RpcBlock}
use ether_state.Live.{hash_of, is_receipt_of}

-- The logs are numbered one after another from `next` on.
abbrev pub Numbered : ℕ → List RpcLog → Type 0
Numbered next [] = Unit {0}
Numbered next (log ∷ logs) = (log.log_index ≡ some next) × Numbered (next + 1) logs

-- One receipt for each transaction: it names the transaction, its block and its place in it, as do
-- its logs, which go on with the numbers where those of the receipt before ended.
pub data Ordered (block : RpcBlock)
    : ℕ → ℕ → List ListedTransaction → List RpcReceipt → Type 0 where
  all_done : (index next : ℕ) → Ordered block index next [] []
  and_then :
      (index next : ℕ) (tx : ListedTransaction) (txs : List ListedTransaction) (r : RpcReceipt)
      (rs : List RpcReceipt)
      → r.transaction_hash ≡ hash_of tx
      → is_receipt_of block (hash_of tx) index r ≡ true
      → Numbered next r.logs
      → Ordered block (index + 1) (next + length r.logs) txs rs
      → Ordered block index next (tx ∷ txs) (r ∷ rs)

-- Each receipt stands under its own transaction, and is one of those that were given.
abbrev pub HoldsOf : List RpcReceipt → List (ℕ × RpcReceipt) → Type 0
HoldsOf given m =
    (k : ℕ) (r : RpcReceipt) → JsMap.get k m ≡ some r → (r.transaction_hash ≡ k) × Memᴰ r given
