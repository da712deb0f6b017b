-- ===== src/Rpc.antt =====
-- src/rpc/schema.ts, lines 12 to 16 and 227 to 304: error codes, transactions, logs, receipts and
-- blocks that a provider answers with, and the filter of logs. Hashes, addresses and messages are only compared, so numbers name
-- them; quantities are bigints that the schemas hold to be non-negative.
pub mod Errors
use ether_state.Prelude.{ℕ, zero, suc, ◌≡◌, Bool, true, false, Option, List, [], ◌∷◌, ◌==◌}

-- A JSON-RPC error code: `pos n` is n, and `negsuc n` is -(n + 1).
pub data ℤ : Type 0 where
  pos : ℕ → ℤ
  negsuc : ℕ → ℤ

abbrev pub minus : ℕ → ℤ
minus zero = pos zero
minus (suc n) = negsuc n

abbrev pub is_code : ℤ → ℤ → Bool
is_code (pos a) (pos b) = a == b
is_code (negsuc a) (negsuc b) = a == b
is_code _ _ = false

pub record RpcLog : Type 0 where
  pub transaction_hash : ℕ
  pub transaction_index : Option ℕ
  pub log_index : Option ℕ
  pub block_hash : Option ℕ
  pub block_number : Option ℕ
  pub block_timestamp : Option ℕ
  pub address : Option ℕ
  pub bytes : Option ℕ
  pub topics : Option (List ℕ)
  pub removed : Option Bool

pub record RpcReceipt : Type 0 where
  pub transaction_hash : ℕ
  pub transaction_index : ℕ
  pub block_hash : ℕ
  pub block_number : ℕ
  pub from : ℕ
  pub gas_used : ℕ
  pub cumulative_gas_used : ℕ
  pub effective_gas_price : ℕ
  pub logs : List RpcLog
  pub status : Option ℕ

-- `to?: RpcHex | null`: absent, null or an address.
pub record RpcTransactionRequest : Type 0 where
  pub transaction_type : Option ℕ
  pub nonce : Option ℕ
  pub to : Option (Option ℕ)
  pub from : Option ℕ
  pub gas : Option ℕ
  pub value : Option ℕ
  pub input : Option ℕ
  pub bytes : Option ℕ
  pub gas_price : Option ℕ
  pub max_priority_fee_per_gas : Option ℕ
  pub max_fee_per_gas : Option ℕ
  pub max_fee_per_blob_gas : Option ℕ
  pub chain_id : Option ℕ
  pub access_list : Option (List (ℕ × List ℕ))
  pub blob_versioned_hashes : Option (List ℕ)
  pub authorization_list : Option (List ℕ)

-- `request` has the fields that a transaction takes over.
pub record RpcTransaction : Type 0 where
  pub request : RpcTransactionRequest
  pub block_hash : ℕ
  pub block_number : ℕ
  pub block_timestamp : Option ℕ
  pub from : ℕ
  pub hash : ℕ
  pub transaction_index : ℕ
  pub r : ℕ
  pub s : ℕ

-- A block lists a transaction by its hash, or in full.
pub data ListedTransaction : Type 0 where
  hash_only : ℕ → ListedTransaction
  in_full : RpcTransaction → ListedTransaction

pub record RpcBlock : Type 0 where
  pub hash : ℕ
  pub parent_hash : ℕ
  pub state_root : ℕ
  pub transactions_root : ℕ
  pub receipts_root : ℕ
  pub logs_bloom : ℕ
  pub number : ℕ
  pub timestamp : ℕ
  pub gas_limit : ℕ
  pub gas_used : ℕ
  pub size : ℕ
  pub transactions : List ListedTransaction
  pub base_fee_per_gas : Option ℕ

-- `filter((transaction) => typeof transaction !== "string")`
abbrev pub full_transactions : List ListedTransaction → List RpcTransaction
full_transactions [] = []
full_transactions (hash_only hash ∷ txs) = full_transactions txs
full_transactions (in_full tx ∷ txs) = tx ∷ full_transactions txs

-- The filter of a request for logs. A topic is null, one value, or some values or nulls.
pub data AddressFilter : Type 0 where
  one_address : ℕ → AddressFilter
  many_addresses : List ℕ → AddressFilter

pub data TopicFilter : Type 0 where
  any_topic : TopicFilter
  one_topic : ℕ → TopicFilter
  many_topics : List (Option ℕ) → TopicFilter

pub record RpcLogFilter : Type 0 where
  pub address : Option AddressFilter
  pub topics : Option (List TopicFilter)
