-- ===== src/History/Blocks.antt =====
-- `streamBlocks`, `streamTransactions` and `streamReceipts` of src/rpc/history.ts, and what collects
-- them. A stream that has come to its end is what it gave, with the error that ended it, if one did;
-- results come in order however many requests are made at once.
pub mod Complete
pub mod Receipts
use ether_state.Prelude.{
  ℕ, Bool, true, false, not, ◌&&◌, ◌||◌, Option, none, some, List, [], ◌∷◌, ◌++◌, ltb, leb, ◌==◌,
  if◌then◌else◌, length, all, or_default,
}
use ether_state.Prelude.Results.{Result, ok, err, ◌>>=◌, ◌>>◌, fail_if, map_error}
use ether_state.Coverage.{BlockRange}
use ether_state.Rpc.{
  RpcBlock, RpcReceipt, RpcTransaction, ListedTransaction, hash_only, in_full, full_transactions,
}
use ether_state.Rpc.Errors.{ClientError, block_unavailable}
use ether_state.History.{forward, ranges}
use ether_state.History.Fetch.{HistoryError, invalid_historical_range, historical_range_unavailable}

pub record BlocksRequest : Type 0 where
  pub from_block : ℕ
  pub to_block : ℕ
  pub concurrency : Option ℕ
  pub full : Option Bool

-- What the provider answers to eth_getBlockByNumber and eth_getBlockReceipts.
pub record Source : Type 0 where
  pub by_number : ℕ → Bool → Result ClientError (Option RpcBlock)
  pub receipts_at : ℕ → Result ClientError (Option (List RpcReceipt))

abbrev pub is_valid_request : BlocksRequest → Bool
is_valid_request request =
    let concurrency = or_default 4 request.concurrency in
    not (
      ltb request.to_block request.from_block
      || not (leb concurrency 9007199254740991)
      || ltb concurrency 1)

-- `block?.number === range.fromBlock`
abbrev pub expect_block : ℕ → Option RpcBlock → Result ClientError RpcBlock
expect_block number none = err block_unavailable
expect_block number (some block) =
    if block.number == number then ok block else err block_unavailable

unfoldable pub read_block : Source → Bool → BlockRange → Result HistoryError RpcBlock
read_block source full range =
    map_error (historical_range_unavailable range)
      (source.by_number range.from full >>= expect_block range.from)

abbrev pub Streamed : Type 0 → Type 0
Streamed A = List A × Option HistoryError

unfoldable pub read_blocks : Source → Bool → List BlockRange → Streamed RpcBlock
unfolding read_block
read_blocks source full [] = ([], none)
read_blocks source full (range ∷ ranges) =
    let rest : Streamed RpcBlock = read_blocks source full ranges in
    elim (read_block source full range) [
      | err error ↦ ([], some error)
      | ok block ↦ (block ∷ rest.0, rest.1)
    ]

-- `none` means that `ranges` ran out of fuel.
unfoldable pub stream_blocks : Source → BlocksRequest → Option (Streamed RpcBlock)
unfolding read_blocks
stream_blocks source request =
    let blocks : Option (Streamed RpcBlock) =
      elim (ranges request.from_block request.to_block 1 forward) [
        | none ↦ none
        | some ranges ↦ some (read_blocks source (or_default false request.full) ranges)
      ] in
    if is_valid_request request
    then blocks
    else some ([], some (invalid_historical_range request.from_block request.to_block))

-- `Stream.runCollect`
abbrev pub run_collect : {A : Type 0} → Streamed A → Result HistoryError (List A)
run_collect (given, none) = ok given
run_collect (given, some error) = err error

abbrev pub map_stream : {A B : Type 0} → (A → B) → Option A → Option B
map_stream f none = none
map_stream f (some s) = some (f s)

unfoldable pub get_blocks : Source → BlocksRequest → Option (Result HistoryError (List RpcBlock))
unfolding stream_blocks
get_blocks source request = map_stream run_collect (stream_blocks source request)

abbrev pub transactions_of : List RpcBlock → List RpcTransaction
transactions_of [] = []
transactions_of (block ∷ blocks) = full_transactions block.transactions ++ transactions_of blocks

unfoldable pub stream_transactions : Source → BlocksRequest → Option (Streamed RpcTransaction)
unfolding stream_blocks
stream_transactions source request =
    map_stream (λ s. (transactions_of s.0, s.1))
      (stream_blocks source (record request { full = some true }))

unfoldable pub get_transactions :
    Source → BlocksRequest → Option (Result HistoryError (List RpcTransaction))
unfolding stream_transactions
get_transactions source request = map_stream run_collect (stream_transactions source request)

abbrev pub are_of_block : RpcBlock → List RpcReceipt → Bool
are_of_block block receipts =
    (length receipts == length block.transactions)
    && all (λ receipt. receipt.block_hash == block.hash) receipts

abbrev pub expect_receipts :
    RpcBlock → Option (List RpcReceipt) → Result ClientError (List RpcReceipt)
expect_receipts block none = err block_unavailable
expect_receipts block (some receipts) =
    if are_of_block block receipts then ok receipts else err block_unavailable

unfoldable pub read_receipts : Source → RpcBlock → Result HistoryError (List RpcReceipt)
read_receipts source block =
    map_error
      (historical_range_unavailable (record { from = block.number; through = block.number }))
      (source.receipts_at block.number >>= expect_receipts block)

-- The receipts of the blocks of a stream, which ends as that does unless a block's fail.
unfoldable pub receipts_from : Source → Option HistoryError → List RpcBlock → Streamed RpcReceipt
unfolding read_receipts
receipts_from source ended [] = ([], ended)
receipts_from source ended (block ∷ blocks) =
    let rest : Streamed RpcReceipt = receipts_from source ended blocks in
    elim (read_receipts source block) [
      | err error ↦ ([], some error)
      | ok receipts ↦ (receipts ++ rest.0, rest.1)
    ]

unfoldable pub stream_receipts : Source → BlocksRequest → Option (Streamed RpcReceipt)
unfolding stream_blocks receipts_from
stream_receipts source request =
    map_stream (λ s. receipts_from source s.1 s.0) (stream_blocks source request)

unfoldable pub get_receipts :
    Source → BlocksRequest → Option (Result HistoryError (List RpcReceipt))
unfolding stream_receipts
get_receipts source request = map_stream run_collect (stream_receipts source request)
