-- ===== src/History/Blocks/Receipts.antt =====
-- `getReceipts` returns the receipts of all blocks of a range, in order.
use ether_state.Prelude.{◌+◌, ◌≡◌, true, false, some, List, [], ◌∷◌, ◌++◌, or_default}
use ether_state.Prelude.Results.{ok}
use ether_state.Rpc.{RpcBlock, RpcReceipt}
use ether_state.History.Blocks.{BlocksRequest, Source, are_of_block}
use ether_state.History.Blocks.Complete.{IsRun}

-- The receipts that the provider gives for blocks, one for each transaction, all of the block.
pub data HasReceipts (source : Source) : List RpcBlock → List RpcReceipt → Type 0 where
  no_blocks : HasReceipts source [] []
  after_block :
      (block : RpcBlock) (blocks : List RpcBlock) (own rest : List RpcReceipt)
      → source.receipts_at block.number ≡ ok (some own)
      → are_of_block block own ≡ true
      → HasReceipts source blocks rest
      → HasReceipts source (block ∷ blocks) (own ++ rest)

-- Every block that was asked for, with its receipts.
pub record AllReceipts (source : Source) (request : BlocksRequest) (receipts : List RpcReceipt)
    : Type 0 where
  pub blocks : List RpcBlock
  pub run :
      IsRun source (or_default false request.full) request.from_block (request.to_block + 1) blocks
  pub own : HasReceipts source blocks receipts
