-- ===== src/Live/BlockTime.antt =====
-- `estimateBlockTime` of src/rpc/live.ts. The last round makes hundreds of milliseconds: `Math.round`
-- of the quotient, which is never half way between two integers, since 20 times a number of seconds
-- is even and 31 is odd. Failures of the provider are named by numbers.
use ether_state.Prelude.{
  ℕ, zero, suc, ◌+◌, ◌-◌, ◌*◌, ◌/◌, not, ◌||◌, Option, none, some, List, [], ◌∷◌, ltb, ◌==◌,
  if◌then◌else◌, max,
}
use ether_state.Prelude.Results.{Result, ok, err, ◌>>=◌, ◌>>◌, fail_if, map_error}
use ether_state.Rpc.{RpcBlock}

pub data BlockTimeUnavailable : Type 0 where
  too_few_blocks sample_unavailable inconsistent_sample invalid_spacing : BlockTimeUnavailable
  fetch_failed : ℕ → BlockTimeUnavailable

abbrev expect_sample : ℕ → Option RpcBlock → Result BlockTimeUnavailable RpcBlock
expect_sample number none = err sample_unavailable
expect_sample number (some block) =
    if block.number == number then ok block else err sample_unavailable

-- The blocks below a number, from the highest.
unfoldable pub samples_below :
    (ℕ → Result ℕ (Option RpcBlock)) → ℕ → ℕ → Result BlockTimeUnavailable (List RpcBlock)
samples_below fetch_block number zero = ok []
samples_below fetch_block number (suc count) = do
  answer ← map_error fetch_failed (fetch_block (number - 1))
  block ← expect_sample (number - 1) answer
  blocks ← samples_below fetch_block (number - 1) count
  ok (block ∷ blocks)

-- The loop over the parents, which ends with the oldest block.
unfoldable pub oldest_of : RpcBlock → List RpcBlock → Result BlockTimeUnavailable RpcBlock
oldest_of child [] = ok child
oldest_of child (parent ∷ previous) = do
  fail_if (not (child.parent_hash == parent.hash) || ltb child.timestamp parent.timestamp)
      inconsistent_sample
  oldest_of parent previous

unfoldable pub estimate_block_time :
    RpcBlock → (ℕ → Result ℕ (Option RpcBlock)) → Result BlockTimeUnavailable ℕ
unfolding samples_below oldest_of
estimate_block_time latest fetch_block = do
  fail_if (ltb latest.number 31) too_few_blocks
  previous ← samples_below fetch_block latest.number 31
  oldest ← oldest_of latest previous
  let seconds = latest.timestamp - oldest.timestamp
  fail_if (seconds == 0) invalid_spacing
  ok (max 100 ((seconds * 20 + 31) / 62 * 100))
