-- ===== src/History.antt =====
-- src/rpc/history.ts: fetching a range of blocks by chunks, with chunks that are split when a
-- provider refuses them, and windows of chunks that are fetched at once and put back in order.
-- Block numbers are non-negative bigints. Hashes and messages are only compared and matched by
-- regular expressions, so numbers name them. Delays between attempts are not modelled.
pub mod Ranges
pub mod Logs
pub mod Fetch
pub mod Reassembly
pub mod Blocks
use ether_state.Prelude.{
  ℕ, zero, suc, ◌+◌, ◌-◌, ◌/◌, ◌%◌, Bool, true, false, not, ◌&&◌, ◌||◌, Option, none, some, List,
  [], ◌∷◌, ◌++◌, ltb, leb, ◌==◌, if◌then◌else◌, sort_by, length, map,
}
use ether_state.Prelude.JsMap
use ether_state.Coverage.{BlockRange}

pub data Direction : Type 0 where
  forward backward : Direction

abbrev pub prepend {ℓ} : {A : Type ℓ} → A → Option (List A) → Option (List A)
prepend x none = none
prepend x (some xs) = some (x ∷ xs)

-- The second loop of `ranges`, with fuel; `none` means that the fuel ran out.
unfoldable pub forward_ranges : ℕ → ℕ → ℕ → ℕ → Option (List BlockRange)
forward_ranges zero start to_block chunk_size = none
forward_ranges (suc fuel) start to_block chunk_size =
    let rest = forward_ranges fuel (start + chunk_size) to_block chunk_size in
    let end = start + chunk_size - 1 in
    if leb start to_block
    then prepend (record { from = start; through = if ltb end to_block then end else to_block })
        rest
    else some []

-- The first loop. `end - chunkSize + 1n` may be negative, and is then not above `fromBlock`.
pub backward_ranges : ℕ → ℕ → ℕ → ℕ → Option (List BlockRange)
backward_ranges zero from_block end chunk_size = none
backward_ranges (suc fuel) from_block end chunk_size =
    let start =
      if ltb from_block (end + 1 - chunk_size) then end + 1 - chunk_size else from_block in
    let rest = backward_ranges fuel from_block (start - 1) chunk_size in
    if leb from_block end
    then prepend (record { from = start; through = end })
        (if start == from_block then some [] else rest)
    else some []

-- Each round moves by one block at least, so this fuel is enough.
unfoldable pub ranges : ℕ → ℕ → ℕ → Direction → Option (List BlockRange)
unfolding forward_ranges backward_ranges
ranges from_block to_block chunk_size forward =
    forward_ranges (to_block + 2) from_block to_block chunk_size
ranges from_block to_block chunk_size backward =
    backward_ranges (to_block + 2) from_block to_block chunk_size
