-- ===== src/Tests/HistoryTests.antt =====
-- src/rpc/history.ts on small ranges.
use ether_state.Prelude.{
  ℕ, ◌+◌, ◌*◌, ◌≡◌, refl, true, none, some, List, [], ◌∷◌, leb, ◌==◌, if◌then◌else◌, any, all,
  IsSortedBy, IsDistinct, arith,
}
use ether_state.Coverage.{BlockRange}
use ether_state.Rpc.{RpcLog, minus}
use ether_state.Rpc.Errors.{rpc_error}
use ether_state.History.{forward, backward, ranges}
use ether_state.History.Ranges.{TilesIn, ranges_tile}
use ether_state.History.Logs.{
  HistoricalLog, same_log, comes_before, normalize_logs, is_within, is_entry, normalize_logs_lem,
}
use ether_state.History.Fetch.{Reply, answered, failed, Page, Run, stream_range}
use ether_state.History.Fetch.Split.{Each, IsAnswer, Fills, stream_range_lem}
use ether_state.History.Reassembly.{reassemble}
use ether_state.History.Reassembly.Order.{page_at, arrives, first_cursor, reassemble_lem}

abbrev blocks : ℕ → ℕ → BlockRange
blocks from through = record { from = from; through = through }

ranges_tile_example :
    (rs : List BlockRange) × (ranges 3 12 4 backward ≡ some rs) × TilesIn backward 4 3 (12 + 1) rs
ranges_tile_example = ranges_tile backward 3 12 4 (omega arith) (omega arith)

abbrev log_at : ℕ → ℕ → RpcLog
log_at number index = record {
  transaction_hash = number * 10;
  transaction_index = some 0;
  log_index = some index;
  block_hash = some (number * 100);
  block_number = some number;
  block_timestamp = none;
  address = none;
  bytes = none;
  topics = none;
  removed = none;
}

abbrev answer : List RpcLog
answer = log_at 8 1 ∷ log_at 7 0 ∷ log_at 8 0 ∷ log_at 7 0 ∷ []

normalize_logs_lem_example :
    (out : List HistoricalLog) × (normalize_logs (blocks 7 8) answer ≡ some out)
    × IsSortedBy comes_before out
    × IsDistinct same_log out
    × (all (is_within (blocks 7 8)) out ≡ true)
    × ((k : HistoricalLog) → any (same_log k) out ≡ any (is_entry k) answer)
normalize_logs_lem_example = (normalize_logs_lem (blocks 7 8) answer).1 refl

-- A provider that answers for two blocks at most, with message 1 for more.
abbrev two_at_most : BlockRange → ℕ → Reply
two_at_most range attempt =
    if leb range.through (range.from + 1) then answered [] else failed (rpc_error (minus 32005) 1)

stream_range_lem_example :
    (run : Run) × (stream_range (λ m. m == 1) two_at_most backward 5 (blocks 3 7) ≡ some run)
    × Fills backward 5 (blocks 3 7) run
    × Each (IsAnswer two_at_most) run.pages
stream_range_lem_example =
    stream_range_lem (λ m. m == 1) two_at_most backward 5 5 (blocks 3 7) (omega arith) (omega arith)
      (omega arith)

abbrev page : ℕ → ℕ → Page
page from through = record { range = blocks from through; logs = [] }

abbrev pages : List Page
pages = page 0 3 ∷ page 4 7 ∷ page 8 9 ∷ []

abbrev arrivals : List Page
arrivals = page 8 9 ∷ page 0 3 ∷ page 4 7 ∷ []

all_arrive :
    (k : ℕ) (p : Page) → page_at forward k pages ≡ some p → arrives forward k arrivals ≡ true
all_arrive k p h = ground (arith, h)

reassemble_lem_example : reassemble forward (first_cursor forward 0 10) arrivals ≡ pages
reassemble_lem_example =
    reassemble_lem forward 4 0 10 pages arrivals (ground arith) (refl, (refl, (refl, tt)))
      all_arrive
