-- ===== src/Coverage.antt =====
-- src/indexer/model-store.ts, lines 10 to 86, and `mergeCoverage` of src/indexer/model.ts: the
-- inclusive block ranges that a model has processed. Block numbers are non-negative bigints, hence
-- native numbers, so the test `range.from < 0n` never fires. Where the code counts down with
-- `end`, which may reach -1, the model carries `end + 1`.
pub mod Normal
pub mod Merge
pub mod Missing
pub mod Canonical
pub mod Blocks
use ether_state.Prelude.{
  ℕ, ◌+◌, ◌-◌, Bool, true, false, ◌&&◌, Option, none, some, List, [], ◌∷◌, ◌++◌, map, reverse, ltb,
  leb, ◌==◌, if◌then◌else◌, any, sort_by,
}

pub record BlockRange : Type 0 where
  pub from : ℕ
  pub through : ℕ

abbrev pub contains : ℕ → BlockRange → Bool
contains n range = leb range.from n && leb n range.through

-- Block `n` lies in one of the ranges.
abbrev pub covers : ℕ → List BlockRange → Bool
covers n ranges = any (contains n) ranges

abbrev pub starts_before : BlockRange → BlockRange → Bool
starts_before a b = ltb a.from b.from

-- The body of the merging loops. The last range of `result` is the head of the list.
pub join : List BlockRange → BlockRange → List BlockRange
join [] range = range ∷ []
join (last ∷ result) range =
    if leb range.from (last.through + 1)
    then (if ltb last.through range.through then record last { through = range.through } else last)
      ∷ result
    else range ∷ last ∷ result

-- `none` is the error "Invalid block coverage range".
pub merge_sorted : List BlockRange → List BlockRange → Option (List BlockRange)
merge_sorted result [] = some (reverse result)
merge_sorted result (range ∷ rest) =
    let next = merge_sorted (join result range) rest in
    if ltb range.through range.from then none else next

pub merge_block_ranges : List BlockRange → Option (List BlockRange)
merge_block_ranges ranges = merge_sorted [] (sort_by starts_before ranges)

-- `[...new Set(numbers)].sort(…)`: the sort is by a strict order, so equal numbers stand together,
-- and dropping the repetitions after it gives the same list.
pub drop_repeats : List ℕ → List ℕ
drop_repeats [] = []
drop_repeats (n ∷ []) = n ∷ []
drop_repeats (n ∷ m ∷ rest) =
    let later = drop_repeats (m ∷ rest) in if n == m then later else n ∷ later

pub push_number : List BlockRange → ℕ → List BlockRange
push_number [] n = record { from = n; through = n } ∷ []
push_number (last ∷ result) n =
    if last.through + 1 == n
    then record last { through = n } ∷ result
    else record { from = n; through = n } ∷ last ∷ result

pub push_numbers : List BlockRange → List ℕ → List BlockRange
push_numbers result [] = reverse result
push_numbers result (n ∷ rest) = push_numbers (push_number result n) rest

pub ranges_from_blocks : List ℕ → List BlockRange
ranges_from_blocks numbers = push_numbers [] (drop_repeats (sort_by ltb numbers))

-- The loop of `mergeCoverage`, which does not check its ranges.
pub join_all : List BlockRange → List BlockRange → List BlockRange
join_all result [] = reverse result
join_all result (range ∷ rest) = join_all (join result range) rest

-- `blocks` are the numbers of the batches.
pub merge_coverage : List BlockRange → List ℕ → List BlockRange → List BlockRange
merge_coverage ranges blocks scanned = join_all [] (
    sort_by starts_before (ranges ++ scanned ++ map (λ n. record { from = n; through = n }) blocks))

-- The range that ends before `stop`, of at most `size` blocks, and starts at `low` or later.
unfoldable pub window_below : ℕ → ℕ → ℕ → BlockRange
window_below low stop size = record {
  from = if ltb low (stop - size) then stop - size else low;
  through = stop - 1;
}

-- `stop` is `end + 1`. The ranges come last first.
unfoldable pub missing_down : List BlockRange → ℕ → ℕ → ℕ → Option BlockRange
unfolding window_below
missing_down [] from stop size = if leb stop from then none else some (window_below from stop size)
missing_down (range ∷ rest) from stop size =
    let skip = missing_down rest from stop size in
    let below = missing_down rest from range.from size in
    if leb stop range.from
    then skip
    else if leb stop (range.through + 1)
    then below
    else if leb stop from
    then none
    else some
        (window_below (if ltb from (range.through + 1) then range.through + 1 else from) stop size)

unfoldable pub missing_range : List BlockRange → ℕ → ℕ → ℕ → Option BlockRange
missing_range ranges from through size = missing_down (reverse ranges) from (through + 1) size

unfoldable pub missing_forward_range : List BlockRange → ℕ → ℕ → ℕ → Option BlockRange
missing_forward_range [] start through size =
    if ltb through start
    then none
    else some (record {
      from = start;
      through = if ltb (start + size - 1) through then start + size - 1 else through;
    })
missing_forward_range (range ∷ rest) start through size =
    let skip = missing_forward_range rest start through size in
    let above = missing_forward_range rest (range.through + 1) through size in
    let end = start + size - 1 in
    if ltb range.through start
    then skip
    else if leb range.from start
    then above
    else if ltb through start
    then none
    else some (record {
      from = start;
      through =
          if ltb end range.from && ltb end through
          then end
          else if ltb (range.from - 1) through
          then range.from - 1
          else through;
    })
