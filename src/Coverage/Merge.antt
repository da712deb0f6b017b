-- ===== src/Coverage/Merge.antt =====
-- Merging: `mergeBlockRanges` and `mergeCoverage` keep the set of blocks and give the normal form.
use ether_state.Prelude.{
  ℕ, ◌+◌, ◌≤◌, ◌≡◌, refl, ◌∙◌, Bool, true, false, ◌||◌, none, some, List, [], ◌∷◌, ◌++◌, map, leb,
  if◌then◌else◌, any, all, any-append, all-append, all-sort_by, ◌==◌, any-reverse, any-sort_by,
  sort_by, insert_by, arith,
}
use ether_state.Coverage.{
  BlockRange, contains, covers, starts_before, join, merge_sorted, merge_block_ranges, join_all,
  merge_coverage,
}
use ether_state.Coverage.Normal.{IsNormal, Descends, reverse-IsNormal}

abbrev pub is_valid : BlockRange → Bool
is_valid range = leb range.from range.through

abbrev AllValid : List BlockRange → Type 0
AllValid [] = Unit {0}
AllValid (r ∷ rs) = (r.from ≤ r.through) × AllValid rs

-- Sorted by the first block, from `low` on.
abbrev IsSorted : ℕ → List BlockRange → Type 0
IsSorted low [] = Unit {0}
IsSorted low (r ∷ rs) = (low ≤ r.from) × IsSorted r.from rs

insert_by-IsSorted :
    (low : ℕ) (r : BlockRange) (rs : List BlockRange)
    → low ≤ r.from
    → IsSorted low rs
    → IsSorted low (insert_by starts_before r rs)
insert_by-IsSorted low r [] h s = (h, tt)
insert_by-IsSorted low r (x ∷ xs) h s = ground (arith, insert_by-IsSorted x.from r xs)

sort_by-IsSorted : (rs : List BlockRange) → IsSorted 0 (sort_by starts_before rs)
sort_by-IsSorted [] = tt
sort_by-IsSorted (r ∷ rs) =
    insert_by-IsSorted 0 r (sort_by starts_before rs) (omega arith) (sort_by-IsSorted rs)

-- What the loop has built: a normal list, last range first, whose last range starts by `low`.
abbrev IsBuilt : ℕ → List BlockRange → Type 0
IsBuilt low [] = Unit {0}
IsBuilt low (r ∷ rs) = (r.from ≤ low) × (r.from ≤ r.through) × Descends r.from rs

join-IsBuilt :
    (low : ℕ) (result : List BlockRange) (range : BlockRange)
    → low ≤ range.from
    → range.from ≤ range.through
    → IsBuilt low result
    → IsBuilt range.from (join result range)
unfolding join
join-IsBuilt low [] range h v b = (omega arith, v, tt)
join-IsBuilt low (last ∷ result) range h v b = ground arith

covers-join :
    (n low : ℕ) (result : List BlockRange) (range : BlockRange)
    → low ≤ range.from
    → range.from ≤ range.through
    → IsBuilt low result
    → covers n (join result range) ≡ (covers n result || contains n range)
unfolding join
covers-join n low [] range h v b = ground arith
covers-join n low (last ∷ result) range h v b = ground arith

IsBuilt-Descends : (low : ℕ) (rs : List BlockRange) → IsBuilt low rs → (high : ℕ) × Descends high rs
IsBuilt-Descends low [] b = (0, tt)
IsBuilt-Descends low (r ∷ rs) b = (r.through + 2, (omega arith, b.1, b.2))

join_all-IsNormal :
    (low : ℕ) (result rest : List BlockRange)
    → IsSorted low rest
    → AllValid rest
    → IsBuilt low result
    → IsNormal (join_all result rest)
unfolding join_all
join_all-IsNormal low result [] s v b =
    let (high, d) = IsBuilt-Descends low result b in reverse-IsNormal high result d
join_all-IsNormal low result (r ∷ rest) s v b =
    join_all-IsNormal r.from (join result r) rest s.1 v.1 (join-IsBuilt low result r s.0 v.0 b)

covers-join_all :
    (n low : ℕ) (result rest : List BlockRange)
    → IsSorted low rest
    → AllValid rest
    → IsBuilt low result
    → covers n (join_all result rest) ≡ (covers n result || covers n rest)
unfolding join_all
covers-join_all n low result [] s v b = ground (arith, any-reverse (contains n) result)
covers-join_all n low result (r ∷ rest) s v b = ground (
  arith,
  covers-join_all n r.from (join result r) rest s.1 v.1 (join-IsBuilt low result r s.0 v.0 b),
  covers-join n low result r s.0 v.0 b,
)

-- The checked loop is the unchecked one, where no range is reversed.
merge_sorted-join_all :
    (result rest : List BlockRange)
    → merge_sorted result rest ≡ (if all is_valid rest then some (join_all result rest) else none)
unfolding merge_sorted join_all
merge_sorted-join_all result [] = refl
merge_sorted-join_all result (r ∷ rest) = ground (arith, merge_sorted-join_all (join result r) rest)

AllValid-all : (rs : List BlockRange) → all is_valid rs ≡ true → AllValid rs
AllValid-all [] h = tt
AllValid-all (r ∷ rs) h = ground (arith, AllValid-all rs)

-- `mergeBlockRanges` fails exactly if a range is reversed. Otherwise its result is in normal form
-- and covers the blocks that the argument covers, and no other.
pub merge_block_ranges_lem :
    (ranges : List BlockRange)
    → (all is_valid ranges ≡ false → merge_block_ranges ranges ≡ none)
      × (all is_valid ranges ≡ true
          → (out : List BlockRange) × (merge_block_ranges ranges ≡ some out)
            × IsNormal out
            × ((n : ℕ) → covers n out ≡ covers n ranges))
unfolding merge_block_ranges
merge_block_ranges_lem ranges = (bad, good)
  where
    sorted : List BlockRange
    sorted = sort_by starts_before ranges

    bad : all is_valid ranges ≡ false → merge_sorted [] sorted ≡ none
    bad h =
        ground (arith, merge_sorted-join_all [] sorted, all-sort_by is_valid starts_before ranges)

    valid : all is_valid ranges ≡ true → all is_valid sorted ≡ true
    valid h = all-sort_by is_valid starts_before ranges ∙ h

    good :
        all is_valid ranges ≡ true
        → (out : List BlockRange) × (merge_sorted [] sorted ≡ some out)
          × IsNormal out
          × ((n : ℕ) → covers n out ≡ covers n ranges)
    good h = (
      join_all [] sorted,
      ground (arith, merge_sorted-join_all [] sorted, valid h),
      join_all-IsNormal 0 [] sorted (sort_by-IsSorted ranges) (AllValid-all sorted (valid h)) tt,
      λ n.
          covers-join_all n 0 [] sorted (sort_by-IsSorted ranges) (AllValid-all sorted (valid h)) tt
          ∙ any-sort_by (contains n) starts_before ranges,
    )

abbrev coverage_inputs : List BlockRange → List ℕ → List BlockRange → List BlockRange
coverage_inputs ranges blocks scanned =
    ranges ++ scanned ++ map (λ n. record { from = n; through = n }) blocks

all_valid-singletons :
    (blocks : List ℕ) → all is_valid (map (λ n. record { from = n; through = n }) blocks) ≡ true
all_valid-singletons [] = refl
all_valid-singletons (n ∷ blocks) = ground (arith, all_valid-singletons blocks)

covers-singletons :
    (n : ℕ) (blocks : List ℕ)
    → covers n (map (λ k. record { from = k; through = k }) blocks) ≡ any (λ k. k == n) blocks
covers-singletons n [] = refl
covers-singletons n (k ∷ blocks) = ground (arith, covers-singletons n blocks)

-- `mergeCoverage` of ranges that are not reversed is in normal form, and covers a block exactly
-- if one of the old ranges, a scanned range or a batch does.
pub merge_coverage_lem :
    (ranges scanned : List BlockRange) (blocks : List ℕ)
    → all is_valid ranges ≡ true
    → all is_valid scanned ≡ true
    → IsNormal (merge_coverage ranges blocks scanned)
      × ((n : ℕ)
          → covers n (merge_coverage ranges blocks scanned)
            ≡ (covers n ranges || (covers n scanned || any (λ k. k == n) blocks)))
unfolding merge_coverage
merge_coverage_lem ranges scanned blocks h k = (
  join_all-IsNormal 0 [] sorted (sort_by-IsSorted inputs) valid tt,
  λ n.
      covers-join_all n 0 [] sorted (sort_by-IsSorted inputs) valid tt
      ∙ any-sort_by (contains n) starts_before inputs
      ∙ ground (
        arith,
        any-append (contains n) (ranges ++ scanned)
            (map (λ m. record { from = m; through = m }) blocks),
        any-append (contains n) ranges scanned,
        covers-singletons n blocks,
      ),
)
  where
    inputs : List BlockRange
    inputs = coverage_inputs ranges blocks scanned

    sorted : List BlockRange
    sorted = sort_by starts_before inputs

    all_inputs : all is_valid inputs ≡ true
    all_inputs = ground (
      arith,
      all-append is_valid (ranges ++ scanned) (map (λ m. record { from = m; through = m }) blocks),
      all-append is_valid ranges scanned,
      all_valid-singletons blocks,
    )

    valid : AllValid sorted
    valid = AllValid-all sorted (all-sort_by is_valid starts_before inputs ∙ all_inputs)
