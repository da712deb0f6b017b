-- ===== src/Tests/CoverageTests.antt =====
-- Block ranges at concrete inputs.
use ether_state.Prelude.{ℕ, ◌+◌, ◌≡◌, refl, true, false, some, List, [], ◌∷◌, arith}
use ether_state.Coverage.{
  BlockRange, covers, merge_block_ranges, missing_range, missing_down, window_below,
}
use ether_state.Coverage.Normal.{IsNormal}
use ether_state.Coverage.Merge.{merge_block_ranges_lem}
use ether_state.Coverage.Missing.{IsWindow, Between, missing_range_lem}

abbrev through : ℕ → ℕ → BlockRange
through from last = record { from = from; through = last }

abbrev scattered : List BlockRange
scattered = through 5 9 ∷ through 0 2 ∷ through 3 3 ∷ []

merge_block_ranges_lem_example :
    (out : List BlockRange) × (merge_block_ranges scattered ≡ some out)
    × IsNormal out
    × ((n : ℕ) → covers n out ≡ covers n scattered)
merge_block_ranges_lem_example = (merge_block_ranges_lem scattered).1 refl

abbrev cut_otherwise : List BlockRange
cut_otherwise = through 5 7 ∷ through 6 9 ∷ through 0 3 ∷ []

abbrev held : List BlockRange
held = through 2 4 ∷ through 8 9 ∷ []

held-IsNormal : IsNormal held
held-IsNormal = ground arith

missing_range_lem_example :
    IsWindow 0 9 3 (through 5 7)
    × ((n : ℕ) → Between 5 n 7 → covers n held ≡ false)
    × ((n : ℕ) → Between (7 + 1) n 9 → covers n held ≡ true)
unfolding missing_range missing_down window_below
missing_range_lem_example =
    (missing_range_lem held 0 9 3 held-IsNormal (omega arith)).0 (through 5 7) refl
