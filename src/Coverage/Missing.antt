-- ===== src/Coverage/Missing.antt =====
-- The next window to fetch: `missingRange` and `missingForwardRange` against the coverage.
use ether_state.Prelude.{
  ℕ, ◌+◌, ◌≤◌, ◌<◌, ◌≡◌, refl, sym, ◌∙◌, true, false, none, some, List, [], ◌∷◌, reverse,
  any-reverse, arith,
}
use ether_state.Coverage.{
  BlockRange, contains, covers, missing_down, missing_range, missing_forward_range,
}
use ether_state.Coverage.Normal.{IsNormal, Ascends, Descends, reverse-Descends}

covers-beyond :
    (high n : ℕ) (rs : List BlockRange) → Descends high rs → high ≤ n + 1 → covers n rs ≡ false
covers-beyond high n [] d h = refl
covers-beyond high n (r ∷ rs) d h = ground (arith, covers-beyond r.from n rs d.2)

missing_down_full :
    (rs : List BlockRange) (from stop size n : ℕ)
    → missing_down rs from stop size ≡ none
    → from ≤ n
    → n < stop
    → covers n rs ≡ true
unfolding missing_down
missing_down_full [] from stop size n e lo hi = ground arith
missing_down_full (r ∷ rs) from stop size n e lo hi =
    ground (arith, missing_down_full rs from stop size n, missing_down_full rs from r.from size n)

missing_down_bounds :
    (rs : List BlockRange) (from stop size : ℕ) (gap : BlockRange)
    → 0 < size
    → missing_down rs from stop size ≡ some gap
    → (from ≤ gap.from)
      × (gap.from ≤ gap.through)
      × (gap.through < stop)
      × (gap.through + 1 ≤ gap.from + size)
unfolding missing_down
missing_down_bounds [] from stop size gap pos e = ground arith
missing_down_bounds (r ∷ rs) from stop size gap pos e = ground (
  arith,
  missing_down_bounds rs from stop size gap pos,
  missing_down_bounds rs from r.from size gap pos,
)

missing_down_uncovered :
    (high : ℕ) (rs : List BlockRange) (from stop size n : ℕ) (gap : BlockRange)
    → Descends high rs
    → 0 < size
    → missing_down rs from stop size ≡ some gap
    → gap.from ≤ n
    → n ≤ gap.through
    → covers n rs ≡ false
unfolding missing_down
missing_down_uncovered high [] from stop size n gap d pos e lo hi = refl
missing_down_uncovered high (r ∷ rs) from stop size n gap d pos e lo hi = ground (
  arith,
  missing_down_uncovered r.from rs from stop size n gap d.2 pos,
  missing_down_uncovered r.from rs from r.from size n gap d.2 pos,
  missing_down_bounds rs from r.from size gap pos,
  missing_down_bounds rs from stop size gap pos,
  covers-beyond r.from n rs d.2,
)

missing_down_full_above :
    (rs : List BlockRange) (from stop size n : ℕ) (gap : BlockRange)
    → missing_down rs from stop size ≡ some gap
    → gap.through < n
    → n < stop
    → covers n rs ≡ true
unfolding missing_down
missing_down_full_above [] from stop size n gap e lo hi = ground arith
missing_down_full_above (r ∷ rs) from stop size n gap e lo hi = ground (
  arith,
  missing_down_full_above rs from stop size n gap,
  missing_down_full_above rs from r.from size n gap,
)

-- A window is in bounds, not empty and of `size` blocks at most.
abbrev pub IsWindow : ℕ → ℕ → ℕ → BlockRange → Type 0
IsWindow from through size gap =
    (from ≤ gap.from)
    × (gap.from ≤ gap.through)
    × (gap.through ≤ through)
    × (gap.through + 1 ≤ gap.from + size)

abbrev pub Between : ℕ → ℕ → ℕ → Type 0
Between from n through = (from ≤ n) × (n ≤ through)

-- On coverage in normal form, a window of `missingRange` is in bounds, not empty, no longer than
-- `size`, and holds no covered block; every block from its end up to `through` is covered.
-- Where there is no window, every block from `from` through `through` is covered.
pub missing_range_lem :
    (ranges : List BlockRange) (from through size : ℕ)
    → IsNormal ranges
    → 0 < size
    → ((gap : BlockRange)
        → missing_range ranges from through size ≡ some gap
        → IsWindow from through size gap
          × ((n : ℕ) → Between gap.from n gap.through → covers n ranges ≡ false)
          × ((n : ℕ) → Between (gap.through + 1) n through → covers n ranges ≡ true))
      × (missing_range ranges from through size ≡ none
          → (n : ℕ) → Between from n through
          → covers n ranges ≡ true)
unfolding missing_range
missing_range_lem ranges from through size normal pos = (found, full)
  where
    same : (n : ℕ) → covers n (reverse ranges) ≡ covers n ranges
    same n = any-reverse (contains n) ranges

    found :
        (gap : BlockRange)
        → missing_down (reverse ranges) from (through + 1) size ≡ some gap
        → IsWindow from through size gap
          × ((n : ℕ) → Between gap.from n gap.through → covers n ranges ≡ false)
          × ((n : ℕ) → Between (gap.through + 1) n through → covers n ranges ≡ true)
    found gap e =
        let (high, d) = reverse-Descends ranges normal in
        let bounds = missing_down_bounds (reverse ranges) from (through + 1) size gap pos e in
        (
          (bounds.0, bounds.1, omega arith, bounds.3),
          λ n b.
              sym (same n)
              ∙ missing_down_uncovered high (reverse ranges) from (through + 1) size n gap d pos e
                  b.0 b.1,
          λ n b.
              sym (same n)
              ∙ missing_down_full_above (reverse ranges) from (through + 1) size n gap e
                  (omega arith) (omega arith),
        )

    full :
        missing_down (reverse ranges) from (through + 1) size ≡ none
        → (n : ℕ) → Between from n through
        → covers n ranges ≡ true
    full e n b =
        sym (same n)
        ∙ missing_down_full (reverse ranges) from (through + 1) size n e b.0 (omega arith)

covers-before : (low n : ℕ) (rs : List BlockRange) → Ascends low rs → n < low → covers n rs ≡ false
covers-before low n [] a h = refl
covers-before low n (r ∷ rs) a h = ground (arith, covers-before (r.through + 2) n rs a.2)

missing_forward_bounds :
    (rs : List BlockRange) (from through size : ℕ) (gap : BlockRange)
    → 0 < size
    → missing_forward_range rs from through size ≡ some gap
    → IsWindow from through size gap
unfolding missing_forward_range
missing_forward_bounds [] from through size gap pos e = ground arith
missing_forward_bounds (r ∷ rs) from through size gap pos e = ground (
  arith,
  missing_forward_bounds rs from through size gap pos,
  missing_forward_bounds rs (r.through + 1) through size gap pos,
)

missing_forward_uncovered :
    (low : ℕ) (rs : List BlockRange) (from through size n : ℕ) (gap : BlockRange)
    → Ascends low rs
    → 0 < size
    → missing_forward_range rs from through size ≡ some gap
    → gap.from ≤ n
    → n ≤ gap.through
    → covers n rs ≡ false
unfolding missing_forward_range
missing_forward_uncovered low [] from through size n gap a pos e lo hi = refl
missing_forward_uncovered low (r ∷ rs) from through size n gap a pos e lo hi = ground (
  arith,
  missing_forward_uncovered (r.through + 2) rs from through size n gap a.2 pos,
  missing_forward_uncovered (r.through + 2) rs (r.through + 1) through size n gap a.2 pos,
  missing_forward_bounds rs from through size gap pos,
  missing_forward_bounds rs (r.through + 1) through size gap pos,
  covers-before (r.through + 2) n rs a.2,
)

missing_forward_full :
    (rs : List BlockRange) (from through size n : ℕ)
    → missing_forward_range rs from through size ≡ none
    → from ≤ n
    → n ≤ through
    → covers n rs ≡ true
unfolding missing_forward_range
missing_forward_full [] from through size n e lo hi = ground arith
missing_forward_full (r ∷ rs) from through size n e lo hi = ground (
  arith,
  missing_forward_full rs from through size n,
  missing_forward_full rs (r.through + 1) through size n,
)

missing_forward_full_below :
    (rs : List BlockRange) (from through size n : ℕ) (gap : BlockRange)
    → missing_forward_range rs from through size ≡ some gap
    → from ≤ n
    → n < gap.from
    → covers n rs ≡ true
unfolding missing_forward_range
missing_forward_full_below [] from through size n gap e lo hi = ground arith
missing_forward_full_below (r ∷ rs) from through size n gap e lo hi = ground (
  arith,
  missing_forward_full_below rs from through size n gap,
  missing_forward_full_below rs (r.through + 1) through size n gap,
)

-- The same of `missingForwardRange`, whose window is the first: every block from `from` up to the
-- window is covered.
pub missing_forward_range_lem :
    (ranges : List BlockRange) (from through size : ℕ)
    → IsNormal ranges
    → 0 < size
    → ((gap : BlockRange)
        → missing_forward_range ranges from through size ≡ some gap
        → IsWindow from through size gap
          × ((n : ℕ) → Between gap.from n gap.through → covers n ranges ≡ false)
          × ((n : ℕ) → from ≤ n → n < gap.from → covers n ranges ≡ true))
      × (missing_forward_range ranges from through size ≡ none
          → (n : ℕ) → Between from n through
          → covers n ranges ≡ true)
missing_forward_range_lem ranges from through size normal pos = (
  λ gap e. (
    missing_forward_bounds ranges from through size gap pos e,
    λ n b. missing_forward_uncovered 0 ranges from through size n gap normal pos e b.0 b.1,
    λ n lo hi. missing_forward_full_below ranges from through size n gap e lo hi,
  ),
  λ e n b. missing_forward_full ranges from through size n e b.0 b.1,
)
