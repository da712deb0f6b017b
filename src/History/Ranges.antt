-- ===== src/History/Ranges.antt =====
-- The chunks of `ranges` tile the requested blocks, in the order of the direction.
use ether_state.Prelude.{
  ℕ, zero, suc, ◌+◌, ◌-◌, ◌≤◌, ◌<◌, ◌≡◌, refl, subst, min, inl, inr, true, some, List, [], ◌∷◌, ltb,
  leb, ◌==◌, if◌then◌else◌, Bool-cases, arith,
}
use ether_state.Coverage.{BlockRange}
use ether_state.History.{Direction, forward, backward, forward_ranges, backward_ranges, ranges}

-- The ranges follow one another without gap from `start` up to, and without, `stop`, and each has
-- from one to `size` blocks.
abbrev pub Tiles : ℕ → ℕ → ℕ → List BlockRange → Type 0
Tiles size start stop [] = start ≡ stop
Tiles size start stop (r ∷ rs) =
    (r.from ≡ start)
    × (r.from ≤ r.through)
    × (r.through + 1 ≤ r.from + size)
    × Tiles size (r.through + 1) stop rs

-- The same from the last range to the first.
abbrev pub TilesDown : ℕ → ℕ → ℕ → List BlockRange → Type 0
TilesDown size start stop [] = start ≡ stop
TilesDown size start stop (r ∷ rs) =
    (r.through + 1 ≡ stop)
    × (r.from ≤ r.through)
    × (r.through + 1 ≤ r.from + size)
    × TilesDown size start r.from rs

abbrev pub TilesIn : Direction → ℕ → ℕ → ℕ → List BlockRange → Type 0
TilesIn forward size start stop rs = Tiles size start stop rs
TilesIn backward size start stop rs = TilesDown size start stop rs

Tiles-start :
    {start start' : ℕ} (size stop : ℕ) (rs : List BlockRange)
    → start ≡ start'
    → Tiles size start stop rs
    → Tiles size start' stop rs
Tiles-start size stop rs e t = subst (λ s. Tiles size s stop rs) e t

-- A round may step past the end: the rest then tiles nothing.
forward_ranges_tile :
    (fuel start to_block size : ℕ)
    → 0 < size
    → 0 < fuel
    → to_block + 1 < start + fuel
    → (rs : List BlockRange) × (forward_ranges fuel start to_block size ≡ some rs)
      × Tiles size (min start (to_block + 1)) (to_block + 1) rs
unfolding forward_ranges
forward_ranges_tile zero start to_block size pos k f =
    ([], absurd (omega arith), absurd (omega arith))
forward_ranges_tile (suc fuel) start to_block size pos k f =
    elim (Bool-cases (leb start to_block)) [
      | inr done ↦ rw done ([], refl, ground arith)
      | inl more ↦
          let (rs, e, t) =
            forward_ranges_tile fuel (start + size) to_block size pos (ground arith)
              (ground arith) in
          let end : ℕ = if ltb (start + size - 1) to_block then start + size - 1 else to_block in
          rw (more, e)
            (
              record { from = start; through = end } ∷ rs,
              refl,
              (
                ground arith,
                ground arith,
                ground arith,
                Tiles-start size (to_block + 1) rs (ground arith) t,
              ),
            )
    ]

TilesDown-stop :
    {stop stop' : ℕ} (size start : ℕ) (rs : List BlockRange)
    → stop ≡ stop'
    → TilesDown size start stop rs
    → TilesDown size start stop' rs
TilesDown-stop size start rs e t = subst (λ s. TilesDown size start s rs) e t

backward_ranges_tile :
    (fuel from_block end size : ℕ)
    → 0 < size
    → from_block ≤ end
    → end < from_block + fuel
    → (rs : List BlockRange) × (backward_ranges fuel from_block end size ≡ some rs)
      × TilesDown size from_block (end + 1) rs
unfolding backward_ranges
backward_ranges_tile zero from_block end size pos h f =
    ([], absurd (omega arith), absurd (omega arith))
backward_ranges_tile (suc fuel) from_block end size pos h f =
    rw runs (elim (Bool-cases (start == from_block)) [
      | inl last ↦ rw last (
        record { from = start; through = end } ∷ [],
        refl,
        (refl, ground arith, ground arith, ground arith),
      )
      | inr more ↦
          let (rs, e, t) =
            backward_ranges_tile fuel from_block (start - 1) size pos (ground arith)
              (ground arith) in
          rw (more, e)
            (
              record { from = start; through = end } ∷ rs,
              refl,
              (
                refl,
                ground arith,
                ground arith,
                TilesDown-stop size from_block rs (ground arith) t,
              ),
            )
    ])
  where
    start : ℕ
    start = if ltb from_block (end + 1 - size) then end + 1 - size else from_block

    runs : leb from_block end ≡ true
    runs = ground arith

-- Where the bounds are in order and the chunk size is positive, `ranges` does not run out of fuel, its
-- ranges tile the blocks from `from_block` through `to_block` in the given direction, and each has
-- from one to `chunk_size` blocks.
pub ranges_tile :
    (direction : Direction) (from_block to_block chunk_size : ℕ)
    → 0 < chunk_size
    → from_block ≤ to_block
    → (rs : List BlockRange) × (ranges from_block to_block chunk_size direction ≡ some rs)
      × TilesIn direction chunk_size from_block (to_block + 1) rs
unfolding ranges
ranges_tile forward from_block to_block chunk_size pos h =
    let (rs, e, t) =
      forward_ranges_tile (to_block + 2) from_block to_block chunk_size pos (omega arith)
        (omega arith) in
    (rs, e, Tiles-start chunk_size (to_block + 1) rs (omega arith) t)
ranges_tile backward from_block to_block chunk_size pos h =
    backward_ranges_tile (to_block + 2) from_block to_block chunk_size pos h (omega arith)
