-- ===== src/Coverage/Canonical.antt =====
-- The normal form is unique: the merged list depends on the covered blocks only.
use ether_state.Prelude.{ℕ, ◌≡◌, List}
use ether_state.Coverage.{BlockRange, covers}

abbrev SameBlocks : List BlockRange → List BlockRange → Type 0
SameBlocks rs ss = (n : ℕ) → covers n rs ≡ covers n ss
