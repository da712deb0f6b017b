-- ===== src/Coverage/Blocks.antt =====
-- `rangesFromBlocks`: the coverage that a commit infers from its batches.
use ether_state.Prelude.{
  ℕ, ◌+◌, ◌≤◌, ◌<◌, ◌≡◌, refl, ◌∙◌, Bool, ◌||◌, List, [], ◌∷◌, ltb, ◌==◌, any, any-reverse,
  any-sort_by, sort_by, insert_by, arith,
}
use ether_state.Coverage.{
  BlockRange, contains, covers, drop_repeats, push_number, push_numbers, ranges_from_blocks,
}
use ether_state.Coverage.Normal.{IsNormal, Descends, reverse-IsNormal}

abbrev mentions : ℕ → List ℕ → Bool
mentions n numbers = any (λ k. k == n) numbers

abbrev Rises : ℕ → List ℕ → Type 0
Rises low [] = Unit {0}
Rises low (n ∷ ns) = (low ≤ n) × Rises n ns

-- Each number is beyond the one before.
abbrev Climbs : ℕ → List ℕ → Type 0
Climbs low [] = Unit {0}
Climbs low (n ∷ ns) = (low ≤ n) × Climbs (n + 1) ns

insert_by-Rises :
    (low n : ℕ) (ns : List ℕ) → low ≤ n → Rises low ns → Rises low (insert_by ltb n ns)
insert_by-Rises low n [] h r = (h, tt)
insert_by-Rises low n (m ∷ ns) h r = ground (arith, insert_by-Rises m n ns)

sort_by-Rises : (ns : List ℕ) → Rises 0 (sort_by ltb ns)
sort_by-Rises [] = tt
sort_by-Rises (n ∷ ns) = insert_by-Rises 0 n (sort_by ltb ns) (omega arith) (sort_by-Rises ns)

Climbs-mono : (low low' : ℕ) (ns : List ℕ) → low' ≤ low → Climbs low ns → Climbs low' ns
Climbs-mono low low' [] h c = tt
Climbs-mono low low' (n ∷ ns) h c = (omega arith, c.1)

drop_repeats-Climbs : (low : ℕ) (ns : List ℕ) → Rises low ns → Climbs low (drop_repeats ns)
unfolding drop_repeats
drop_repeats-Climbs low [] r = tt
drop_repeats-Climbs low (n ∷ []) r = (r.0, tt)
drop_repeats-Climbs low (n ∷ m ∷ ns) r =
    ground (arith, drop_repeats-Climbs low (m ∷ ns), drop_repeats-Climbs (n + 1) (m ∷ ns))

mentions-drop_repeats : (k : ℕ) (ns : List ℕ) → mentions k (drop_repeats ns) ≡ mentions k ns
unfolding drop_repeats
mentions-drop_repeats k [] = refl
mentions-drop_repeats k (n ∷ []) = refl
mentions-drop_repeats k (n ∷ m ∷ ns) = ground (arith, mentions-drop_repeats k (m ∷ ns))

-- What has been pushed: a normal list, last range first, that ends before `low`.
abbrev IsPushed : ℕ → List BlockRange → Type 0
IsPushed low [] = Unit {0}
IsPushed low (r ∷ rs) = (r.through < low) × (r.from ≤ r.through) × Descends r.from rs

push_number-IsPushed :
    (low : ℕ) (result : List BlockRange) (n : ℕ)
    → low ≤ n
    → IsPushed low result
    → IsPushed (n + 1) (push_number result n)
unfolding push_number
push_number-IsPushed low [] n h p = (omega arith, omega arith, tt)
push_number-IsPushed low (r ∷ rs) n h p = ground arith

covers-push_number :
    (k low : ℕ) (result : List BlockRange) (n : ℕ)
    → low ≤ n
    → IsPushed low result
    → covers k (push_number result n) ≡ (covers k result || n == k)
unfolding push_number
covers-push_number k low [] n h p = ground arith
covers-push_number k low (r ∷ rs) n h p = ground arith

IsPushed-Descends : (low : ℕ) (rs : List BlockRange) → IsPushed low rs → Descends (low + 1) rs
IsPushed-Descends low [] p = tt
IsPushed-Descends low (r ∷ rs) p = (omega arith, p.1, p.2)

push_numbers-IsNormal :
    (low : ℕ) (result : List BlockRange) (ns : List ℕ)
    → IsPushed low result
    → Climbs low ns
    → IsNormal (push_numbers result ns)
unfolding push_numbers
push_numbers-IsNormal low result [] p c =
    reverse-IsNormal (low + 1) result (IsPushed-Descends low result p)
push_numbers-IsNormal low result (n ∷ ns) p c =
    push_numbers-IsNormal (n + 1) (push_number result n) ns
      (push_number-IsPushed low result n c.0 p) c.1

covers-push_numbers :
    (k low : ℕ) (result : List BlockRange) (ns : List ℕ)
    → IsPushed low result
    → Climbs low ns
    → covers k (push_numbers result ns) ≡ (covers k result || mentions k ns)
unfolding push_numbers
covers-push_numbers k low result [] p c = ground (arith, any-reverse (contains k) result)
covers-push_numbers k low result (n ∷ ns) p c = ground (
  arith,
  covers-push_numbers k (n + 1) (push_number result n) ns (push_number-IsPushed low result n c.0 p)
      c.1,
  covers-push_number k low result n c.0 p,
)

-- `rangesFromBlocks` gives the normal form of exactly the blocks that are listed, in whatever
-- order and however often.
pub ranges_from_blocks_lem :
    (numbers : List ℕ)
    → IsNormal (ranges_from_blocks numbers)
      × ((n : ℕ) → covers n (ranges_from_blocks numbers) ≡ any (λ k. k == n) numbers)
unfolding ranges_from_blocks
ranges_from_blocks_lem numbers = (
  push_numbers-IsNormal 0 [] distinct tt climbs,
  λ n.
      covers-push_numbers n 0 [] distinct tt climbs
      ∙ mentions-drop_repeats n (sort_by ltb numbers)
      ∙ any-sort_by (λ k. k == n) ltb numbers,
)
  where
    distinct : List ℕ
    distinct = drop_repeats (sort_by ltb numbers)

    climbs : Climbs 0 distinct
    climbs = drop_repeats-Climbs 0 (sort_by ltb numbers) (sort_by-Rises numbers)
