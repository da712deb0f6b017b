-- ===== src/ModelStore/Predecessor.antt =====
-- The block that `invalidate` takes the fork time from.
use ether_state.Prelude.{
  ℕ, ◌≤◌, ◌<◌, ◌≡◌, refl, sym, subst, Bool, Option, none, some, List, [], ◌∷◌, map, ltb, leb,
  ==_iff, if◌then◌else◌, keep, sort_by, insert_by, Bool-cases, inl, inr, arith,
}
use ether_state.Prelude.JsMap
use ether_state.Prelude.JsMap.{Eq, nat_eq, IsMap, when}
use ether_state.Prelude.Texts.{text_eq}
use ether_state.ModelStore.{ModelBatch, predecessor, first}
use ether_state.ModelStore.Sound.{Names}

abbrev higher : ModelBatch → ModelBatch → Bool
higher a b = ltb b.block.number a.block.number

-- The higher of a batch and another, when there is one.
abbrev pick : ModelBatch → Option ModelBatch → Option ModelBatch
pick b none = some b
pick b (some c) = if ltb b.block.number c.block.number then some c else some b

first-insert_by :
    (b : ModelBatch) (bs : List ModelBatch) → first (insert_by higher b bs) ≡ pick b (first bs)
first-insert_by b [] = refl
first-insert_by b (c ∷ cs) = ground arith

abbrev up_to : ℕ → List (ℕ × ModelBatch) → List ModelBatch
up_to from m = keep (λ b. leb b.block.number from) (map (λ entry. entry.1) m)

abbrev pub IsLast : ℕ → List (ℕ × ModelBatch) → Option ModelBatch → Type 0
IsLast from m none = (n : ℕ) → n ≤ from → JsMap.get n m ≡ none
IsLast from m (some b) =
    (b.block.number ≤ from)
    × (JsMap.get b.block.number m ≡ some b)
    × ((n : ℕ) → n ≤ from → b.block.number < n → JsMap.get n m ≡ none)

tail-Names :
    (n : ℕ) (b : ModelBatch) (m : List (ℕ × ModelBatch))
    → IsMap ((n, b) ∷ m)
    → Names (λ b. b.block.number) ((n, b) ∷ m)
    → Names (λ b. b.block.number) m
tail-Names n b m d names k v h = ground (arith, names k v, ==_iff n k, h, d)

add-IsLast :
    (from n : ℕ) (b : ModelBatch) (m : List (ℕ × ModelBatch)) (o : Option ModelBatch)
    → JsMap.get n m ≡ none
    → b.block.number ≡ n
    → IsLast from m o
    → IsLast from ((n, b) ∷ m) (if leb b.block.number from then pick b o else o)
add-IsLast from n b m none new name last = elim (Bool-cases (leb b.block.number from)) [
  | inl low ↦
      rw low (
        ground arith,
        ground (arith, name),
        λ k h l. ground (arith, last k, name, ==_iff n k, h, l),
      )
  | inr high ↦ rw high (λ k h. ground (arith, last k, name, ==_iff n k, h))
]
add-IsLast from n b m (some c) new name last = elim (Bool-cases (leb b.block.number from)) [
  | inl low ↦ elim (Bool-cases (ltb b.block.number c.block.number)) [
    | inl below ↦
        rw (low, below)
          (
            last.0,
            ground (arith, last, name, below),
            λ k h l. ground (arith, last.2 k, name, ==_iff n k, h, l, below),
          )
    | inr above ↦
        rw (low, above)
          (
            ground arith,
            ground (arith, name),
            λ k h l. ground (arith, last, last.2 k, name, ==_iff n k, new, h, l),
          )
  ]
  | inr high ↦ rw high (
    last.0,
    ground (arith, last, name, new),
    λ k h l. ground (arith, last.2 k, name, ==_iff n k, h, l),
  )
]

first-sort :
    (from n : ℕ) (b : ModelBatch) (m : List (ℕ × ModelBatch))
    → first (sort_by higher (up_to from ((n, b) ∷ m))) ≡ (
        if leb b.block.number from
        then pick b (first (sort_by higher (up_to from m)))
        else first (sort_by higher (up_to from m)))
first-sort from n b m = ground (arith, first-insert_by b (sort_by higher (up_to from m)))

sorted-IsLast :
    (from : ℕ) (m : List (ℕ × ModelBatch))
    → IsMap m
    → Names (λ b. b.block.number) m
    → IsLast from m (first (sort_by higher (up_to from m)))
sorted-IsLast from [] d names = λ n h. refl
sorted-IsLast from ((n, b) ∷ m) d names =
    subst (IsLast from ((n, b) ∷ m)) (sym (first-sort from n b m)) (
      add-IsLast from n b m (first (sort_by higher (up_to from m))) d.0 (ground (arith, names n b))
        (sorted-IsLast from m d.1 (tail-Names n b m d names)))

-- Of the batches of an instance, each under its own number, `predecessor` is the one with the
-- highest number up to `from`, and none when there is none.
pub predecessor_lem :
    (from : ℕ) (m : List (ℕ × ModelBatch))
    → IsMap m
    → Names (λ b. b.block.number) m
    → IsLast from m (predecessor from m)
unfolding predecessor
predecessor_lem from m d names = sorted-IsLast from m d names
