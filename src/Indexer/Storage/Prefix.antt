-- ===== src/Indexer/Storage/Prefix.antt =====
-- The newest blocks of a chain, which are those that a rollback drops.
use ether_state.Prelude.{ℕ, ◌<◌, ◌≤◌, ◌≡◌, refl, List, [], ◌∷◌, ◌++◌, ltb, keep, arith}
use ether_state.ModelStore.{IndexedBlock}
use ether_state.Indexer.Storage.Chain.{IsChain, IsBelow, tail-IsBelow}

keep-lower :
    (n : ℕ) (rest older : List IndexedBlock)
    → IsBelow n (rest ++ older)
    → keep (λ b. ltb n b.number) rest ≡ []
keep-lower n [] older l = refl
keep-lower n (b ∷ rest) older l = ground (arith, l.0, keep-lower n rest older l.1)

IsBelow-member :
    (n : ℕ) (passed : List IndexedBlock) (a : IndexedBlock) (rest : List IndexedBlock)
    → IsBelow n (passed ++ a ∷ rest)
    → a.number < n
IsBelow-member n [] a rest l = l.0
IsBelow-member n (b ∷ passed) a rest l = IsBelow-member n passed a rest l.1

module _ (number_of : ℕ → ℕ) (start : ℕ) where
  -- The blocks above one of the chain.
  pub keep-higher :
      (passed : List IndexedBlock) (a : IndexedBlock) (rest older : List IndexedBlock)
      → IsChain number_of start (passed ++ a ∷ (rest ++ older))
      → keep (λ b. ltb a.number b.number) (passed ++ a ∷ rest) ≡ passed
  keep-higher [] a rest older c =
      ground
        (arith, keep-lower a.number rest older (tail-IsBelow number_of start a (rest ++ older) c))
  keep-higher (b ∷ passed) a rest older c =
      let below = tail-IsBelow number_of start b (passed ++ a ∷ (rest ++ older)) c in
      ground (
        arith,
        IsBelow-member b.number passed a (rest ++ older) below,
        keep-higher passed a rest older c.2,
      )

  pub start-IsChain_le :
      (b : IndexedBlock) (bs : List IndexedBlock)
      → IsChain number_of start (b ∷ bs)
      → start ≤ b.number
  start-IsChain_le b [] c = omega (arith, c.1)
  start-IsChain_le b (parent ∷ bs) c = omega (arith, c.1.0, start-IsChain_le parent bs c.2)
