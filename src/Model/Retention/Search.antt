-- ===== src/Model/Retention/Search.antt =====
-- The search for the first block that is not too old.
use ether_state.Prelude.{
  ℕ, zero, suc, ◌+◌, ◌/◌, ◌≤◌, ◌<◌, ◌≡◌, refl, subst, some, ltb, leb, Bool-cases, inl, inr, arith,
}
use ether_state.Prelude.Results.{ok}
use ether_state.ModelStore.{IndexedBlock}
use ether_state.Model.{Blocks, block_at}
use ether_state.Model.Retention.{search}

-- A chain up to a block: its blocks are there, and their timestamps do not go back.
pub record IsChain (blocks : Blocks) (at : ℕ → IndexedBlock) (block : IndexedBlock) : Type 0 where
  pub gives : (n : ℕ) → n ≤ block.number → block_at blocks n ≡ ok (at n)
  pub rises : (i j : ℕ) → i ≤ j → j ≤ block.number → (at i).timestamp ≤ (at j).timestamp
  pub last : at block.number ≡ block

-- The first block from `low` on that is not older than the target, or `high`.
pub record IsFirst (at : ℕ → IndexedBlock) (target low high n : ℕ) : Type 0 where
  pub within : (low ≤ n) × (n ≤ high)
  pub older : (k : ℕ) → low ≤ k → k < n → (at k).timestamp < target
  pub newer : n < high → target ≤ (at n).timestamp

module _ (blocks : Blocks) (at : ℕ → IndexedBlock) (block : IndexedBlock)
    (chain : IsChain blocks at block) (target : ℕ) where
  pub search_lem :
      (fuel low high : ℕ)
      → low ≤ high
      → high ≤ block.number
      → high < fuel + low
      → (n : ℕ) × (search blocks target fuel low high ≡ some (ok n)) × IsFirst at target low high n
  unfolding search
  search_lem zero low high le top enough = absurd (omega (arith, le, enough))
  search_lem (suc fuel) low high le top enough = elim (Bool-cases (ltb low high)) [
    | inr over ↦ (
      low,
      rw (over, search) refl,
      record {
        within = (omega arith, le);
        older = λ k l h. absurd (omega (arith, l, h));
        newer = λ h. absurd (ground (arith, over, h));
      },
    )
    | inl more ↦
        let middle : ℕ = (low + high) / 2 in
        let gave = chain.gives middle (ground (arith, more, top)) in
        elim (Bool-cases (ltb (at middle).timestamp target)) [
          | inl old ↦
              let r =
                search_lem fuel (middle + 1) high (ground (arith, more)) top
                  (ground (arith, more, enough)) in
              (
                r.0,
                rw (more, gave, old, search) r.1,
                record {
                  within = (ground (arith, more, r.2.within.0), r.2.within.1);
                  older = λ k l h. elim (Bool-cases (leb k middle)) [
                    | inl early ↦ ground (
                      arith,
                      old,
                      chain.rises k middle (ground (arith, early)) (ground (arith, more, top)),
                    )
                    | inr late ↦ r.2.older k (ground (arith, late)) h
                  ];
                  newer = r.2.newer;
                },
              )
          | inr young ↦
              let r =
                search_lem fuel low middle (ground (arith, more)) (ground (arith, more, top))
                  (ground (arith, more, enough)) in
              (
                r.0,
                rw (more, gave, young, search) r.1,
                record {
                  within = (r.2.within.0, ground (arith, more, r.2.within.1));
                  older = r.2.older;
                  newer = λ h. elim (Bool-cases (ltb r.0 middle)) [
                    | inl below ↦ r.2.newer (ground (arith, below))
                    | inr at_middle ↦
                        subst (λ n. target ≤ (at n).timestamp) {x = middle} {y = r.0}
                          (ground (arith, r.2.within.1, at_middle)) (ground (arith, young))
                  ];
                },
              )
        ]
  ]
