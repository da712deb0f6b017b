-- ===== src/Model/Retention/Kept.antt =====
-- Where the history that is kept begins.
use ether_state.Prelude.{
  ℕ, ◌+◌, ◌≤◌, ◌<◌, ◌≡◌, refl, sym, ap, ◌∙◌, subst, Option, none, some, ltb, Bool-cases, ◌⊎◌, inl,
  inr, arith, max, ◌≢◌,
}
use ether_state.Prelude.Results.{ok}
use ether_state.ModelStore.{IndexedBlock}
use ether_state.Model.{Blocks}
use ether_state.Model.Retention.{
  Retention, BoundaryPlan, Boundary, start_of, blocks_of, seconds_of, raise_to, before,
  first_retained, oldest_time, history_from, recovery_from, store_from, retention_boundary,
}
use ether_state.Model.Retention.Search.{IsChain, search_lem}

-- The last `count` of the blocks up to `number`, if there is a count.
abbrev pub InBlocks : Option ℕ → ℕ → ℕ → Type 0
InBlocks none number n = Unit {0}
InBlocks (some count) number n = number < n + count

-- The blocks of the last `seconds`, if there are seconds.
abbrev pub InSeconds : Option ℕ → ℕ → ℕ → Type 0
InSeconds none now timestamp = Unit {0}
InSeconds (some seconds) now timestamp = oldest_time seconds now ≤ timestamp

-- A block that may be left out: it is before the start, or not even the one before those retained.
abbrev pub MayGo : BoundaryPlan → (ℕ → IndexedBlock) → IndexedBlock → ℕ → Type 0
MayGo plan at block n =
    (n < start_of plan)
    ⊎ (¬ InBlocks (blocks_of plan) block.number (n + 1))
    ⊎ (¬ InSeconds (seconds_of plan) block.timestamp (at (n + 1)).timestamp)

pub record IsKept (plan : BoundaryPlan) (at : ℕ → IndexedBlock) (block : IndexedBlock) (from : ℕ)
    : Type 0 where
  pub within : from ≤ block.number
  pub keeps :
      (n : ℕ)
      → n ≤ block.number
      → start_of plan ≤ n
      → InBlocks (blocks_of plan) block.number n
      → InSeconds (seconds_of plan) block.timestamp (at n).timestamp
      → from ≤ n
  pub exact : (n : ℕ) → n < from → MayGo plan at block n
  pub only :
      (n : ℕ)
      → from < n
      → n ≤ block.number
      → InBlocks (blocks_of plan) block.number n
        × InSeconds (seconds_of plan) block.timestamp (at n).timestamp

abbrev from_blocks : BoundaryPlan → IndexedBlock → ℕ
from_blocks plan block = elim (blocks_of plan) [
  | none ↦ start_of plan
  | some count ↦ raise_to (before (first_retained count block.number)) (start_of plan)
]

record IsFrom (plan : BoundaryPlan) (block : IndexedBlock) (from : ℕ) : Type 0 where
  pub within : from ≤ block.number
  pub keeps : (n : ℕ) → start_of plan ≤ n → InBlocks (blocks_of plan) block.number n → from ≤ n
  pub exact :
      (n : ℕ) → n < from → (n < start_of plan) ⊎ (¬ InBlocks (blocks_of plan) block.number (n + 1))
  pub only : (n : ℕ) → from < n → InBlocks (blocks_of plan) block.number n

from_blocks-IsFrom :
    (plan : BoundaryPlan) (block : IndexedBlock)
    → start_of plan ≤ block.number
    → IsFrom plan block (from_blocks plan block)
from_blocks-IsFrom plan block le = go (blocks_of plan) refl
  where
    go : (count : Option ℕ) → blocks_of plan ≡ count → IsFrom plan block (from_blocks plan block)
    go none e =
        rw (e, from_blocks)
          (record {
            within = le;
            keeps = λ n l h. l;
            exact = λ n h. inl h;
            only = λ n h. subst (λ c. InBlocks c block.number n) (sym e) tt;
          })
    go (some count) e =
        rw (e, from_blocks)
          (record {
            within = ground (arith, le);
            keeps = λ n l h. ground (arith, l, subst (λ c. InBlocks c block.number n) e h);
            exact = λ n h. elim (Bool-cases (ltb n (start_of plan))) [
              | inl early ↦ inl (ground (arith, early))
              | inr late ↦
                  inr
                    (λ i. ground (arith, h, late, subst (λ c. InBlocks c block.number (n + 1)) e i))
            ];
            only = λ n h. subst (λ c. InBlocks c block.number n) (sym e) (ground (arith, h));
          })

history_from_lem :
    (blocks : Blocks) (plan : BoundaryPlan) (at : ℕ → IndexedBlock) (block : IndexedBlock)
    → IsChain blocks at block
    → start_of plan ≤ block.number
    → (from : ℕ) × (history_from blocks plan block ≡ some (ok from)) × IsKept plan at block from
unfolding history_from
history_from_lem blocks plan at block chain le = go (seconds_of plan) refl
  where
    i : IsFrom plan block (from_blocks plan block)
    i = from_blocks-IsFrom plan block le

    go :
        (seconds : Option ℕ)
        → seconds_of plan ≡ seconds
        → (from : ℕ) × (history_from blocks plan block ≡ some (ok from)) × IsKept plan at block from
    go none e = (
      from_blocks plan block,
      rw (e, history_from) refl,
      record {
        within = i.within;
        keeps = λ n l s b t. i.keeps n s b;
        exact = λ n h. elim (i.exact n h) [ inl early ↦ inl early | inr out ↦ inr (inl out) ];
        only = λ n h le.
            (i.only n h, subst (λ c. InSeconds c block.timestamp (at n).timestamp) (sym e) tt);
      },
    )
    go (some seconds) e =
        let target : ℕ = oldest_time seconds block.timestamp in
        let found =
          search_lem blocks at block chain target (block.number + 1) 0 block.number (omega arith)
            (omega arith) (omega arith) in
        let low = found.0 in
        let f = found.2 in
        (
          raise_to (before low) (from_blocks plan block),
          rw (e, found.1, history_from) refl,
          record {
            within = ground (arith, i.within, f.within.1);
            keeps = λ n l s b t. elim (Bool-cases (ltb n low)) [
              | inl early ↦ absurd (
                  omega (
                    arith,
                    f.older n (omega arith) (ground (arith, early)),
                    subst (λ c. InSeconds c block.timestamp (at n).timestamp) e t,
                  ))
              | inr late ↦ ground (arith, late, i.keeps n s b)
            ];
            exact = λ n h. elim (Bool-cases (ltb n (from_blocks plan block))) [
              | inl early ↦ elim (i.exact n (ground (arith, early))) [
                | inl start ↦ inl start
                | inr out ↦ inr (inl out)
              ]
              | inr late ↦
                  let old = f.older (n + 1) (omega arith) (ground (arith, h, late)) in
                  inr (
                    inr (λ t. omega (
                      arith,
                      old,
                      subst (λ c. InSeconds c block.timestamp (at (n + 1)).timestamp) e t,
                    )))
            ];
            only = λ n h top. (
              i.only n (ground (arith, h)),
              subst (λ c. InSeconds c block.timestamp (at n).timestamp) (sym e)
                  (elim (Bool-cases (ltb low block.number)) [
                    | inl inside ↦ omega (
                      arith,
                      f.newer (ground (arith, inside)),
                      chain.rises low n (ground (arith, h)) top,
                    )
                    | inr at_end ↦
                        subst (λ b. target ≤ b.timestamp)
                          (sym (ap at (ground (arith, h, top, at_end, f.within.1)) ∙ chain.last))
                          (ground arith)
                  ]),
            );
          },
        )

-- What is kept of the history of a chain.
pub record IsBoundary (plan : BoundaryPlan) (at : ℕ → IndexedBlock) (block : IndexedBlock)
    (value : Boundary) : Type 0 where
  pub from : ℕ
  pub kept : IsKept plan at block from
  pub time : value.from_time ≡ (at from).timestamp
  pub stored : value.store_from ≤ from
  pub recovers : plan.retention ≢ none → value.store_from + 128 ≤ max 128 block.number
  pub no_lower : (value.store_from ≡ from) ⊎ (value.store_from + 128 ≡ max 128 block.number)

-- The boundary is found, whether or not both `blocks` and `seconds` are given.
pub retention_boundary-IsBoundary :
    (blocks : Blocks) (plan : BoundaryPlan) (at : ℕ → IndexedBlock) (block : IndexedBlock)
    → IsChain blocks at block
    → start_of plan ≤ block.number
    → (value : Boundary) × (retention_boundary blocks plan none block
        ≡ some
            (ok value, some (record { number = block.number; hash = block.hash; value = value })))
      × IsBoundary plan at block value
unfolding retention_boundary
retention_boundary-IsBoundary blocks plan at block chain le =
    let h = history_from_lem blocks plan at block chain le in
    let gave = chain.gives h.0 h.2.within in
    (
      record { store_from = store_from plan block.number h.0; from_time = (at h.0).timestamp },
      rw (h.1, gave, retention_boundary) refl,
      record {
        from = h.0;
        kept = h.2;
        time = refl;
        stored = (stored plan.retention refl h.0).0;
        recovers = (stored plan.retention refl h.0).1;
        no_lower = (stored plan.retention refl h.0).2;
      },
    )
  where
    stored :
        (r : Option Retention)
        → plan.retention ≡ r
        → (from : ℕ)
        → (store_from plan block.number from ≤ from)
          × (plan.retention ≢ none → store_from plan block.number from + 128 ≤ max 128 block.number)
          × ((store_from plan block.number from ≡ from)
              ⊎ (store_from plan block.number from + 128 ≡ max 128 block.number))
    stored none e from = rw (e, store_from) (omega arith, λ n. absurd (n refl), inl refl)
    stored (some retention) e from =
        rw (e, store_from)
          (
            ground arith,
            λ n. ground arith,
            elim (Bool-cases (ltb from (recovery_from block.number))) [
              | inl low ↦ rw (low) (inl refl)
              | inr high ↦ rw (high) (inr (ground arith))
            ],
          )
