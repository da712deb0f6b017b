-- ===== src/LiveChain/Rounds.antt =====
-- Rounds of `acquire`, and a consumer that does what they tell it.
use ether_state.Prelude.{
  ℕ, ◌+◌, ◌≡◌, refl, sym, ap, subst, ◌∙◌, true, Option, none, some, List, [], ◌∷◌, ◌++◌, map,
  reverse, Bool-cases, Option-cases, inl, inr,
}
use ether_state.LiveChain.{
  Update, ChainUpdate, apply, revert, Environment, State, Outcome, emits, fails, interrupts,
  first_conflict, Ancestor, found, header_failed, not_found, find_ancestor, same_hash, resolve,
  settle, acquire, init, is_same_block, first_news, wanted, load_all, is_stale_child,
}
use ether_state.LiveChain.Follow.{
  follow_all, IsLinked, last_of, Tracks, Tracks-init, Tracks-ready, advance-Tracks, trim-Tracks,
  first_conflict-IsLinked,
}
-- None of these retained blocks is canonical.
use ether_state.LiveChain.Revert.{
  AllOrphaned, Search, find_ancestor-Search, Search-split, revert-Tracks,
}

-- What a round leaves to the consumer.
abbrev pub emitted : Outcome → List ChainUpdate
emitted (emits updates) = updates
emitted fails = []
emitted interrupts = []

abbrev TracksAfter : List Update → State × Outcome → Type 0
TracksAfter chain r = Tracks r.0 (follow_all chain (emitted r.1))

resolve-Tracks :
    (state : State) (chain : List Update) (ready : List (ℕ × Update)) (value : Update)
    (header : ℕ → Option (Option ℕ)) (ancestor : Ancestor)
    → find_ancestor header (reverse state.retained) ≡ ancestor
    → Tracks state chain
    → TracksAfter chain (resolve state ready value ancestor)
unfolding resolve follow_all
resolve-Tracks state chain ready value header header_failed e t = Tracks-ready state chain ready t
resolve-Tracks state chain ready value header not_found e t = Tracks-ready state chain [] t
resolve-Tracks state chain ready value header (found number old) e t =
    elim (Bool-cases (is_stale_child state.cursor number value)) [
      | inl stale ↦ rw (stale, resolve) (Tracks-ready state chain [] t)
      | inr orphaned ↦
          let (xs, ys, split, same) =
            Search-split state chain header number old t
              (find_ancestor-Search header (reverse state.retained) number old e) in
          rw (orphaned, resolve, same) (revert-Tracks state chain xs ys old t split)
    ]

settle-Tracks :
    (environment : Environment) (state : State) (chain : List Update) (ready : List (ℕ × Update))
    (updates : List Update)
    → Tracks state chain
    → TracksAfter chain (settle environment state ready updates)
unfolding settle follow_all
settle-Tracks environment state chain ready updates t =
    elim (Bool-cases (is_same_block state.cursor updates)) [
      | inl same ↦ rw (same, settle) (Tracks-ready state chain _ t)
      | inr news ↦ elim (Option-cases (first_conflict state.cursor updates)) [
        | inl linked ↦
            rw (news, linked, settle)
              (trim-Tracks _ _ (
                advance-Tracks (record state { ready = ready }) chain updates
                  (Tracks-ready state chain ready t)
                  (subst (λ p. IsLinked p updates) t.cursor
                    (first_conflict-IsLinked state.cursor updates linked))))
        | inr (value, conflict) ↦
            rw (news, conflict, settle)
              (resolve-Tracks state chain ready value environment.header _ refl t)
      ]
    ]

acquire-Tracks :
    (environment : Environment) (state : State) (chain : List Update)
    → Tracks state chain
    → TracksAfter chain (acquire environment state)
unfolding acquire follow_all
acquire-Tracks environment state chain t =
    elim (Option-cases (first_news state.cursor environment.heads)) [
      | inl e ↦ rw (e, acquire) t
      | inr (head, e) ↦
          let loads = load_all environment.load (wanted state.cursor head) state.ready in
          elim (Option-cases loads.updates) [
            | inl failed ↦ rw (e, acquire, failed) (Tracks-ready state chain loads.ready t)
            | inr (updates, got) ↦
                rw (e, acquire, got) (settle-Tracks environment state chain loads.ready updates t)
          ]
    ]

-- A history of rounds, and what the consumer has after it.
unfoldable pub run_rounds : State → List Update → List Environment → State × List Update
unfolding follow_all
run_rounds state chain [] = (state, chain)
run_rounds state chain (environment ∷ environments) =
    let (state', outcome) = acquire environment state in
    run_rounds state' (follow_all chain (emitted outcome)) environments

run_rounds-Tracks :
    (state : State) (chain : List Update) (environments : List Environment)
    → Tracks state chain
    → Tracks (run_rounds state chain environments).0 (run_rounds state chain environments).1
unfolding run_rounds
run_rounds-Tracks state chain [] t = t
run_rounds-Tracks state chain (environment ∷ environments) t =
    run_rounds-Tracks (acquire environment state).0
      (follow_all chain (emitted (acquire environment state).1)) environments
      (acquire-Tracks environment state chain t)

-- From the start, whatever heads, blocks and headers the providers report, and whichever rounds
-- fail, a consumer that applies and reverts as it is told always has a chain in which each block
-- has the number after, and the parent hash of, the one before; its last block is the cursor.
pub run_rounds_lem :
    (environments : List Environment)
    → let (state, chain) = run_rounds init [] environments in
      IsLinked none chain × (state.cursor ≡ last_of none chain)
run_rounds_lem environments =
    let t = run_rounds-Tracks init [] environments Tracks-init in (t.linked, t.cursor)

-- The block is retained and canonical, and no block that is retained above it is canonical.
record IsFork (state : State) (header : ℕ → Option (Option ℕ)) (from : ℕ) (old : Update)
    : Type 0 where
  pub start : from ≡ old.number + 1
  pub search : Search header (reverse state.retained) old.number old

resolve-IsFork :
    (state : State) (chain : List Update) (ready : List (ℕ × Update)) (value : Update)
    (header : ℕ → Option (Option ℕ)) (ancestor : Ancestor) (from : ℕ) (old : Update)
    → Tracks state chain
    → find_ancestor header (reverse state.retained) ≡ ancestor
    → (resolve state ready value ancestor).1 ≡ emits (revert from old ∷ [])
    → IsFork state header from old
unfolding resolve
resolve-IsFork state chain ready value header header_failed from old t e r = absurd (cc r)
resolve-IsFork state chain ready value header not_found from old t e r = absurd (cc r)
resolve-IsFork state chain ready value header (found number old') from old t e r =
    elim (Bool-cases (is_stale_child state.cursor number value)) [
      | inl stale ↦ absurd (cc (rw (stale, resolve) at r))
      | inr orphaned ↦
          let r' : emits (revert (number + 1) old' ∷ []) ≡ emits (revert from old ∷ []) =
            rw (orphaned, resolve) at r in
          let start : number + 1 ≡ from = cc r' in
          let same : old' ≡ old = cc r' in
          let s = find_ancestor-Search header (reverse state.retained) number old' e in
          let (xs, ys, split, place) = Search-split state chain header number old' t s in
          record {
            start = sym start ∙ ap (λ n. n + 1) (place ∙ ap (λ (u : Update). u.number) same);
            search =
                subst (λ (u : Update). Search header (reverse state.retained) u.number u) same
                  (subst (λ n. Search header (reverse state.retained) n old') place s);
          }
    ]

apply-ne-revert :
    (updates : List Update) (from : ℕ) (old : Update) → map apply updates ≡ revert from old ∷ [] → ⊥
apply-ne-revert [] from old e = cc e
apply-ne-revert (u ∷ updates) from old e = cc e

settle-IsFork :
    (environment : Environment) (state : State) (chain : List Update) (ready : List (ℕ × Update))
    (updates : List Update) (from : ℕ) (old : Update)
    → Tracks state chain
    → (settle environment state ready updates).1 ≡ emits (revert from old ∷ [])
    → IsFork state environment.header from old
unfolding settle
settle-IsFork environment state chain ready updates from old t r =
    elim (Bool-cases (is_same_block state.cursor updates)) [
      | inl same ↦ absurd (cc (rw (same, settle) at r))
      | inr news ↦ elim (Option-cases (first_conflict state.cursor updates)) [
        | inl linked ↦
            absurd
              (apply-ne-revert updates from old (emits-injective (rw (news, settle, linked) at r)))
        | inr (value, conflict) ↦
            resolve-IsFork state chain ready value environment.header _ from old t refl
              (rw (news, settle, conflict) at r)
      ]
    ]
  where
    emits-injective : {a b : List ChainUpdate} → emits a ≡ emits b → a ≡ b
    emits-injective e = cc e

acquire-IsFork :
    (environment : Environment) (state : State) (chain : List Update) (from : ℕ) (old : Update)
    → Tracks state chain
    → (acquire environment state).1 ≡ emits (revert from old ∷ [])
    → IsFork state environment.header from old
unfolding acquire
acquire-IsFork environment state chain from old t r =
    elim (Option-cases (first_news state.cursor environment.heads)) [
      | inl e ↦ absurd (cc (rw (e, acquire) at r))
      | inr (head, e) ↦
          let loads = load_all environment.load (wanted state.cursor head) state.ready in
          elim (Option-cases loads.updates) [
            | inl failed ↦ absurd (cc (rw (e, acquire, failed) at r))
            | inr (updates, got) ↦
                settle-IsFork environment state chain loads.ready updates from old t
                  (rw (e, acquire, got) at r)
          ]
    ]

abbrev pub IsCanonical : (ℕ → Option (Option ℕ)) → Update → Type 0
IsCanonical header block =
    (hash : Option ℕ) × (header block.number ≡ some hash) × (same_hash hash block.hash ≡ true)

-- If a round tells a consumer to revert, after any history, then to the blocks after the given
-- ancestor; the ancestor is retained and has the canonical hash, and every block that is retained
-- above it has another hash than the canonical block at its height.
pub run_rounds_revert :
    (environments : List Environment) (environment : Environment) (from : ℕ) (ancestor : Update)
    → (acquire environment (run_rounds init [] environments).0).1
      ≡ emits (revert from ancestor ∷ [])
    → (from ≡ ancestor.number + 1)
      × IsCanonical environment.header ancestor
      × (passed : List (ℕ × Update)) × (rest : List (ℕ × Update)) × (reverse
            (run_rounds init [] environments).0.retained
          ≡ passed ++ (ancestor.number, ancestor) ∷ rest)
      × AllOrphaned environment.header passed
run_rounds_revert environments environment from ancestor e =
    let fork =
      acquire-IsFork environment (run_rounds init [] environments).0
        (run_rounds init [] environments).1 from ancestor
        (run_rounds-Tracks init [] environments Tracks-init) e in
    let s = fork.search in
    (fork.start, (s.hash, s.answer, s.canonical), s.passed, s.rest, s.split, s.orphaned)
