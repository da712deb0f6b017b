-- ===== src/Tests/StoreTests.antt =====
-- The memory store after two commits.
use ether_state.Prelude.{
  ℕ, ◌*◌, ◌-◌, ◌≡◌, ◌↔◌, refl, not, ◌&&◌, ◌||◌, none, some, List, [], ◌∷◌, leb, ◌==◌,
}
use ether_state.Prelude.JsMap
use ether_state.Prelude.JsMap.{nat_eq, when}
use ether_state.Coverage.{covers}
use ether_state.Prelude.Texts.{text_eq}
use ether_state.ModelStore.{
  IndexedBlock, ProjectionRow, closed, complete, ModelCommit, ModelRetention, Store,
  memory_model_store, commit, coverage_of, batches_of, rows_of, retain,
}
use ether_state.ModelStore.Sound.{
  IsSound, Action, claims, commits, perform_all, memory_model_store-IsSound,
}
use ether_state.ModelStore.Effects.{Adds, StaysFrom, commit_lem, retain_lem}

abbrev block : ℕ → IndexedBlock
block n = record { number = n; hash = n * 100; parent_hash = (n - 1) * 100; timestamp = n * 12 }

abbrev row_of : ℕ → ProjectionRow
row_of n = record {
  projection = 97 ∷ [];
  key = n ∷ [];
  value = n;
  block = block n;
  end_time = some (n * 12);
  period = closed;
  row_coverage = complete;
}

abbrev commit_of : ℕ → ModelCommit
commit_of n = record {
  proven = none;
  batches = record { block = block n; sources = [] } ∷ [];
  rows = row_of n ∷ [];
}

abbrev two_commits : List Action
two_commits = claims 1 ∷ commits 1 (commit_of 5) ∷ commits 1 (commit_of 6) ∷ []

abbrev held : Store
held = perform_all two_commits memory_model_store

memory_model_store-IsSound_example : IsSound held
memory_model_store-IsSound_example = memory_model_store-IsSound two_commits

abbrev bounded : ModelCommit
bounded = record (commit_of 7) { proven = some (record { from = 7; through = 9 } ∷ []) }

held-IsSound : IsSound held
held-IsSound = memory_model_store-IsSound two_commits

commit_lem_example : (s' : Store) × (commit 1 bounded held ≡ some s') × Adds 1 bounded held s'
commit_lem_example = (commit_lem 1 bounded held held-IsSound).1 refl

abbrev retention : ModelRetention
retention = record { from_block = 6; from_time = 60 }

retain_lem_example :
    ((j n : ℕ)
      → covers n (coverage_of j (retain 1 retention held))
        ≡ (covers n (coverage_of j held) && (not (1 == j) || leb 6 n)))
    × ((j n : ℕ)
        → JsMap.get n (batches_of j (retain 1 retention held))
          ≡ when (λ _. not (1 == j) || leb 6 n) (JsMap.get n (batches_of j held)))
    × ((j : ℕ) (k : List ℕ) (row : ProjectionRow)
        → (JsMap.get k (rows_of j (retain 1 retention held)) ≡ some row) ↔ (
            (JsMap.get k (rows_of j held) ≡ some row)
            × (1 ≡ j → StaysFrom 60 row.period row.row_coverage row.end_time)))
retain_lem_example = retain_lem 1 retention held held-IsSound
