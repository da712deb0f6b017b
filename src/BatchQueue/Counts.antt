-- ===== src/BatchQueue/Counts.antt =====
-- How often an entry stands among entries and results.
use ether_state.Prelude.{
  ℕ, suc, ◌+◌, ◌≤◌, ◌≡◌, refl, Bool, not, Option, none, some, List, [], ◌∷◌, ◌++◌, ltb, ◌==◌,
  ==_iff, if◌then◌else◌, length, keep, arith,
}
use ether_state.BatchQueue.{
  Pending, Result, BatchExit, drop_entry, settle_entries, completed, failed_batch, holds_entry,
}

abbrev pub times : ℕ → List Pending → ℕ
times id [] = 0
times id (e ∷ entries) = if e.entry == id then suc (times id entries) else times id entries

abbrev pub results_of : ℕ → List (ℕ × Result) → ℕ
results_of id [] = 0
results_of id ((i, r) ∷ results) =
    if i == id then suc (results_of id results) else results_of id results

abbrev pub under_way : ℕ → Option (List Pending) → ℕ
under_way id none = 0
under_way id (some entries) = times id entries

pub times-append : (id : ℕ) (xs ys : List Pending) → times id (xs ++ ys) ≡ times id xs + times id ys
times-append id [] ys = omega arith
times-append id (x ∷ xs) ys = ground (arith, times-append id xs ys)

pub results_of-append :
    (id : ℕ) (xs ys : List (ℕ × Result))
    → results_of id (xs ++ ys) ≡ results_of id xs + results_of id ys
results_of-append id [] ys = omega arith
results_of-append id (x ∷ xs) ys = ground (arith, results_of-append id xs ys)

pub results_of-settle_entries :
    (id : ℕ) (entries : List Pending) (exit : BatchExit)
    → results_of id (settle_entries entries exit) ≡ times id entries
unfolding settle_entries
results_of-settle_entries id [] exit = refl
results_of-settle_entries id (e ∷ rest) failed_batch =
    ground (arith, results_of-settle_entries id rest failed_batch)
results_of-settle_entries id (e ∷ rest) (completed []) =
    ground (arith, results_of-settle_entries id rest (completed []))
results_of-settle_entries id (e ∷ rest) (completed (v ∷ vs)) =
    ground (arith, results_of-settle_entries id rest (completed vs))

pub holds_entry-times :
    (id : ℕ) (entries : List Pending) → holds_entry entries id ≡ ltb 0 (times id entries)
holds_entry-times id [] = refl
holds_entry-times id (e ∷ entries) = ground (arith, holds_entry-times id entries)

pub times-drop_entry :
    (id k : ℕ) (entries : List Pending)
    → times k (drop_entry id entries) ≡ (if id == k then 0 else times k entries)
times-drop_entry id k [] = ground arith
times-drop_entry id k (e ∷ entries) = ground (arith, times-drop_entry id k entries)

pub times-keep :
    (k : ℕ) (batch entries : List Pending)
    → times k (keep (λ e. not (holds_entry batch e.entry)) entries)
      ≡ (if holds_entry batch k then 0 else times k entries)
times-keep k batch [] = ground arith
times-keep k batch (e ∷ entries) = ground (arith, times-keep k batch entries, ==_iff e.entry k)

pub length-keep_le :
    (test : Pending → Bool) (entries : List Pending) → length (keep test entries) ≤ length entries
length-keep_le test [] = omega arith
length-keep_le test (e ∷ entries) = ground (arith, length-keep_le test entries)
