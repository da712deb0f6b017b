-- ===== src/Tests/BatchTests.antt =====
-- `BatchQueue` with batches of two.
use ether_state.Prelude.{ℕ, ◌<◌, ◌≡◌, refl, true, none, some, List, [], ◌∷◌, length, arith}
use ether_state.BatchQueue.{
  Options, Pending, answered, completed, Queue, request, dispatch, complete, settle_entries,
  batch_failed, drain_failed, fail_drain, take_batch, take_more, weight_of,
}
use ether_state.BatchQueue.Take.{IsBatch, take_batch_lem}
use ether_state.BatchQueue.Sound.{Ledger, IsSound}
use ether_state.BatchQueue.Drain.{
  requests, dispatches, completes, answers, first_ledger, Reached, at_first, and_then, drain_lem,
}

abbrev twos : Options
twos = record { size = 2; max_weight = some 10; weight = some (λ n. n); capacity = 5 }

abbrev entry : ℕ → ℕ → Pending
entry id input = record { entry = id; input = input }

abbrev three : List Pending
three = entry 0 4 ∷ entry 1 7 ∷ entry 2 1 ∷ []

second_too_heavy : take_batch twos three ≡ entry 0 4 ∷ []
unfolding take_batch take_more weight_of
second_too_heavy = refl

take_batch_lem_example :
    IsBatch twos three (take_batch twos three) × (0 < 3 → 0 < length (take_batch twos three))
take_batch_lem_example = take_batch_lem twos three (omega arith)

abbrev waiting : Queue
waiting = record { pending = entry 0 4 ∷ []; running = true; active = none; results = [] }

abbrev sent : Queue
sent = record {
  pending = entry 0 4 ∷ [];
  running = true;
  active = some (entry 0 4 ∷ []);
  results = [];
}

abbrev accepted_one : Queue → Ledger
accepted_one q = record { queue = q; accepted = 0 ∷ []; left = [] }

requested : request twos (entry 0 4) first_ledger.queue ≡ some waiting
unfolding request
requested = refl

dispatched : dispatch twos waiting ≡ some sent
unfolding dispatch take_batch take_more weight_of
dispatched = refl

reaches_answer : Reached twos (accepted_one (complete (completed (42 ∷ [])) sent))
reaches_answer =
    and_then (accepted_one sent) (accepted_one (complete (completed (42 ∷ [])) sent))
      (and_then (accepted_one waiting) (accepted_one sent)
        (and_then first_ledger (accepted_one waiting) at_first
          (requests (entry 0 4) waiting refl requested))
        (dispatches sent refl refl dispatched))
      (completes (entry 0 4 ∷ []) (completed (42 ∷ [])) refl (answers (completed (42 ∷ []))))

one_answer : (complete (completed (42 ∷ [])) sent).results ≡ (0, answered 42) ∷ []
unfolding complete settle_entries
one_answer = refl

abbrev one_behind : Queue
one_behind = record sent { pending = entry 0 4 ∷ entry 1 7 ∷ [] }

fails_all : (fail_drain one_behind).results ≡ (1, drain_failed) ∷ (0, batch_failed) ∷ []
unfolding fail_drain complete settle_entries
fails_all = refl

drain_lem_example : IsSound twos (accepted_one (complete (completed (42 ∷ [])) sent))
drain_lem_example =
    drain_lem twos (accepted_one (complete (completed (42 ∷ [])) sent)) (omega arith) reaches_answer
