-- ===== src/Tests/QueryTests.antt =====
-- `RpcQueryCoordinator` with a cache of two.
use ether_state.Prelude.{◌≡◌, refl, List, none, some, [], ◌∷◌}
use ether_state.Prelude.JsMap.{nat_eq}
use ether_state.Query.{get_query, store, finish_query, leave_query, remove, evict}
use ether_state.Query.Events.{Event, gets, finishes, leaves, after_all, first_callers, IsTracked}
use ether_state.Query.Tracked.{coordinator_lem}

-- Two callers share the load of 7. When both have left, a third starts another.
abbrev used : List Event
used = gets 7 ∷ gets 7 ∷ leaves 0 ∷ leaves 0 ∷ gets 7 ∷ finishes 0 none ∷ []

coordinator_lem_example : IsTracked (after_all used (first_callers 2))
coordinator_lem_example = coordinator_lem 2 used

still_in_flight : (after_all used (first_callers 2)).coordinator.in_flight ≡ (7, 2) ∷ []
unfolding get_query leave_query finish_query store remove evict
still_in_flight = refl

shared_and_cached :
    (after_all
      (gets 7 ∷ gets 7 ∷ leaves 0 ∷ finishes 0 (some 70) ∷ [])
      (first_callers 2)).coordinator.completed
    ≡ (7, 70) ∷ []
unfolding get_query leave_query finish_query store remove evict
shared_and_cached = refl
