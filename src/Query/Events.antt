-- ===== src/Query/Events.antt =====
-- The coordinator over time, with the callers that wait: gets, ends of loads and ends of waits.
use ether_state.Prelude.{
  ℕ, ◌+◌, ◌-◌, ◌≤◌, ◌<◌, ◌≡◌, Bool, true, false, not, ◌&&◌, ◌||◌, Option, none, some, List, [], ◌∷◌,
  ltb, if◌then◌else◌, ◌==◌,
}
use ether_state.Prelude.JsMap
use ether_state.Prelude.JsMap.{nat_eq}
use ether_state.Query.{
  RunningQuery, Coordinator, QueryAction, gives, joins, starts, make, get_query, finish_query,
  leave_query,
}
use ether_state.Query.Sound.{IsSound}

pub data Event : Type 0 where
  gets : ℕ → Event
  finishes : ℕ → Option ℕ → Event
  leaves : ℕ → Event

-- The coordinator, how many callers wait for each query, and the queries of which the load has ended.
pub record Callers : Type 0 where
  pub coordinator : Coordinator
  pub waiting : ℕ → ℕ
  pub finished : ℕ → Bool

abbrev pub wait_on : QueryAction → (ℕ → ℕ) → ℕ → ℕ
wait_on (gives value) waiting id = waiting id
wait_on (joins query) waiting id = if query == id then waiting id + 1 else waiting id
wait_on (starts query) waiting id = if query == id then waiting id + 1 else waiting id

abbrev pub is_started : ℕ → Callers → Bool
is_started id c = elim (JsMap.get id c.coordinator.heap) [ none ↦ false | some query ↦ true ]

-- A load that was started ends once, and the end of a wait is that of a caller that waits.
abbrev pub after : Event → Callers → Callers
after (gets key) c = record {
  coordinator = (get_query key c.coordinator).1;
  waiting = wait_on (get_query key c.coordinator).0 c.waiting;
  finished = c.finished;
}
after (finishes id kept) c =
    if is_started id c && not (c.finished id)
    then record c {
      coordinator = finish_query id kept c.coordinator;
      finished = λ other. id == other || c.finished other;
    }
    else c
after (leaves id) c =
    if ltb 0 (c.waiting id)
    then record c {
      coordinator = leave_query id c.coordinator;
      waiting = λ other. if id == other then c.waiting other - 1 else c.waiting other;
    }
    else c

abbrev pub after_all : List Event → Callers → Callers
after_all [] c = c
after_all (event ∷ events) c = after_all events (after event c)

abbrev pub first_callers : ℕ → Callers
first_callers capacity = record {
  coordinator = make capacity;
  waiting = λ id. 0;
  finished = λ id. false;
}

abbrev pub users_of : Option RunningQuery → ℕ
users_of none = 0
users_of (some query) = query.users

pub record IsTracked (c : Callers) : Type 0 where
  pub sound : IsSound c.coordinator
  pub users : (id : ℕ) → users_of (JsMap.get id c.coordinator.heap) ≡ c.waiting id
  pub live :
      (id : ℕ) (q : RunningQuery)
      → JsMap.get id c.coordinator.heap ≡ some q
      → 0 < c.waiting id
      → c.finished id ≡ false
      → JsMap.get q.key c.coordinator.in_flight ≡ some id
  pub unfinished :
      (key id : ℕ) → JsMap.get key c.coordinator.in_flight ≡ some id → c.finished id ≡ false
  pub early : (id : ℕ) → c.coordinator.made ≤ id → c.finished id ≡ false
