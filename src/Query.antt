-- ===== src/Query.antt =====
-- `RpcQueryCoordinator` of src/rpc/query.ts: the cache of results, and queries under way that several
-- callers share. Keys and encoded values are named by numbers. A `RunningQuery` is an object that
-- changes, so it lives in a heap by its number. The fibers run between the points where they wait:
-- `get` up to the wait, `finish` for the end of the load, and `leave` for the end of the wait.
pub mod Sound
pub mod Leaving
pub mod Events
pub mod Removal
pub mod Joining
pub mod Tracked
pub mod Cache
use ether_state.Prelude.{
  ℕ, suc, ◌+◌, ◌-◌, Bool, true, false, Option, none, some, List, [], ◌∷◌, ltb, ◌==◌, if◌then◌else◌,
  length,
}
use ether_state.Prelude.JsMap
use ether_state.Prelude.JsMap.{nat_eq}

pub record RunningQuery : Type 0 where
  pub key : ℕ
  pub users : ℕ

-- `made` counts the candidates, which it numbers.
pub record Coordinator : Type 0 where
  pub capacity : ℕ
  pub in_flight : List (ℕ × ℕ)
  pub completed : List (ℕ × ℕ)
  pub heap : List (ℕ × RunningQuery)
  pub made : ℕ

abbrev pub make : ℕ → Coordinator
make capacity = record { capacity = capacity; in_flight = []; completed = []; heap = []; made = 0 }

pub data QueryAction : Type 0 where
  gives : ℕ → QueryAction
  joins starts : ℕ → QueryAction

abbrev pub add_user : ℕ → List (ℕ × RunningQuery) → List (ℕ × RunningQuery)
add_user id heap = elim (JsMap.get id heap) [
  | none ↦ heap
  | some q ↦ JsMap.set id (record q { users = q.users + 1 }) heap
]

-- `Ref.modify` in `get`. The candidate is made first, and is garbage unless the query starts.
unfoldable pub get_query : ℕ → Coordinator → QueryAction × Coordinator
get_query key s = elim (JsMap.get key s.completed) [
  | some value ↦ (
    gives value,
    record s { completed = JsMap.set key value (JsMap.delete key s.completed); made = s.made + 1 },
  )
  | none ↦ elim (JsMap.get key s.in_flight) [
    | some id ↦ (joins id, record s { heap = add_user id s.heap; made = s.made + 1 })
    | none ↦ (
      starts s.made,
      record s {
        in_flight = JsMap.set key s.made s.in_flight;
        heap = JsMap.set s.made (record { key = key; users = 1 }) s.heap;
        made = s.made + 1;
      },
    )
  ]
]

-- `while (completed.size > this.capacity)`: the first key is deleted.
unfoldable pub evict : ℕ → List (ℕ × ℕ) → List (ℕ × ℕ)
evict capacity [] = []
evict capacity (entry ∷ rest) =
    let shorter = evict capacity rest in
    if ltb capacity (suc (length rest)) then shorter else entry ∷ rest

unfoldable pub store : ℕ → ℕ → Coordinator → Coordinator
unfolding evict
store key value s = if s.capacity == 0 then s else record s {
  completed = evict s.capacity (JsMap.set key value (JsMap.delete key s.completed));
}

unfoldable pub remove : ℕ → ℕ → Coordinator → Coordinator
remove key id s = elim (JsMap.get key s.in_flight) [
  | none ↦ s
  | some other ↦ if other == id then record s { in_flight = JsMap.delete key s.in_flight } else s
]

-- The end of a load: the encoded result if there is one that `keep` keeps.
unfoldable pub finish_query : ℕ → Option ℕ → Coordinator → Coordinator
unfolding store remove
finish_query id kept s = elim (JsMap.get id s.heap) [
  | none ↦ s
  | some q ↦ remove q.key id (elim kept [ none ↦ s | some value ↦ store q.key value s ])
]

-- The end of a wait. Where the last user leaves, the query is removed, and its fiber interrupted.
unfoldable pub leave_query : ℕ → Coordinator → Coordinator
unfolding remove
leave_query id s = elim (JsMap.get id s.heap) [
  | none ↦ s
  | some q ↦
      let s' = record s { heap = JsMap.set id (record q { users = q.users - 1 }) s.heap } in
      if q.users - 1 == 0 then remove q.key id s' else s'
]
