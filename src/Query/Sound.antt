-- ===== src/Query/Sound.antt =====
-- What always holds of the coordinator, and that a `get` keeps it.
use ether_state.Prelude.{
  ℕ, ◌+◌, ◌≤◌, ◌<◌, ◌≡◌, refl, ap, ◌∙◌, ◌⊎◌, inl, inr, false, Option, none, some, List, ◌==◌,
  ==_iff, length, Bool-cases, Option-cases, arith,
}
use ether_state.Prelude.JsMap
use ether_state.Prelude.JsMap.{nat_eq, IsMap, when}
use ether_state.Query.{RunningQuery, Coordinator, add_user, get_query, store, remove}
use ether_state.Query.Cache.{length-evict, evict-IsMap}

-- A query that can be joined is one of its key, with users.
abbrev pub IsShared : ℕ → Option RunningQuery → Type 0
IsShared key o = (q : RunningQuery) × (o ≡ some q) × (q.key ≡ key) × (0 < q.users)

pub record IsSound (s : Coordinator) : Type 0 where
  pub bounded : length s.completed ≤ s.capacity
  pub cached_once : IsMap s.completed
  pub in_flight_once : IsMap s.in_flight
  pub shared :
      (key id : ℕ) → JsMap.get key s.in_flight ≡ some id → IsShared key (JsMap.get id s.heap)
  pub unmade : (id : ℕ) → s.made ≤ id → JsMap.get id s.heap ≡ none

-- All but that the query of `id`, which is of `key`, has users.
pub record IsAlmostSound (key id : ℕ) (s : Coordinator) : Type 0 where
  pub bounded : length s.completed ≤ s.capacity
  pub cached_once : IsMap s.completed
  pub in_flight_once : IsMap s.in_flight
  pub others :
      (k i : ℕ)
      → JsMap.get k s.in_flight ≡ some i
      → (i == id) ≡ false
      → IsShared k (JsMap.get i s.heap)
  pub its_key : (k : ℕ) → JsMap.get k s.in_flight ≡ some id → k ≡ key
  pub unmade : (i : ℕ) → s.made ≤ i → JsMap.get i s.heap ≡ none

pub remove-IsSound :
    (key id : ℕ) (s : Coordinator) → IsAlmostSound key id s → IsSound (remove key id s)
unfolding remove
remove-IsSound key id s h = elim (Option-cases (JsMap.get key s.in_flight)) [
  | inl absent ↦ rw (absent, remove) (unchanged (λ i e. cc (absent, e)))
  | inr (other, there) ↦ elim (Bool-cases (other == id)) [
    | inl same ↦
        rw (there, same, remove)
          (record {
            bounded = h.bounded;
            cached_once = h.cached_once;
            in_flight_once = JsMap.delete-IsMap key s.in_flight h.in_flight_once;
            shared = λ k i e. h.others k i (ground (arith, e, JsMap.get-delete key k s.in_flight)) (
                ground (
                  arith,
                  e,
                  JsMap.get-delete key k s.in_flight,
                  h.its_key k,
                  ==_iff i id,
                  ==_iff key k,
                ));
            unmade = h.unmade;
          })
    | inr differs ↦
        rw (there, differs, remove) (unchanged (λ i e. ground (arith, there, e, differs)))
  ]
]
  where
    unchanged : ((i : ℕ) → JsMap.get key s.in_flight ≡ some i → (i == id) ≡ false) → IsSound s
    unchanged differs = record {
      bounded = h.bounded;
      cached_once = h.cached_once;
      in_flight_once = h.in_flight_once;
      shared = λ k i e. h.others k i e (elim (Bool-cases (i == id)) [
        | inr n ↦ n
        | inl y ↦
            let i' : i ≡ id = (==_iff i id).0 y in
            let k' : k ≡ key = h.its_key k (cc (e, i')) in differs i (cc (e, k'))
      ]);
      unmade = h.unmade;
    }

pub IsShared-set :
    (k i id : ℕ) (q q' : RunningQuery) (heap : List (ℕ × RunningQuery))
    → JsMap.get id heap ≡ some q
    → q'.key ≡ q.key
    → (i == id) ≡ false ⊎ (0 < q'.users)
    → IsShared k (JsMap.get i heap)
    → IsShared k (JsMap.get i (JsMap.set id q' heap))
IsShared-set k i id q q' heap there same used (q₀, e, key, pos) = elim (Bool-cases (id == i)) [
  | inr other ↦ (q₀, ground (arith, JsMap.get-set id i q' heap, other, e), key, pos)
  | inl here ↦
      let i' : id ≡ i = (==_iff id i).0 here in
      let q₁ : some q ≡ some q₀ = cc (there, e, i') in
      let q₂ : q ≡ q₀ = cc q₁ in
      (
        q',
        ground (arith, JsMap.get-set id i q' heap, here),
        same ∙ ap (λ r. r.key) q₂ ∙ key,
        ground (arith, used, ==_iff i id, i'),
      )
]

pub store-IsSound : (key value : ℕ) (s : Coordinator) → IsSound s → IsSound (store key value s)
unfolding store
store-IsSound key value s h = elim (Bool-cases (s.capacity == 0)) [
  | inl off ↦ rw (off, store) h
  | inr on ↦
      rw (on, store)
        (record {
          bounded = length-evict s.capacity (JsMap.set key value (JsMap.delete key s.completed));
          cached_once =
              evict-IsMap s.capacity (JsMap.set key value (JsMap.delete key s.completed)) (
                JsMap.set-IsMap key value (JsMap.delete key s.completed)
                  (JsMap.delete-IsMap key s.completed h.cached_once));
          in_flight_once = h.in_flight_once;
          shared = h.shared;
          unmade = h.unmade;
        })
]

pub get_query-IsSound : (key : ℕ) (s : Coordinator) → IsSound s → IsSound (get_query key s).1
unfolding get_query
get_query-IsSound key s h = elim (Option-cases (JsMap.get key s.completed)) [
  | inr (value, cached) ↦
      rw (cached, get_query)
        (record {
          bounded = omega (
            arith,
            h.bounded,
            JsMap.length-set_le key value (JsMap.delete key s.completed),
            JsMap.length-delete_lt key value s.completed cached,
          );
          cached_once =
              JsMap.set-IsMap key value (JsMap.delete key s.completed)
                (JsMap.delete-IsMap key s.completed h.cached_once);
          in_flight_once = h.in_flight_once;
          shared = h.shared;
          unmade = λ id m. h.unmade id (omega (arith, m));
        })
  | inl missing ↦ elim (Option-cases (JsMap.get key s.in_flight)) [
    | inr (id, running) ↦
        rw (missing, running, get_query) (join id running (h.shared key id running))
    | inl idle ↦
        rw (missing, idle, get_query)
          (record {
            bounded = h.bounded;
            cached_once = h.cached_once;
            in_flight_once = JsMap.set-IsMap key s.made s.in_flight h.in_flight_once;
            shared = start_shared;
            unmade = λ id m. ground (
              arith,
              h.unmade id,
              JsMap.get-set s.made id (record { key = key; users = 1 }) s.heap,
              ==_iff s.made id,
            );
          })
  ]
]
  where
    join :
        (id : ℕ)
        → JsMap.get key s.in_flight ≡ some id
        → IsShared key (JsMap.get id s.heap)
        → IsSound (record s { heap = add_user id s.heap; made = s.made + 1 })
    join id running (q, there, of_key, pos) =
        let more = record q { users = q.users + 1 } in
        rw (there, add_user)
          (record {
            bounded = h.bounded;
            cached_once = h.cached_once;
            in_flight_once = h.in_flight_once;
            shared = λ k i e.
                IsShared-set k i id q more s.heap there refl (inr (omega arith)) (h.shared k i e);
            unmade = λ i m.
                ground (arith, h.unmade i, JsMap.get-set id i more s.heap, ==_iff id i, there);
          })

    start_shared :
        (k i : ℕ)
        → JsMap.get k (JsMap.set key s.made s.in_flight) ≡ some i
        → IsShared k (JsMap.get i (JsMap.set s.made (record { key = key; users = 1 }) s.heap))
    start_shared k i e = elim (Bool-cases (key == k)) [
      | inl here ↦
          let i' : s.made ≡ i = ground (arith, e, here, JsMap.get-set key k s.made s.in_flight) in
          (
            record { key = key; users = 1 },
            ground (
              arith,
              JsMap.get-set s.made i (record { key = key; users = 1 }) s.heap,
              i',
              ==_iff s.made i,
            ),
            (==_iff key k).0 here,
            omega arith,
          )
      | inr other ↦
          let (q, there, of_key, pos) =
            h.shared k i (ground (arith, e, other, JsMap.get-set key k s.made s.in_flight)) in
          (
            q,
            ground (
              arith,
              JsMap.get-set s.made i (record { key = key; users = 1 }) s.heap,
              there,
              h.unmade i,
              ==_iff s.made i,
            ),
            of_key,
            pos,
          )
    ]
