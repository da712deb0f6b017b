-- ===== src/Query/Removal.antt =====
-- What the end of a load and the end of a wait change of the coordinator.
use ether_state.Prelude.{
  ℕ, ◌-◌, ◌<◌, ◌≡◌, refl, subst, ◌∙◌, ◌⊎◌, inl, inr, false, Option, none, some, List, ◌==◌, ==_iff,
  Bool-cases, Option-cases, arith,
}
use ether_state.Prelude.JsMap
use ether_state.Prelude.JsMap.{nat_eq}
use ether_state.Query.{RunningQuery, Coordinator, store, remove, finish_query, leave_query}
use ether_state.Query.Leaving.{store-heap, store-in_flight}

-- The map without the entry of a key, if it was that of the given query.
pub record IsWithout (key id : ℕ) (m m' : List (ℕ × ℕ)) : Type 0 where
  pub keeps : (k i : ℕ) → JsMap.get k m ≡ some i → (i == id) ≡ false → JsMap.get k m' ≡ some i
  pub only : (k i : ℕ) → JsMap.get k m' ≡ some i → JsMap.get k m ≡ some i
  pub gone : (i : ℕ) → JsMap.get key m' ≡ some i → (i == id) ≡ false

remove-IsWithout :
    (key id : ℕ) (s : Coordinator) → IsWithout key id s.in_flight (remove key id s).in_flight
unfolding remove
remove-IsWithout key id s = elim (Option-cases (JsMap.get key s.in_flight)) [
  | inl absent ↦
      rw (absent, remove)
        (record { keeps = λ k i e n. e; only = λ k i e. e; gone = λ i e. absurd (cc (absent, e)) })
  | inr (other, there) ↦ elim (Bool-cases (other == id)) [
    | inl same ↦
        rw (there, same, remove)
          (record {
            keeps = λ k i e n. ground (
              arith,
              JsMap.get-delete key k s.in_flight,
              e,
              n,
              there,
              same,
              ==_iff key k,
              ==_iff other id,
              ==_iff i id,
            );
            only = λ k i e. ground (arith, JsMap.get-delete key k s.in_flight, e);
            gone = λ i e.
                absurd (ground (arith, JsMap.get-delete key key s.in_flight, e, ==_iff key key));
          })
    | inr differs ↦
        rw (there, differs, remove)
          (record {
            keeps = λ k i e n. e;
            only = λ k i e. e;
            gone = λ i e. ground (arith, there, e, differs);
          })
  ]
]

remove-heap : (key id : ℕ) (s : Coordinator) → (remove key id s).heap ≡ s.heap
unfolding remove
remove-heap key id s = elim (Option-cases (JsMap.get key s.in_flight)) [
  | inl absent ↦ rw (absent, remove) refl
  | inr (other, there) ↦ elim (Bool-cases (other == id)) [
    | inl same ↦ rw (there, same, remove) refl
    | inr differs ↦ rw (there, differs, remove) refl
  ]
]

remove-made : (key id : ℕ) (s : Coordinator) → (remove key id s).made ≡ s.made
unfolding remove
remove-made key id s = elim (Option-cases (JsMap.get key s.in_flight)) [
  | inl absent ↦ rw (absent, remove) refl
  | inr (other, there) ↦ elim (Bool-cases (other == id)) [
    | inl same ↦ rw (there, same, remove) refl
    | inr differs ↦ rw (there, differs, remove) refl
  ]
]

store-made : (key value : ℕ) (s : Coordinator) → (store key value s).made ≡ s.made
unfolding store
store-made key value s = elim (Bool-cases (s.capacity == 0)) [
  | inl off ↦ rw (off, store) refl
  | inr on ↦ rw (on, store) refl
]

-- What the end of a load changes.
pub record IsFinished (id : ℕ) (q : RunningQuery) (s s' : Coordinator) : Type 0 where
  pub removes : IsWithout q.key id s.in_flight s'.in_flight
  pub same_heap : s'.heap ≡ s.heap
  pub same_made : s'.made ≡ s.made

pub finish_query-IsFinished :
    (id : ℕ) (kept : Option ℕ) (s : Coordinator) (q : RunningQuery)
    → JsMap.get id s.heap ≡ some q
    → IsFinished id q s (finish_query id kept s)
unfolding finish_query
finish_query-IsFinished id none s q there =
    rw (there, finish_query)
      (record {
        removes = remove-IsWithout q.key id s;
        same_heap = remove-heap q.key id s;
        same_made = remove-made q.key id s;
      })
finish_query-IsFinished id (some value) s q there =
    let kept = store q.key value s in
    rw (there, finish_query)
      (record {
        removes =
            subst (λ m. IsWithout q.key id m (remove q.key id kept).in_flight)
              (store-in_flight q.key value s) (remove-IsWithout q.key id kept);
        same_heap = remove-heap q.key id kept ∙ store-heap q.key value s;
        same_made = remove-made q.key id kept ∙ store-made q.key value s;
      })

-- What the end of a wait changes: the query has a user less, and is removed with the last.
pub record IsLeft (id : ℕ) (q fewer : RunningQuery) (s s' : Coordinator) : Type 0 where
  pub less : fewer.users ≡ q.users - 1
  pub same_key : fewer.key ≡ q.key
  pub heap : s'.heap ≡ JsMap.set id fewer s.heap
  pub same_made : s'.made ≡ s.made
  pub only : (k i : ℕ) → JsMap.get k s'.in_flight ≡ some i → JsMap.get k s.in_flight ≡ some i
  pub keeps :
      (k i : ℕ)
      → JsMap.get k s.in_flight ≡ some i
      → (i == id) ≡ false ⊎ (0 < fewer.users)
      → JsMap.get k s'.in_flight ≡ some i

pub leave_query-IsLeft :
    (id : ℕ) (s : Coordinator) (q : RunningQuery)
    → JsMap.get id s.heap ≡ some q
    → IsLeft id q (record q { users = q.users - 1 }) s (leave_query id s)
unfolding leave_query
leave_query-IsLeft id s q there =
    let fewer : RunningQuery = record q { users = q.users - 1 } in
    let without : Coordinator = record s { heap = JsMap.set id fewer s.heap } in
    elim (Bool-cases (q.users - 1 == 0)) [
      | inl last ↦
          let removes = remove-IsWithout q.key id without in
          rw (there, last, leave_query)
            (record {
              less = refl;
              same_key = refl;
              heap = remove-heap q.key id without;
              same_made = remove-made q.key id without;
              only = removes.only;
              keeps = λ k i e h. removes.keeps k i e (ground (arith, h, last));
            })
      | inr more ↦
          rw (there, more, leave_query)
            (record {
              less = refl;
              same_key = refl;
              heap = refl;
              same_made = refl;
              only = λ k i e. e;
              keeps = λ k i e h. e;
            })
    ]
