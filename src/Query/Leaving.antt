-- ===== src/Query/Leaving.antt =====
-- That the end of a load and the end of a wait keep the coordinator sound.
use ether_state.Prelude.{
  ℕ, ◌-◌, ◌≤◌, ◌≡◌, refl, sym, ap, ◌∙◌, inl, inr, Option, none, some, ◌==◌, ==_iff, Bool-cases,
  Option-cases, arith,
}
use ether_state.Prelude.JsMap
use ether_state.Prelude.JsMap.{nat_eq, IsMap, when}
use ether_state.Query.{RunningQuery, Coordinator, store, remove, finish_query, leave_query}
use ether_state.Query.Sound.{IsSound, remove-IsSound, IsShared-set, store-IsSound}

pub store-heap : (key value : ℕ) (s : Coordinator) → (store key value s).heap ≡ s.heap
unfolding store
store-heap key value s = elim (Bool-cases (s.capacity == 0)) [
  | inl off ↦ rw (off, store) refl
  | inr on ↦ rw (on, store) refl
]

pub store-in_flight :
    (key value : ℕ) (s : Coordinator) → (store key value s).in_flight ≡ s.in_flight
unfolding store
store-in_flight key value s = elim (Bool-cases (s.capacity == 0)) [
  | inl off ↦ rw (off, store) refl
  | inr on ↦ rw (on, store) refl
]

pub finish_query-IsSound :
    (id : ℕ) (kept : Option ℕ) (s : Coordinator) → IsSound s → IsSound (finish_query id kept s)
unfolding finish_query
finish_query-IsSound id kept s h = elim (Option-cases (JsMap.get id s.heap)) [
  | inl unknown ↦ rw (unknown, finish_query) h
  | inr (q, there) ↦ rw (there, finish_query) (stored q there kept)
]
  where
    removed :
        (q : RunningQuery) (s' : Coordinator)
        → JsMap.get id s.heap ≡ some q
        → s'.heap ≡ s.heap
        → s'.in_flight ≡ s.in_flight
        → IsSound s'
        → IsSound (remove q.key id s')
    removed q s' there same same' h' = remove-IsSound q.key id s' (record {
      bounded = h'.bounded;
      cached_once = h'.cached_once;
      in_flight_once = h'.in_flight_once;
      others = λ k i e _. h'.shared k i e;
      its_key = λ k e.
          let (q₀, e₀, of_key, _) = h'.shared k id e in
          let q₁ : some q₀ ≡ some q = cc (e₀, there, same) in
          let q₂ : q₀ ≡ q = cc q₁ in sym of_key ∙ ap (λ r. r.key) q₂;
      unmade = h'.unmade;
    })

    stored :
        (q : RunningQuery)
        → JsMap.get id s.heap ≡ some q
        → (kept : Option ℕ)
        → IsSound (remove q.key id (elim kept [ none ↦ s | some value ↦ store q.key value s ]))
    stored q there none = removed q s there refl refl h
    stored q there (some value) =
        removed q (store q.key value s) there (store-heap q.key value s)
          (store-in_flight q.key value s) (store-IsSound q.key value s h)

pub leave_query-IsSound : (id : ℕ) (s : Coordinator) → IsSound s → IsSound (leave_query id s)
unfolding leave_query
leave_query-IsSound id s h = elim (Option-cases (JsMap.get id s.heap)) [
  | inl unknown ↦ rw (unknown, leave_query) h
  | inr (q, there) ↦ elim (Bool-cases (q.users - 1 == 0)) [
    | inl last ↦
        rw (there, last, leave_query)
          (remove-IsSound q.key id (without q) (record {
            bounded = h.bounded;
            cached_once = h.cached_once;
            in_flight_once = h.in_flight_once;
            others = λ k i e n.
                IsShared-set k i id q (fewer q) s.heap there refl (inl n) (h.shared k i e);
            its_key = λ k e.
                let (q₀, e₀, of_key, _) = h.shared k id e in
                let q₁ : some q₀ ≡ some q = cc (e₀, there) in
                let q₂ : q₀ ≡ q = cc q₁ in sym of_key ∙ ap (λ r. r.key) q₂;
            unmade = unmade q there;
          }))
    | inr more ↦
        rw (there, more, leave_query)
          (record {
            bounded = h.bounded;
            cached_once = h.cached_once;
            in_flight_once = h.in_flight_once;
            shared = λ k i e.
                IsShared-set k i id q (fewer q) s.heap there refl (inr (ground (arith, more)))
                  (h.shared k i e);
            unmade = unmade q there;
          })
  ]
]
  where
    fewer : RunningQuery → RunningQuery
    fewer q = record q { users = q.users - 1 }

    without : RunningQuery → Coordinator
    without q = record s { heap = JsMap.set id (fewer q) s.heap }

    unmade :
        (q : RunningQuery)
        → JsMap.get id s.heap ≡ some q
        → (i : ℕ) → s.made ≤ i
        → JsMap.get i (JsMap.set id (fewer q) s.heap) ≡ none
    unmade q there i m =
        ground (arith, h.unmade i, JsMap.get-set id i (fewer q) s.heap, ==_iff id i, there)
