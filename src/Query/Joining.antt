-- ===== src/Query/Joining.antt =====
-- That a `get` keeps the coordinator and its callers tracked.
use ether_state.Prelude.{
  ℕ, ◌+◌, ◌≡◌, sym, ap, ◌∙◌, inl, inr, some, ◌==◌, ==_iff, Bool-cases, Option-cases, arith,
}
use ether_state.Prelude.JsMap
use ether_state.Prelude.JsMap.{nat_eq}
use ether_state.Query.{RunningQuery, add_user, get_query}
use ether_state.Query.Sound.{IsSound, get_query-IsSound}
use ether_state.Query.Events.{gets, Callers, after, users_of, IsTracked}

-- A callers' state after a `get`, whichever action it takes.
pub get_query-IsTracked : (key : ℕ) (c : Callers) → IsTracked c → IsTracked (after (gets key) c)
unfolding get_query
get_query-IsTracked key c t = elim (Option-cases (JsMap.get key c.coordinator.completed)) [
  | inr (value, cached) ↦
      rw (cached, get_query)
        (record {
          sound = rw (cached, get_query) at sound;
          users = t.users;
          live = t.live;
          unfinished = t.unfinished;
          early = λ i l. t.early i (omega (arith, l));
        })
  | inl missing ↦ elim (Option-cases (JsMap.get key c.coordinator.in_flight)) [
    | inr (id, running) ↦
        let (q, there, of_key, pos) = t.sound.shared key id running in
        let more : RunningQuery = record q { users = q.users + 1 } in
        let sound' = rw (missing, running, there, get_query, add_user) at sound in
        rw (missing, running, there, get_query, add_user)
          (record {
            sound = sound';
            users = λ i.
                ground (
                  arith,
                  JsMap.get-set id i more c.coordinator.heap,
                  t.users i,
                  there,
                  ==_iff id i,
                );
            live = λ i r held waits going. elim (Bool-cases (id == i)) [
              | inl here ↦
                  let i' : id ≡ i = (==_iff id i).0 here in
                  let r' : some more ≡ some r =
                    ground (arith, JsMap.get-set id i more c.coordinator.heap, held, here) in
                  let r'' : more ≡ r = cc r' in
                  ap (λ k. JsMap.get k c.coordinator.in_flight) (sym (ap (λ x. x.key) r'') ∙ of_key)
                  ∙ running
                  ∙ ap (λ n. some n) i'
              | inr other ↦
                  t.live i r
                    (ground (arith, JsMap.get-set id i more c.coordinator.heap, held, other))
                    (ground (arith, waits, other)) going
            ];
            unfinished = t.unfinished;
            early = λ i l. t.early i (omega (arith, l));
          })
    | inl idle ↦
        let new : RunningQuery = record { key = key; users = 1 } in
        let made = c.coordinator.made in
        let unmade = t.sound.unmade made (omega arith) in
        let none_waits : 0 ≡ c.waiting made = ap users_of (sym unmade) ∙ t.users made in
        let sound' = rw (missing, idle, get_query) at sound in
        rw (missing, idle, get_query)
          (record {
            sound = sound';
            users = λ i. ground (
              arith,
              JsMap.get-set made i new c.coordinator.heap,
              t.users i,
              none_waits,
              ==_iff made i,
            );
            live = λ i r held waits going. elim (Bool-cases (made == i)) [
              | inl here ↦
                  let i' : made ≡ i = (==_iff made i).0 here in
                  let r' : some new ≡ some r =
                    ground (arith, JsMap.get-set made i new c.coordinator.heap, held, here) in
                  let r'' : new ≡ r = cc r' in
                  ap (λ x. JsMap.get x.key (JsMap.set key made c.coordinator.in_flight)) (sym r'')
                  ∙ (ground (
                    arith,
                    JsMap.get-set key key made c.coordinator.in_flight,
                    ==_iff key key,
                    i',
                  ))
              | inr other ↦
                  let before =
                    t.live i r
                      (ground (arith, JsMap.get-set made i new c.coordinator.heap, held, other))
                      (ground (arith, waits, other)) going in
                  ground (
                    arith,
                    JsMap.get-set key r.key made c.coordinator.in_flight,
                    before,
                    idle,
                    ==_iff key r.key,
                  )
            ];
            unfinished = λ k i e. elim (Bool-cases (key == k)) [
              | inl here ↦
                  let i' : made ≡ i =
                    ground (arith, JsMap.get-set key k made c.coordinator.in_flight, e, here) in
                  t.early i (omega (arith, i'))
              | inr other ↦
                  t.unfinished k i
                    (ground (arith, JsMap.get-set key k made c.coordinator.in_flight, e, other))
            ];
            early = λ i l. t.early i (omega (arith, l));
          })
  ]
]
  where
    sound : IsSound (get_query key c.coordinator).1
    sound = get_query-IsSound key c.coordinator t.sound
