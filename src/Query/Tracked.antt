-- ===== src/Query/Tracked.antt =====
-- What always holds of the coordinator and of the callers that wait.
use ether_state.Prelude.{
  ℕ, ◌-◌, ◌≤◌, ◌<◌, ◌≡◌, refl, sym, ap, ◌∙◌, inl, inr, false, not, ◌&&◌, ◌||◌, some, List, [], ◌∷◌,
  ltb, if◌then◌else◌, ◌==◌, ==_iff, Bool-cases, Option-cases, arith,
}
use ether_state.Prelude.JsMap
use ether_state.Prelude.JsMap.{nat_eq}
use ether_state.Query.{RunningQuery, Coordinator, finish_query, leave_query}
use ether_state.Query.Sound.{IsSound}
use ether_state.Query.Leaving.{finish_query-IsSound, leave_query-IsSound}
use ether_state.Query.Events.{
  Event, gets, finishes, leaves, Callers, after, after_all, first_callers, users_of, is_started,
  IsTracked,
}
use ether_state.Query.Removal.{IsFinished, finish_query-IsFinished, IsLeft, leave_query-IsLeft}
use ether_state.Query.Joining.{get_query-IsTracked}

finished-IsTracked :
    (id : ℕ) (c : Callers) (s : Coordinator) (q : RunningQuery)
    → id < c.coordinator.made
    → JsMap.get id c.coordinator.heap ≡ some q
    → IsTracked c
    → IsSound s
    → IsFinished id q c.coordinator s
    → IsTracked (record c { coordinator = s; finished = λ other. id == other || c.finished other })
finished-IsTracked id c s q old there t sound f = record {
  sound = sound;
  users = λ i. ap (λ heap. users_of (JsMap.get i heap)) f.same_heap ∙ t.users i;
  live = λ i r held waits going.
      f.removes.keeps r.key i
        (t.live i r (ap (JsMap.get i) (sym f.same_heap) ∙ held) waits (ground (arith, going)))
        (ground (arith, going, ==_iff i id, ==_iff id i));
  unfinished = λ key i e.
      let other = other_query key i e in
      ground (arith, t.unfinished key i (f.removes.only key i e), other, ==_iff i id, ==_iff id i);
  early = λ i l.
      let l' : c.coordinator.made ≤ i = omega (arith, l, f.same_made) in
      ground (arith, t.early i l', old, l', ==_iff id i);
}
  where
    other_query : (key i : ℕ) → JsMap.get key s.in_flight ≡ some i → (i == id) ≡ false
    other_query key i e = elim (Bool-cases (i == id)) [
      | inr other ↦ other
      | inl same ↦
          let i' : i ≡ id = (==_iff i id).0 same in
          let before = f.removes.only key i e in
          let (q₀, e₀, of_key, _) = t.sound.shared key id (before ∙ ap (λ n. some n) i') in
          let q₁ : some q ≡ some q₀ = sym there ∙ e₀ in
          let q₂ : q ≡ q₀ = cc q₁ in
          let key' : key ≡ q.key = sym (ap (λ r. r.key) q₂ ∙ of_key) in
          f.removes.gone i (ap (λ k. JsMap.get k s.in_flight) (sym key') ∙ e)
    ]

left-IsTracked :
    (id : ℕ) (c : Callers) (s : Coordinator) (q fewer : RunningQuery)
    → 0 < c.waiting id
    → JsMap.get id c.coordinator.heap ≡ some q
    → IsTracked c
    → IsSound s
    → IsLeft id q fewer c.coordinator s
    → IsTracked (record c {
      coordinator = s;
      waiting = λ other. if id == other then c.waiting other - 1 else c.waiting other;
    })
left-IsTracked id c s q fewer waits there t sound f = record {
  sound = sound;
  users = λ i.
      ap (λ heap. users_of (JsMap.get i heap)) f.heap
      ∙ ground (
        arith,
        JsMap.get-set id i fewer c.coordinator.heap,
        t.users i,
        f.less,
        there,
        ==_iff id i,
      );
  live = λ i r held waiting going. elim (Bool-cases (id == i)) [
    | inl here ↦
        let i' : id ≡ i = (==_iff id i).0 here in
        let r' : some fewer ≡ some r =
          ground (arith, JsMap.get-set id i fewer c.coordinator.heap, in_new i r held, here) in
        let r'' : fewer ≡ r = cc r' in
        let of_key : r.key ≡ q.key = ap (λ x. x.key) (sym r'') ∙ f.same_key in
        let counted : q.users ≡ c.waiting id = ap users_of (sym there) ∙ t.users id in
        let more : 0 < fewer.users = ground (arith, f.less, counted, waiting, here, i') in
        ap (λ k. JsMap.get k s.in_flight) of_key
        ∙ f.keeps q.key id (t.live id q there waits (ap c.finished i' ∙ going)) (inr more)
        ∙ ap (λ n. some n) i'
    | inr other ↦
        f.keeps r.key i
          (t.live i r
            (ground (arith, JsMap.get-set id i fewer c.coordinator.heap, in_new i r held, other))
            (ground (arith, waiting, other)) going)
          (inl (ground (arith, other, ==_iff i id, ==_iff id i)))
  ];
  unfinished = λ key i e. t.unfinished key i (f.only key i e);
  early = λ i l. t.early i (omega (arith, l, f.same_made));
}
  where
    in_new :
        (i : ℕ) (r : RunningQuery)
        → JsMap.get i s.heap ≡ some r
        → JsMap.get i (JsMap.set id fewer c.coordinator.heap) ≡ some r
    in_new i r held = ap (JsMap.get i) (sym f.heap) ∙ held

started_before :
    (id : ℕ) (c : Callers) (q : RunningQuery)
    → JsMap.get id c.coordinator.heap ≡ some q
    → IsTracked c
    → id < c.coordinator.made
started_before id c q there t = elim (Bool-cases (ltb id c.coordinator.made)) [
  | inl before ↦ ground (arith, before)
  | inr later ↦ absurd (cc (there, t.sound.unmade id (ground (arith, later))))
]

after-IsTracked : (event : Event) (c : Callers) → IsTracked c → IsTracked (after event c)
after-IsTracked (gets key) c t = get_query-IsTracked key c t
after-IsTracked (finishes id kept) c t =
    elim (Bool-cases (is_started id c && not (c.finished id))) [
      | inr ended ↦ rw ended t
      | inl ends ↦
          let sound = finish_query-IsSound id kept c.coordinator t.sound in
          elim (Option-cases (JsMap.get id c.coordinator.heap)) [
            | inl unknown ↦
                let unstarted : is_started id c ≡ false = rw (unknown, is_started) refl in
                absurd (ground (arith, ends, unstarted))
            | inr (q, there) ↦ rw ends (
                finished-IsTracked id c (finish_query id kept c.coordinator) q
                  (started_before id c q there t) there t sound
                  (finish_query-IsFinished id kept c.coordinator q there))
          ]
    ]
after-IsTracked (leaves id) c t = elim (Bool-cases (ltb 0 (c.waiting id))) [
  | inr nobody ↦ rw nobody t
  | inl somebody ↦
      let waits : 0 < c.waiting id = ground (arith, somebody) in
      let sound = leave_query-IsSound id c.coordinator t.sound in
      elim (Option-cases (JsMap.get id c.coordinator.heap)) [
        | inl unknown ↦
            let none_waits : 0 ≡ c.waiting id = ap users_of (sym unknown) ∙ t.users id in
            absurd (omega (arith, waits, none_waits))
        | inr (q, there) ↦ rw somebody (
            left-IsTracked id c (leave_query id c.coordinator) q (record q { users = q.users - 1 })
              waits there t sound (leave_query-IsLeft id c.coordinator q there))
      ]
]

after_all-IsTracked :
    (events : List Event) (c : Callers) → IsTracked c → IsTracked (after_all events c)
after_all-IsTracked [] c t = t
after_all-IsTracked (event ∷ events) c t =
    after_all-IsTracked events (after event c) (after-IsTracked event c t)

-- After any sequence of gets, ends of loads and ends of waits on a new coordinator: the cache holds
-- no more results than the capacity, and no key twice; each query has as many users as callers wait
-- for it; and a query that callers wait for, and of which the load has not ended, is the one in flight
-- under its key, so that no key has two of these. No query in flight has ended; a query that a get can
-- join is one of the same key with at least one user left, so it was not cancelled.
pub coordinator_lem :
    (capacity : ℕ) (events : List Event) → IsTracked (after_all events (first_callers capacity))
coordinator_lem capacity events = after_all-IsTracked events (first_callers capacity) (record {
  sound = record {
    bounded = omega arith;
    cached_once = tt;
    in_flight_once = tt;
    shared = λ k i e. absurd (cc e);
    unmade = λ i m. refl;
  };
  users = λ id. refl;
  live = λ id q there waits going. absurd (cc there);
  unfinished = λ key id e. refl;
  early = λ id l. refl;
})
