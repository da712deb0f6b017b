-- ===== src/Transport/Ws/Refinement.antt =====
-- A socket serves its requests as if each had one of its own.
use ether_state.Prelude.{
  ℕ, ◌+◌, ◌≡◌, refl, Bool, true, false, Option, none, some, List, [], ◌∷◌, ◌==◌, ==_iff,
  if◌then◌else◌, Option-cases, inl, inr, arith,
}
use ether_state.Prelude.JsMap
use ether_state.Prelude.JsMap.{Eq, nat_eq}
use ether_state.Transport.Ws.{
  number_id, string_id, IncomingRoute, answer, notification, WsOutcome, unreadable, socket_failed,
  ws_timed_out, WsState, make_ws_state, make_request, end_request, abandon, fail_pending, dispatch,
  WsEvent, requests, receives, times_out, abandons, write_fails, connects, retries, loses, closes,
  step, run,
}
use ether_state.Transport.Ws.Sound.{IsSound, make_ws_state-IsSound, step-IsSound, get-end_all}

-- A request that has not been made, or whose caller is gone; one that waits for the answer to a
-- method; and one that has ended.
pub data Status : Type 0 where
  idle : Status
  waiting : ℕ → Status
  ended_with : WsOutcome → Status

abbrev pub status_from : Option WsOutcome → Option ℕ → Status
status_from (some outcome) _ = ended_with outcome
status_from none (some method) = waiting method
status_from none none = idle

-- What a socket's state says of the request of an id.
abbrev pub view : ℕ → WsState → Status
view id s = status_from (JsMap.get id s.ended) (JsMap.get id s.pending)

abbrev pub answers_id : ℕ → Option IncomingRoute → Bool
answers_id id (some (answer (some (number_id j)))) = j == id
answers_id id _ = false

abbrev pub next_after : WsEvent → ℕ → ℕ
next_after (requests failure method) next = next + 1
next_after _ next = next

abbrev pub starts_if : Bool → Option ℕ → ℕ → Status → Status
starts_if here none method idle = if here then waiting method else idle
starts_if here (some error) method idle = if here then ended_with (unreadable error) else idle
starts_if here failure method status = status

abbrev pub ends_if : Bool → (ℕ → WsOutcome) → Status → Status
ends_if here outcome (waiting method) = if here then ended_with (outcome method) else waiting method
ends_if here outcome idle = idle
ends_if here outcome (ended_with o) = ended_with o

abbrev pub leaves_if : Bool → Status → Status
leaves_if here (waiting method) = if here then idle else waiting method
leaves_if here idle = idle
leaves_if here (ended_with o) = ended_with o

module _ (route_of : ℕ → Option IncomingRoute) (read_answer : ℕ → ℕ → WsOutcome) where
  -- One request of an id by itself. It starts when the ids have come to its own, and ends at most
  -- once: by the first answer with its id, its timeout, a failure to write it, or the first loss of
  -- the connection while it waits.
  abbrev pub follow : WsEvent → ℕ → ℕ → Status → Status
  follow (requests failure method) next id status = starts_if (next == id) failure method status
  follow (receives now message) next id status =
      ends_if (answers_id id (route_of message)) (λ method. read_answer method message) status
  follow (times_out j) next id status = ends_if (j == id) ws_timed_out status
  follow (write_fails j error) next id status =
      ends_if (j == id) (λ method. socket_failed error) status
  follow (abandons j) next id status = leaves_if (j == id) status
  follow (loses error) next id status = ends_if true (λ method. socket_failed error) status
  follow (connects now) next id status = status
  follow retries next id status = status
  follow closes next id status = status

  abbrev pub follow_all : List WsEvent → ℕ → ℕ → Status → Status
  follow_all [] next id status = status
  follow_all (e ∷ events) next id status =
      follow_all events (next_after e next) id (follow e next id status)

end_request-view :
    (j : ℕ) (outcome : ℕ → WsOutcome) (s : WsState) (id : ℕ)
    → IsSound s
    → view id (end_request j outcome s) ≡ ends_if (j == id) outcome (view id s)
unfolding end_request
end_request-view j outcome s id i = elim (Option-cases (JsMap.get j s.pending)) [
  | inl out ↦ ground (arith, out, ==_iff j id)
  | inr (m, waits) ↦ ground (
    arith,
    waits,
    ==_iff j id,
    i.apart j m waits,
    JsMap.get-set j id (outcome m) s.ended,
    JsMap.get-delete j id s.pending,
  )
]

abandon-view :
    (j : ℕ) (s : WsState) (id : ℕ)
    → IsSound s
    → view id (abandon j s) ≡ leaves_if (j == id) (view id s)
unfolding abandon
abandon-view j s id i = elim (Option-cases (JsMap.get j s.pending)) [
  | inl out ↦ ground (arith, out, ==_iff j id, JsMap.get-delete j id s.pending)
  | inr (m, waits) ↦
      ground (arith, waits, ==_iff j id, i.apart j m waits, JsMap.get-delete j id s.pending)
]

next-end_request :
    (j : ℕ) (outcome : ℕ → WsOutcome) (s : WsState) → (end_request j outcome s).next_id ≡ s.next_id
unfolding end_request
next-end_request j outcome s = elim (Option-cases (JsMap.get j s.pending)) [
  | inl out ↦ rw (out, end_request) refl
  | inr (m, waits) ↦ rw (waits, end_request) refl
]

fail_pending-view :
    (error : ℕ) (s : WsState) (id : ℕ)
    → IsSound s
    → view id (fail_pending error s) ≡ ends_if true (λ method. socket_failed error) (view id s)
unfolding fail_pending
fail_pending-view error s id i = elim (Option-cases (JsMap.get id s.pending)) [
  | inl out ↦ ground (arith, out, get-end_all error id s.pending s.ended)
  | inr (m, waits) ↦
      ground (arith, waits, i.apart id m waits, get-end_all error id s.pending s.ended)
]

make_request-view :
    (failure : Option ℕ) (method : ℕ) (s : WsState) (id : ℕ)
    → IsSound s
    → view id (make_request failure method s)
      ≡ starts_if (s.next_id == id) failure method (view id s)
unfolding make_request
make_request-view none method s id i = elim (Option-cases (JsMap.get s.next_id s.pending)) [
  | inl out ↦ ground (
    arith,
    out,
    ==_iff s.next_id id,
    i.past s.next_id (omega arith),
    JsMap.get-set s.next_id id method s.pending,
  )
  | inr (m, waits) ↦ absurd (omega (arith, i.issued s.next_id m waits))
]
make_request-view (some error) method s id i = elim (Option-cases (JsMap.get s.next_id s.pending)) [
  | inl out ↦ ground (
    arith,
    out,
    ==_iff s.next_id id,
    i.past s.next_id (omega arith),
    JsMap.get-set s.next_id id (unreadable error) s.ended,
  )
  | inr (m, waits) ↦ absurd (omega (arith, i.issued s.next_id m waits))
]

module _ (route_of : ℕ → Option IncomingRoute) (read_answer : ℕ → ℕ → WsOutcome) where
  dispatch-view :
      (now message : ℕ) (s : WsState) (id : ℕ)
      → IsSound s
      → view id (dispatch route_of read_answer now message s)
        ≡ ends_if
            (answers_id id (route_of message))
            (λ method. read_answer method message)
            (view id s)
  unfolding dispatch
  dispatch-view now message s id i = go (route_of message) refl
    where
      stays :
          (status : Status) → status ≡ ends_if false (λ method. read_answer method message) status
      stays idle = refl
      stays (waiting m) = refl
      stays (ended_with o) = refl

      go :
          (r : Option IncomingRoute)
          → route_of message ≡ r
          → view id (dispatch route_of read_answer now message s)
            ≡ ends_if
                (answers_id id (route_of message))
                (λ method. read_answer method message)
                (view id s)
      go (some (answer (some (number_id j)))) e =
          rw (e, dispatch) (end_request-view j (λ method. read_answer method message) s id i)
      go none e = rw (e, dispatch) (stays (view id s))
      go (some (notification subscription value)) e = rw (e, dispatch) (stays (view id s))
      go (some (answer none)) e = rw (e, dispatch) (stays (view id s))
      go (some (answer (some (string_id j)))) e = rw (e, dispatch) (stays (view id s))

  step-view :
      (e : WsEvent) (s : WsState) (id : ℕ)
      → IsSound s
      → view id (step route_of read_answer e s)
        ≡ follow route_of read_answer e s.next_id id (view id s)
  unfolding step
  step-view (requests failure method) s id i = make_request-view failure method s id i
  step-view (receives now message) s id i = dispatch-view now message s id i
  step-view (times_out j) s id i = end_request-view j ws_timed_out s id i
  step-view (write_fails j error) s id i = end_request-view j (λ method. socket_failed error) s id i
  step-view (abandons j) s id i = abandon-view j s id i
  step-view (loses error) s id i = fail_pending-view error s id i
  step-view (connects now) s id i = refl
  step-view retries s id i = refl
  step-view closes s id i = refl

  next-step :
      (e : WsEvent) (s : WsState) → (step route_of read_answer e s).next_id ≡ next_after e s.next_id
  unfolding step
  next-step (requests none method) s = refl
  next-step (requests (some error) method) s = refl
  next-step (receives now message) s = go (route_of message) refl
    where
      go :
          (r : Option IncomingRoute)
          → route_of message ≡ r
          → (dispatch route_of read_answer now message s).next_id ≡ s.next_id
      go (some (answer (some (number_id j)))) e =
          rw (e, dispatch) (next-end_request j (λ method. read_answer method message) s)
      go none e = rw (e, dispatch) refl
      go (some (notification subscription value)) e = rw (e, dispatch) refl
      go (some (answer none)) e = rw (e, dispatch) refl
      go (some (answer (some (string_id j)))) e = rw (e, dispatch) refl
  next-step (times_out j) s = next-end_request j ws_timed_out s
  next-step (write_fails j error) s = next-end_request j (λ method. socket_failed error) s
  next-step (abandons j) s = refl
  next-step (loses error) s = refl
  next-step (connects now) s = refl
  next-step retries s = refl
  next-step closes s = refl

  run-view :
      (events : List WsEvent) (s : WsState) (id : ℕ)
      → IsSound s
      → view id (run route_of read_answer events s)
        ≡ follow_all route_of read_answer events s.next_id id (view id s)
  unfolding run
  run-view [] s id i = refl
  run-view (e ∷ events) s id i =
      let t = step route_of read_answer e s in
      let after = run-view events t id (step-IsSound route_of read_answer e s i) in
      rw (next-step e s, step-view e s id i) at after

-- For any messages' reading and any sequence of events from the start of a socket, what its state
-- says of the request of any id is what that request would have gone through by itself: idle until
-- the ids have come to it, then waiting, then ended once and for all by the first answer with its
-- id, timeout, failed write or loss of the connection, unless its caller leaves before.
pub run_refines :
    (route_of : ℕ → Option IncomingRoute) (read_answer : ℕ → ℕ → WsOutcome) (events : List WsEvent)
    (id : ℕ)
    → view id (run route_of read_answer events make_ws_state)
      ≡ follow_all route_of read_answer events 1 id idle
run_refines route_of read_answer events id =
    run-view route_of read_answer events make_ws_state id make_ws_state-IsSound
