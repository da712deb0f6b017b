-- ===== src/Transport/Ws/Sound.antt =====
-- What always holds of the requests of a socket: ids are of requests that were made, and none both
-- waits and has ended.
use ether_state.Prelude.{
  ℕ, ◌+◌, ◌≤◌, ◌<◌, ◌≡◌, refl, ◌∙◌, Option, none, some, List, [], ◌∷◌, ◌++◌, ◌==◌, Option-cases,
  Bool-cases, inl, inr, arith,
}
use ether_state.Prelude.JsMap
use ether_state.Prelude.JsMap.{Eq, nat_eq, IsMap}
use ether_state.Transport.Ws.{
  number_id, string_id, IncomingRoute, answer, notification, WsOutcome, unreadable, socket_failed,
  ws_timed_out, WsConnectionState, connected, connecting, reconnecting, closed, WsNotification,
  WsState, make_ws_state, make_request, end_request, end_all, fail_pending, dispatch, WsEvent,
  requests, receives, times_out, abandons, write_fails, connects, retries, loses, closes, step,
}

pub record IsSound (s : WsState) : Type 0 where
  pub pending_map : IsMap s.pending
  pub apart : (id m : ℕ) → JsMap.get id s.pending ≡ some m → JsMap.get id s.ended ≡ none
  pub issued : (id m : ℕ) → JsMap.get id s.pending ≡ some m → id < s.next_id
  pub past : (id : ℕ) → s.next_id ≤ id → JsMap.get id s.ended ≡ none

pub make_ws_state-IsSound : IsSound make_ws_state
make_ws_state-IsSound = record {
  pending_map = tt;
  apart = λ id m h. refl;
  issued = λ id m h. absurd (cc h);
  past = λ id l. refl;
}

pub get-end_all :
    (error id : ℕ) (waiting : List (ℕ × ℕ)) (ended : List (ℕ × WsOutcome))
    → JsMap.get id (end_all error waiting ended) ≡ (elim (JsMap.get id waiting) [
      | none ↦ JsMap.get id ended
      | some m ↦ some (socket_failed error)
    ])
get-end_all error id [] ended = refl
get-end_all error id ((j, m) ∷ waiting) ended = ground (
  arith,
  get-end_all error id waiting (JsMap.set j (socket_failed error) ended),
  JsMap.get-set j id (socket_failed error) ended,
)

make_request-IsSound :
    (failure : Option ℕ) (method : ℕ) (s : WsState)
    → IsSound s
    → IsSound (make_request failure method s)
unfolding make_request
make_request-IsSound (some error) method s i = record {
  pending_map = i.pending_map;
  apart = λ id m h. ground (
    arith,
    h,
    i.apart id m h,
    i.issued id m h,
    JsMap.get-set s.next_id id (unreadable error) s.ended,
  );
  issued = λ id m h. omega (arith, i.issued id m h);
  past = λ id l. ground (
    arith,
    l,
    i.past id (omega (arith, l)),
    JsMap.get-set s.next_id id (unreadable error) s.ended,
  );
}
make_request-IsSound none method s i = record {
  pending_map = JsMap.set-IsMap s.next_id method s.pending i.pending_map;
  apart = λ id m h. elim (Bool-cases (s.next_id == id)) [
    | inl same ↦ i.past id (ground (arith, same))
    | inr other ↦
        i.apart id m (ground (arith, h, other, JsMap.get-set s.next_id id method s.pending))
  ];
  issued = λ id m h. elim (Bool-cases (s.next_id == id)) [
    | inl same ↦ ground (arith, same)
    | inr other ↦ omega (
      arith,
      i.issued id m (ground (arith, h, other, JsMap.get-set s.next_id id method s.pending)),
    )
  ];
  past = λ id l. i.past id (omega (arith, l));
}

remove-IsSound :
    (id : ℕ) (s : WsState) → IsSound s → IsSound (record s { pending = JsMap.delete id s.pending })
remove-IsSound id s i = record {
  pending_map = JsMap.delete-IsMap id s.pending i.pending_map;
  apart = λ j m h. i.apart j m (kept j m h);
  issued = λ j m h. i.issued j m (kept j m h);
  past = i.past;
}
  where
    kept :
        (j m : ℕ)
        → JsMap.get j (JsMap.delete id s.pending) ≡ some m
        → JsMap.get j s.pending ≡ some m
    kept j m h = ground (arith, h, JsMap.get-delete id j s.pending)

end_request-IsSound :
    (id : ℕ) (outcome : ℕ → WsOutcome) (s : WsState)
    → IsSound s
    → IsSound (end_request id outcome s)
unfolding end_request
end_request-IsSound id outcome s i = elim (Option-cases (JsMap.get id s.pending)) [
  | inl none_waits ↦ rw (none_waits, end_request) i
  | inr (method, waits) ↦
      let r = remove-IsSound id s i in
      rw (waits, end_request)
        (record {
          pending_map = r.pending_map;
          apart = λ j m h. ground (
            arith,
            r.apart j m h,
            h,
            JsMap.get-set id j (outcome method) s.ended,
            JsMap.get-delete id j s.pending,
          );
          issued = r.issued;
          past = λ j l. ground (
            arith,
            l,
            i.past j l,
            i.issued id method waits,
            JsMap.get-set id j (outcome method) s.ended,
          );
        })
]

fail_pending-IsSound : (error : ℕ) (s : WsState) → IsSound s → IsSound (fail_pending error s)
unfolding fail_pending
fail_pending-IsSound error s i = record {
  pending_map = tt;
  apart = λ id m h. absurd (cc h);
  issued = λ id m h. absurd (cc h);
  past = λ id l. elim (Option-cases (JsMap.get id s.pending)) [
    | inl out ↦ get-end_all error id s.pending s.ended ∙ rw out (i.past id l)
    | inr (m, waits) ↦ absurd (omega (arith, l, i.issued id m waits))
  ];
}

-- Fields that are not about requests.
same_requests-IsSound :
    (s : WsState) (connection : WsConnectionState) (attempt : ℕ)
    (notifications : List WsNotification)
    → IsSound s
    → IsSound
        (record s { connection = connection; attempt = attempt; notifications = notifications })
same_requests-IsSound s connection attempt notifications i = record {
  pending_map = i.pending_map;
  apart = i.apart;
  issued = i.issued;
  past = i.past;
}

module _ (route_of : ℕ → Option IncomingRoute) (read_answer : ℕ → ℕ → WsOutcome) where
  dispatch-IsSound :
      (now message : ℕ) (s : WsState)
      → IsSound s
      → IsSound (dispatch route_of read_answer now message s)
  unfolding dispatch
  dispatch-IsSound now message s i = go (route_of message) refl
    where
      go :
          (r : Option IncomingRoute)
          → route_of message ≡ r
          → IsSound (dispatch route_of read_answer now message s)
      go none e = rw (e, dispatch) i
      go (some (notification subscription value)) e =
          rw (e, dispatch)
            (same_requests-IsSound s s.connection s.attempt
              (s.notifications
                ++ record { subscription = subscription; value = value; received_at = now } ∷ [])
              i)
      go (some (answer none)) e = rw (e, dispatch) i
      go (some (answer (some (string_id id)))) e = rw (e, dispatch) i
      go (some (answer (some (number_id id)))) e =
          rw (e, dispatch) (end_request-IsSound id (λ method. read_answer method message) s i)

  pub step-IsSound :
      (e : WsEvent) (s : WsState) → IsSound s → IsSound (step route_of read_answer e s)
  unfolding step
  step-IsSound (requests failure method) s i = make_request-IsSound failure method s i
  step-IsSound (receives now message) s i = dispatch-IsSound now message s i
  step-IsSound (times_out id) s i = end_request-IsSound id ws_timed_out s i
  step-IsSound (write_fails id error) s i =
      end_request-IsSound id (λ method. socket_failed error) s i
  step-IsSound (abandons id) s i = remove-IsSound id s i
  step-IsSound (connects now) s i =
      same_requests-IsSound s (connected now) s.attempt s.notifications i
  step-IsSound retries s i =
      same_requests-IsSound s (connecting s.attempt) s.attempt s.notifications i
  step-IsSound (loses error) s i =
      same_requests-IsSound (fail_pending error s) (reconnecting (s.attempt + 1) error)
        (s.attempt + 1) s.notifications (fail_pending-IsSound error s i)
  step-IsSound closes s i = same_requests-IsSound s closed s.attempt s.notifications i
