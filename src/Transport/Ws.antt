-- ===== src/Transport/Ws.antt =====
-- `makeWsState` of src/rpc/transport/ws.ts: requests that wait for the answer with their id. The
-- socket, the clock and the order of what happens are the environment. Methods, messages, values
-- and errors of the socket are named by numbers; the schemas that messages are read with are
-- parameters.
pub mod Sound
pub mod Refinement
use ether_state.Prelude.{
  ℕ, ◌+◌, ◌*◌, ◌^◌, Bool, true, false, Option, none, some, List, [], ◌∷◌, ◌++◌, ◌==◌, if◌then◌else◌,
  min,
}
use ether_state.Prelude.JsMap
use ether_state.Prelude.JsMap.{nat_eq}
use ether_state.Rpc.{ℤ}

-- `string | number`
pub data RpcId : Type 0 where
  number_id string_id : ℕ → RpcId

-- What a message is read as: an answer, whose id may be null, or a notification.
pub data IncomingRoute : Type 0 where
  answer : Option RpcId → IncomingRoute
  notification : ℕ → ℕ → IncomingRoute

-- How a request ends.
pub data WsOutcome : Type 0 where
  result : ℕ → WsOutcome
  rpc_failed : ℤ → ℕ → WsOutcome
  unreadable socket_failed ws_timed_out : ℕ → WsOutcome

pub data WsConnectionState : Type 0 where
  connecting : ℕ → WsConnectionState
  connected : ℕ → WsConnectionState
  reconnecting : ℕ → ℕ → WsConnectionState
  closed : WsConnectionState

pub record WsNotification : Type 0 where
  pub subscription : ℕ
  pub value : ℕ
  pub received_at : ℕ

-- `pending` has the method of a request, which its answer is read by. `ended` has the outcomes of
-- those that no longer wait, by id. `attempt` is the parameter of `supervise`.
pub record WsState : Type 0 where
  pub next_id : ℕ
  pub pending : List (ℕ × ℕ)
  pub ended : List (ℕ × WsOutcome)
  pub connection : WsConnectionState
  pub attempt : ℕ
  pub notifications : List WsNotification

abbrev pub make_ws_state : WsState
make_ws_state = record {
  next_id = 1;
  pending = [];
  ended = [];
  connection = connecting 0;
  attempt = 0;
  notifications = [];
}

-- `Schema.encodeEffect` fails before the request waits, but after its id is taken.
unfoldable pub make_request : Option ℕ → ℕ → WsState → WsState
make_request (some error) method s = record s {
  next_id = s.next_id + 1;
  ended = JsMap.set s.next_id (unreadable error) s.ended;
}
make_request none method s = record s {
  next_id = s.next_id + 1;
  pending = JsMap.set s.next_id method s.pending;
}

-- `removePending`, and the end of the request that waited. A request that has its answer before its
-- write has completed ends at the answer here.
unfoldable pub end_request : ℕ → (ℕ → WsOutcome) → WsState → WsState
end_request id outcome s = elim (JsMap.get id s.pending) [
  | none ↦ s
  | some method ↦ record s {
    pending = JsMap.delete id s.pending;
    ended = JsMap.set id (outcome method) s.ended;
  }
]

-- Interruption: the caller is gone.
unfoldable pub abandon : ℕ → WsState → WsState
abandon id s = record s { pending = JsMap.delete id s.pending }

abbrev pub end_all : ℕ → List (ℕ × ℕ) → List (ℕ × WsOutcome) → List (ℕ × WsOutcome)
end_all error [] ended = ended
end_all error ((id, method) ∷ waiting) ended =
    end_all error waiting (JsMap.set id (socket_failed error) ended)

unfoldable pub fail_pending : ℕ → WsState → WsState
fail_pending error s = record s { pending = []; ended = end_all error s.pending s.ended }

abbrev pub reconnect_delay : ℕ → ℕ → ℕ
reconnect_delay delay attempt = min 30000 (delay * 2 ^ min attempt 6)

-- The failure of the socket in `supervise`, which then tries again.
unfoldable pub lose_connection : ℕ → WsState → WsState
unfolding fail_pending
lose_connection error s = record (fail_pending error s) {
  connection = reconnecting (s.attempt + 1) error;
  attempt = s.attempt + 1;
}

-- What happens to the socket and to its requests.
pub data WsEvent : Type 0 where
  requests : Option ℕ → ℕ → WsEvent
  receives : ℕ → ℕ → WsEvent
  times_out abandons : ℕ → WsEvent
  write_fails : ℕ → ℕ → WsEvent
  connects : ℕ → WsEvent
  retries : WsEvent
  loses : ℕ → WsEvent
  closes : WsEvent

module _ (route_of : ℕ → Option IncomingRoute) (read_answer : ℕ → ℕ → WsOutcome) where
  -- `dispatch`, at a time.
  unfoldable pub dispatch : ℕ → ℕ → WsState → WsState
  unfolding end_request
  dispatch now message s = elim (route_of message) [
    | none ↦ s
    | some (notification subscription value) ↦ record s {
      notifications =
          s.notifications
          ++ record { subscription = subscription; value = value; received_at = now } ∷ [];
    }
    | some (answer none) ↦ s
    | some (answer (some (string_id id))) ↦ s
    | some (answer (some (number_id id))) ↦ end_request id (λ method. read_answer method message) s
  ]

  unfoldable pub step : WsEvent → WsState → WsState
  unfolding make_request dispatch end_request abandon lose_connection
  step (requests failure method) s = make_request failure method s
  step (receives now message) s = dispatch now message s
  step (times_out id) s = end_request id ws_timed_out s
  step (write_fails id error) s = end_request id (λ method. socket_failed error) s
  step (abandons id) s = abandon id s
  step (connects now) s = record s { connection = connected now }
  step retries s = record s { connection = connecting s.attempt }
  step (loses error) s = lose_connection error s
  step closes s = record s { connection = closed }

  unfoldable pub run : List WsEvent → WsState → WsState
  unfolding step
  run [] s = s
  run (e ∷ events) s = run events (step e s)
