-- ===== src/Tests/WsTests.antt =====
-- src/rpc/transport/ws.ts with two requests, of which the second is answered first, and a loss of
-- the connection.
use ether_state.Prelude.{ℕ, ◌+◌, ◌==◌, ◌≡◌, refl, Option, none, some, List, [], ◌∷◌, if◌then◌else◌}
use ether_state.Transport.Ws.{
  number_id, IncomingRoute, answer, notification, WsOutcome, result, socket_failed, make_ws_state,
  WsEvent, requests, receives, connects, loses, times_out, reconnect_delay, run,
}
use ether_state.Transport.Ws.Refinement.{idle, ended_with, view, follow_all, run_refines}

-- Message `n` answers request `n`, but 9 is a notification.
abbrev route_of : ℕ → Option IncomingRoute
route_of n = if n == 9 then some (notification 1 2) else some (answer (some (number_id n)))

abbrev read_answer : ℕ → ℕ → WsOutcome
read_answer method message = result (method + message)

abbrev events : List WsEvent
events =
    connects 0
    ∷ requests none 10
    ∷ requests none 20
    ∷ receives 1 9
    ∷ receives 2 2
    ∷ times_out 2
    ∷ loses 7
    ∷ receives 3 1
    ∷ []

final : view 1 (run route_of read_answer events make_ws_state) ≡ ended_with (socket_failed 7)
unfolding run
final = refl

second : view 2 (run route_of read_answer events make_ws_state) ≡ ended_with (result 22)
unfolding run
second = refl

delay_five : reconnect_delay 500 5 ≡ 16000
delay_five = refl

delay_nine : reconnect_delay 500 9 ≡ 30000
delay_nine = refl

run_refines_example :
    view 2 (run route_of read_answer events make_ws_state)
    ≡ follow_all route_of read_answer events 1 2 idle
run_refines_example = run_refines route_of read_answer events 2
