-- ===== src/Tests/HttpTests.antt =====
-- src/rpc/transport/http.ts with an endpoint that takes at most two calls in a batch, and answers them
-- in another order.
use ether_state.Prelude.{
  ℕ, ◌*◌, ◌≡◌, refl, Option, none, some, List, [], ◌∷◌, map, reverse, arith, length, leb,
  if◌then◌else◌,
}
use ether_state.Prelude.Results.{ok, err}
use ether_state.Rpc.{minus}
use ether_state.Transport.Ws.{number_id}
use ether_state.Transport.Http.{
  WireRequest, Envelope, single, batch, Item, array, item, Exit, make_batcher, Environment, Outcome,
  send, read_response, rpc_error, id_mismatch,
}
use ether_state.Transport.Http.Answers.{IsReply}
use ether_state.Transport.Http.Sending.{send_lem}

abbrev item_of : WireRequest → Item
item_of r = record { id = some (some (number_id r.id)); error = none; content = r.call * 10 }

abbrev refusal : Item
refusal = record {
  id = some none;
  error = some (record { message = some 2; code = none });
  content = 0;
}

abbrev answered : ℕ → Envelope → Option Exit
answered n (single r) = some (ok (item (item_of r)))
answered n (batch rs) =
    some (ok (if leb (length rs) 2 then array (reverse (map item_of rs)) else item refusal))

abbrev endpoint : Environment
endpoint = record { client = answered; now = λ n. n; maximum_calls = λ message. some message }

abbrev three : List WireRequest
three = record { id = 1; call = 5 } ∷ record { id = 2; call = 6 } ∷ record { id = 3; call = 7 } ∷ []

abbrev ended : Option Outcome
ended = some (
  ok (map (λ r. ok (item (item_of r))) three),
  record {
    next_id = 0;
    unsupported_until = 0;
    limit = 2;
    stats = record {
      envelopes = 3;
      requests = 6;
      batches = 2;
      singles = 1;
      fallbacks = 1;
      resends = 0;
    };
  },
)

three_ended : send endpoint 8 three (make_batcher 16) ≡ ended
unfolding send
three_ended = refl

mismatch :
    read_response 5 (ok (item (item_of (record { id = 4; call = 5 }))))
    ≡ err (rpc_error (minus 32603) id_mismatch)
unfolding read_response
mismatch = refl

send_lem_example :
    (o : Outcome) × (send endpoint 8 three (make_batcher 16) ≡ some o)
    × IsReply endpoint three (make_batcher 16) o
send_lem_example = send_lem endpoint 8 three (make_batcher 16) (omega arith) (omega arith)
