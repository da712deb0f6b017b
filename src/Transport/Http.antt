-- ===== src/Transport/Http.antt =====
-- `HttpBatcher` of src/rpc/transport/http.ts: a batch of requests sent as one envelope, cut into
-- smaller ones or sent one by one where the provider wants it so, and the answers matched to the
-- requests. The queue before it is that of BatchQueue. What the endpoint answers, the clock and the
-- regular expression on messages are the environment; requests sent at once are sent in order.
pub mod Answers
pub mod Slices
pub mod Verdicts
pub mod Sending
use ether_state.Prelude.{
  ℕ, zero, suc, ◌+◌, ◌-◌, ◌*◌, ◌/◌, Bool, true, false, ◌&&◌, ◌||◌, Option, none, some, List, [],
  ◌∷◌, ◌++◌, ltb, leb, ◌==◌, if◌then◌else◌, length, take, drop, keep, or_default, max,
}
use ether_state.Prelude.Results.{Result, ok, err, ◌>>=◌}
use ether_state.Rpc.{ℤ, minus, is_code}
use ether_state.Transport.Ws.{RpcId, number_id, string_id}

-- `call` names the method and the parameters.
pub record WireRequest : Type 0 where
  pub id : ℕ
  pub call : ℕ

pub data Envelope : Type 0 where
  single : WireRequest → Envelope
  batch : List WireRequest → Envelope

-- `error` of a value, where it is an object: its message if that is a text, and its code.
pub record ErrorField : Type 0 where
  pub message : Option ℕ
  pub code : Option ℤ

-- A value that is not an array. `id` is `none` where the value is no object or has no id that
-- `Response` allows, and `some none` where the id is null.
pub record Item : Type 0 where
  pub id : Option (Option RpcId)
  pub error : Option ErrorField
  pub content : ℕ

pub data Value : Type 0 where
  array : List Item → Value
  item : Item → Value

pub data BatchMessage : Type 0 where
  batch_timed_out invalid_batch id_mismatch : BatchMessage

-- An error of the client has the status of the response, where there was one.
pub data HttpError : Type 0 where
  rpc_error : ℤ → BatchMessage → HttpError
  client_error : Option ℕ → HttpError
  schema_error : HttpError

abbrev pub Exit : Type 0
Exit = Result HttpError Value

pub record Stats : Type 0 where
  pub envelopes : ℕ
  pub requests : ℕ
  pub batches : ℕ
  pub singles : ℕ
  pub fallbacks : ℕ
  pub resends : ℕ

pub record Batcher : Type 0 where
  pub next_id : ℕ
  pub unsupported_until : ℕ
  pub limit : ℕ
  pub stats : Stats

abbrev pub make_batcher : ℕ → Batcher
make_batcher size = record {
  next_id = 0;
  unsupported_until = 0;
  limit = size;
  stats = record {
    envelopes = 0;
    requests = 0;
    batches = 0;
    singles = 0;
    fallbacks = 0;
    resends = 0;
  };
}

-- The answer to the envelope that is sent after so many others, `none` if it comes too late; the
-- clock after so many; and what `/maximum (\d+) calls.*batch/i` finds in a message.
pub record Environment : Type 0 where
  pub client : ℕ → Envelope → Option Exit
  pub now : ℕ → ℕ
  pub maximum_calls : ℕ → Option ℕ

abbrev pub count_envelope : Envelope → Stats → Stats
count_envelope (single request) stats = record stats {
  envelopes = stats.envelopes + 1;
  requests = stats.requests + 1;
  singles = stats.singles + 1;
}
count_envelope (batch sent) stats = record stats {
  envelopes = stats.envelopes + 1;
  requests = stats.requests + length sent;
  batches = stats.batches + 1;
}

unfoldable pub answer_of : Environment → ℕ → Envelope → Exit
answer_of env n body =
    or_default (err (rpc_error (minus 32000) batch_timed_out)) (env.client n body)

unfoldable pub execute : Environment → Envelope → Batcher → Exit × Batcher
unfolding answer_of
execute env body s =
    (answer_of env s.stats.envelopes body, record s { stats = count_envelope body s.stats })

unfoldable pub execute_each : Environment → List WireRequest → Batcher → List Exit × Batcher
unfolding execute
execute_each env [] s = ([], s)
execute_each env (request ∷ rest) s =
    let first = execute env (single request) s in
    let others = execute_each env rest first.1 in (first.0 ∷ others.0, others.1)

-- `byId.get(request.id)`
abbrev pub has_id : ℕ → Item → Bool
has_id id i = elim i.id [ some (some (number_id j)) ↦ j == id | _ ↦ false ]

unfoldable pub match_one : Environment → List Item → WireRequest → Batcher → Exit × Batcher
unfolding execute
match_one env items request s = elim (keep (has_id request.id) items) [
  | only ∷ [] ↦ (ok (item only), s)
  | _ ↦
      execute env (single request)
        (record s { stats = record s.stats { resends = s.stats.resends + 1 } })
]

unfoldable pub match_each :
    Environment → List Item → List WireRequest → Batcher → List Exit × Batcher
unfolding match_one
match_each env items [] s = ([], s)
match_each env items (request ∷ rest) s =
    let first = match_one env items request s in
    let others = match_each env items rest first.1 in (first.0 ∷ others.0, others.1)

-- Whether an item is what `Response` reads.
abbrev pub is_response : Item → Bool
is_response i = elim i.id [ some id ↦ true | none ↦ false ]

abbrev pub all_responses : List Item → Bool
all_responses [] = true
all_responses (i ∷ items) = is_response i && all_responses items

-- The number of calls that the message of an error allows, if it is less than were sent.
abbrev pub maximum_of : Environment → Item → Option ℕ
maximum_of env i = elim i.error [
  | none ↦ none
  | some e ↦ elim e.message [ none ↦ none | some message ↦ env.maximum_calls message ]
]

abbrev pub smaller_maximum : Environment → ℕ → Item → Option ℕ
smaller_maximum env sent i = elim (maximum_of env i) [
  | none ↦ none
  | some n ↦ if leb n 9007199254740991 && (ltb 0 n && ltb n sent) then some n else none
]

abbrev pub refuses_batches : Item → Bool
refuses_batches i = elim i.error [
  | none ↦ false
  | some e ↦ elim e.code [
    | none ↦ false
    | some code ↦ is_code code (minus 32600) || is_code code (minus 32601)
  ]
]

abbrev pub Outcome : Type 0
Outcome = Result HttpError (List Exit) × Batcher

-- What is done with an answer: it ends the batch, or the batch is sent again.
pub data Verdict : Type 0 where
  finish : Outcome → Verdict
  again : Batcher → Verdict

abbrev pub fall_back : ℕ → Batcher → Batcher
fall_back limit s = record s {
  limit = limit;
  stats = record s.stats { fallbacks = s.stats.fallbacks + 1 };
}

unfoldable pub read_answer : Environment → List WireRequest → Exit → Batcher → Verdict
unfolding match_each
read_answer env requests (err error) s = finish (err error, s)
read_answer env requests (ok (item i)) s = elim (smaller_maximum env (length requests) i) [
  | some maximum ↦ again (fall_back maximum s)
  | none ↦ elim (refuses_batches i) [
    | true ↦ again (record s { unsupported_until = env.now s.stats.envelopes + 60000 })
    | false ↦ finish (err (rpc_error (minus 32603) invalid_batch), s)
  ]
]
read_answer env requests (ok (array items)) s = elim (all_responses items) [
  | true ↦ let matched = match_each env items requests s in finish (ok matched.0, matched.1)
  | false ↦ finish (err schema_error, s)
]

abbrev pub is_too_large : HttpError → Bool
is_too_large (client_error (some status)) = status == 413
is_too_large _ = false

-- `requests.slice(i * limit, (i + 1) * limit)` for each i below `count`.
abbrev pub slices {ℓ} : {A : Type ℓ} → ℕ → ℕ → List A → List (List A)
slices zero size xs = []
slices (suc count) size xs = take size xs ∷ slices count size (drop size xs)

-- `Math.ceil(n / size)`
abbrev pub ceil_div : ℕ → ℕ → ℕ
ceil_div n size = (n + size - 1) / size

-- `send` below, which is given itself: `none` is that its fuel did not do.
abbrev pub Sends : Type 0
Sends = List WireRequest → Batcher → Option Outcome

unfoldable pub send_chunks : Sends → List (List WireRequest) → Batcher → Option Outcome
send_chunks send [] s = some (ok [], s)
send_chunks send (chunk ∷ chunks) s = elim (send chunk s) [
  | none ↦ none
  | some (err error, t) ↦ some (err error, t)
  | some (ok exits, t) ↦ elim (send_chunks send chunks t) [
    | none ↦ none
    | some (err error, u) ↦ some (err error, u)
    | some (ok others, u) ↦ some (ok (exits ++ others), u)
  ]
]

-- The handler of `Effect.catch`.
unfoldable pub catch_too_large : Sends → List WireRequest → Outcome → Option Outcome
catch_too_large send requests (ok exits, s) = some (ok exits, s)
catch_too_large send requests (err error, s) =
    elim (is_too_large error && ltb 1 (length requests)) [
      | true ↦ send requests (fall_back (max 1 (length requests / 2)) s)
      | false ↦ some (err error, s)
    ]

unfoldable pub send_batch : Environment → Sends → List WireRequest → Batcher → Option Outcome
unfolding execute read_answer catch_too_large
send_batch env send requests s =
    let answered = execute env (batch requests) s in
    elim (read_answer env requests answered.0 answered.1) [
      | finish outcome ↦ catch_too_large send requests outcome
      | again t ↦ elim (send requests t) [
        | none ↦ none
        | some outcome ↦ catch_too_large send requests outcome
      ]
    ]

unfoldable pub send_singly : Environment → List WireRequest → Batcher → Outcome
unfolding execute_each
send_singly env requests s =
    let t : Batcher = if ltb 1 (length requests) then fall_back s.limit s else s in
    let sent = execute_each env requests t in (ok sent.0, sent.1)

unfoldable pub send : Environment → ℕ → List WireRequest → Batcher → Option Outcome
unfolding send_chunks send_batch send_singly
send env zero requests s = none
send env (suc fuel) [] s = some (ok [], s)
send env (suc fuel) (request ∷ others) s =
    let requests : List WireRequest = request ∷ others in
    elim (ltb (env.now s.stats.envelopes) s.unsupported_until || length requests == 1) [
      | true ↦ some (send_singly env requests s)
      | false ↦ elim (ltb s.limit (length requests)) [
        | true ↦
            send_chunks (send env fuel)
              (slices (ceil_div (length requests) s.limit) s.limit requests) s
        | false ↦ send_batch env (send env fuel) requests s
      ]
    ]

-- `++this.nextId`, and what `request` makes of the exit of its entry.
abbrev pub take_id : Batcher → ℕ × Batcher
take_id s = (s.next_id + 1, record s { next_id = s.next_id + 1 })

unfoldable pub read_response : ℕ → Exit → Result HttpError Item
read_response id (err error) = err error
read_response id (ok (array items)) = err schema_error
read_response id (ok (item i)) = elim i.id [
  | none ↦ err schema_error
  | some found ↦
      if has_id id i
      then ok (record i { id = some (some (number_id 1)) })
      else err (rpc_error (minus 32603) id_mismatch)
]
