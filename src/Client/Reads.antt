-- ===== src/Client/Reads.antt =====
-- `fetchPhysical` of src/rpc/client.ts: a read asks one endpoint after another, in two lanes, of
-- which the second starts after a delay. What a lane reads of the client as it chooses is a
-- `Situation`; the order in which the lanes go on and their requests end is the environment.
pub mod Chosen
pub mod Sets
pub mod Turns
pub mod Safe
pub mod Lanes
use ether_state.Prelude.{
  ℕ, ◌+◌, ◌-◌, ◌*◌, ◌/◌, Bool, true, false, not, ◌&&◌, ◌||◌, Option, none, some, List, [], ◌∷◌,
  ◌++◌, map, ltb, leb, ◌==◌, if◌then◌else◌, length, keep, any, sort_by, or_default, max,
}
use ether_state.Prelude.JsMap
use ether_state.Prelude.JsMap.{nat_eq}
use ether_state.Prelude.Texts.{pair_eq}
use ether_state.Prelude.Results.{Result, ok, err}
use ether_state.Rpc.{minus}
use ether_state.Rpc.Errors.{
  ClientError, rpc_error, endpoint_request_timeout, Patterns, ReadFailurePolicy, retry, rotate,
  unsupported, stop, read_failure_policy,
}
use ether_state.Scheduler.{Scheduler, load}
use ether_state.Client.{
  RpcTransport, http, ws, EndpointStatus, selected, standby, EndpointState, is_selected, is_standby,
  is_http,
}

-- Which keys the filter of eth_getLogs has; `address` and `topics` may also be undefined.
pub record FilterKeys : Type 0 where
  pub has_block_hash : Bool
  pub has_address : Bool
  pub has_topics : Bool

-- `filter` is `none` for other methods, and where the first parameter is no object.
pub record ReadRequest : Type 0 where
  pub method : ℕ
  pub filter : Option FilterKeys

abbrev pub is_unfiltered_log_range : ReadRequest → Bool
is_unfiltered_log_range request = elim request.filter [
  | none ↦ false
  | some keys ↦ not keys.has_block_hash && (not keys.has_address && not keys.has_topics)
]

-- Of the client, as a lane chooses: the endpoints in order, `responseTimes`, `retryAt` and
-- `methodRetryAt`, of which the first and the last have a method in their key, the scheduler, and the
-- time.
pub record Situation : Type 0 where
  pub endpoints : List EndpointState
  pub response_times : List ((ℕ × ℕ) × List ℕ)
  pub retry_at : List (ℕ × ℕ)
  pub method_retry_at : List ((ℕ × ℕ) × ℕ)
  pub scheduler : Scheduler
  pub now : ℕ

-- The last two are of `requestStats`.
pub record ReadState : Type 0 where
  pub attempts : ℕ
  pub max_attempts : ℕ
  pub stopped : Bool
  pub last_error : ClientError
  pub tried : List ℕ
  pub excluded : List ℕ
  pub busy : List ℕ
  pub all_attempts : ℕ
  pub extra_attempts : ℕ

-- "No capable endpoint" is message 0.
abbrev pub make_read_state : ReadState
make_read_state = record {
  attempts = 0;
  max_attempts = 4;
  stopped = false;
  last_error = rpc_error (minus 32601) 0;
  tried = [];
  excluded = [];
  busy = [];
  all_attempts = 0;
  extra_attempts = 0;
}

abbrev pub has : ℕ → List ℕ → Bool
has e set = any (λ x. x == e) set

abbrev pub add : ℕ → List ℕ → List ℕ
add e set = if has e set then set else set ++ e ∷ []

abbrev pub remove : ℕ → List ℕ → List ℕ
remove e set = keep (λ x. not (x == e)) set

-- `new Set(…).size`
abbrev pub count_distinct : List ℕ → ℕ
count_distinct [] = 0
count_distinct (x ∷ xs) = let rest = count_distinct xs in if has x xs then rest else rest + 1

unfoldable pub is_candidate : ReadRequest → EndpointState → Bool
is_candidate request source =
    (is_selected source.status || is_standby source.status)
    && ((is_http source.transport || is_selected source.status)
        && (not (has request.method (or_default [] source.unsupported_methods))
            && not (
                or_default false source.unsupported_log_ranges && is_unfiltered_log_range request)))

abbrev pub is_available : ReadRequest → ReadState → EndpointState → Bool
is_available request s source =
    is_candidate request source
    && (not (has source.endpoint s.excluded) && not (has source.endpoint s.busy))

-- In parts of a millisecond of which the average of up to twenty numbers is a multiple: no more
-- response times are kept.
abbrev pub parts : ℕ
parts = 232792560

abbrev pub sum : List ℕ → ℕ
sum [] = 0
sum (x ∷ xs) = x + sum xs

-- `latency || 100`
abbrev pub latency_parts : List ℕ → ℕ
latency_parts recent =
    if sum recent == 0 then 100 * parts else sum recent * (parts / max 1 (length recent))

-- A difference of times that is negative counts as zero, as it does under `Math.max(0, …)`.
unfoldable pub score : ReadRequest → Situation → ReadState → EndpointState → ℕ
unfolding load
score request sit s source =
    let key : ℕ × ℕ = (source.endpoint, request.method) in
    let wait =
      max (or_default 0 (JsMap.get source.endpoint sit.retry_at) - sit.now)
        (or_default 0 (JsMap.get key sit.method_retry_at) - sit.now) in
    (wait * 10
        + (if has source.endpoint s.tried then 10000 else 0)
        + (if is_http source.transport then 0 else 20000)
        + load sit.scheduler source.endpoint * 50)
      * parts
    + latency_parts (or_default [] (JsMap.get key sit.response_times))

abbrev pub prefer_untried : List EndpointState → List EndpointState → List EndpointState
prefer_untried [] available = available
prefer_untried (e ∷ untried) available = e ∷ untried

-- `endpoints` of the source, sorted.
unfoldable pub ranked : ReadRequest → Situation → ReadState → List EndpointState
unfolding is_candidate score
ranked request sit s =
    let available = keep (is_available request s) sit.endpoints in
    sort_by (λ a b. ltb (score request sit s a) (score request sit s b))
      (prefer_untried (keep (λ e. not (has e.endpoint s.tried)) available) available)

unfoldable pub attempts_allowed : ReadRequest → Situation → ReadState → ℕ
unfolding is_candidate
attempts_allowed request sit s = max s.max_attempts (
    count_distinct
      (map (λ e. e.endpoint) (keep (is_candidate request) sit.endpoints) ++ s.excluded))

-- A round of a lane up to its request: the endpoint, if it sends one, and whether that was tried
-- before. Without one the lane fails with `last_error`.
unfoldable pub begin_attempt :
    ReadRequest → Situation → ReadState → Option (EndpointState × Bool) × ReadState
unfolding ranked attempts_allowed
begin_attempt request sit s =
    let t : ReadState = record s { max_attempts = attempts_allowed request sit s } in
    elim s.stopped [
      | true ↦ (none, s)
      | false ↦ elim (leb t.max_attempts t.attempts) [
        | true ↦ (none, t)
        | false ↦ elim (ranked request sit t) [
          | [] ↦ (none, t)
          | source ∷ others ↦ (
            some (source, has source.endpoint t.tried),
            record t {
              tried = add source.endpoint t.tried;
              busy = add source.endpoint t.busy;
              attempts = t.attempts + 1;
              all_attempts = t.all_attempts + 1;
              extra_attempts = if ltb 0 t.attempts then t.extra_attempts + 1 else t.extra_attempts;
            },
          )
        ]
      ]
    ]

abbrev pub stops : ReadFailurePolicy → Bool
stops stop = true
stops _ = false

abbrev pub excludes : ReadFailurePolicy → Bool
excludes rotate = true
excludes unsupported = true
excludes _ = false

-- The end of a request: what the lane does if it failed.
unfoldable pub note_failure : Patterns → ℕ → ClientError → ReadState → ReadState
note_failure patterns endpoint error s =
    let policy = read_failure_policy patterns error in
    record s {
      last_error = error;
      stopped = s.stopped || stops policy;
      excluded = if excludes policy then add endpoint s.excluded else s.excluded;
    }

-- `Effect.ensuring`
abbrev pub leave_endpoint : ℕ → ReadState → ReadState
leave_endpoint endpoint s = record s { busy = remove endpoint s.busy }

-- A lane between two rounds, with a request at an endpoint, or at its end.
pub data Lane : Type 0 where
  goes_on : Lane
  asks : ℕ → Lane
  fails : ClientError → Lane
  is_cut : Lane

-- The two lanes of a read, which share its state, and how the read ended if it did.
pub record Read : Type 0 where
  pub read : ReadState
  pub first : Lane
  pub second : Lane
  pub outcome : Option (Result ClientError ℕ)

abbrev pub make_race : Read
make_race = record { read = make_read_state; first = goes_on; second = goes_on; outcome = none }

abbrev pub leave_lane : Lane → ReadState → ReadState
leave_lane (asks endpoint) s = leave_endpoint endpoint s
leave_lane _ s = s

-- A result of the race: the lanes that still run are interrupted. An endpoint that a lane waits to ask
-- again keeps its mark in the source, which nothing reads after the race; here it loses it.
abbrev pub end_race : Result ClientError ℕ → Read → Read
end_race outcome race = record {
  read = leave_lane race.first (leave_lane race.second race.read);
  first = is_cut;
  second = is_cut;
  outcome = some outcome;
}

abbrev pub after_begin : Option (EndpointState × Bool) × ReadState → Lane × ReadState
after_begin (none, s) = (fails s.last_error, s)
after_begin (some (source, repeated), s) = (asks source.endpoint, s)

pub data RaceEvent : Type 0 where
  chooses : Bool → Situation → RaceEvent
  ends : Bool → Result ClientError ℕ → RaceEvent
  times_out : RaceEvent

-- A lane is the first or not.
abbrev pub lane_of : Bool → Read → Lane
lane_of true race = race.first
lane_of false race = race.second

abbrev pub put_lane : Bool → Lane × ReadState → Read → Read
put_lane true (lane, s) race = record race { read = s; first = lane }
put_lane false (lane, s) race = record race { read = s; second = lane }

unfoldable pub move_lane : ReadRequest → Patterns → RaceEvent → Read → Read
unfolding begin_attempt note_failure
move_lane request patterns (chooses which sit) race = elim (lane_of which race) [
  | goes_on ↦ put_lane which (after_begin (begin_attempt request sit race.read)) race
  | _ ↦ race
]
move_lane request patterns (ends which (ok value)) race = elim (lane_of which race) [
  | asks endpoint ↦ end_race (ok value) race
  | _ ↦ race
]
move_lane request patterns (ends which (err error)) race = elim (lane_of which race) [
  | asks endpoint ↦
      put_lane which
        (goes_on, note_failure patterns endpoint error (leave_endpoint endpoint race.read)) race
  | _ ↦ race
]
move_lane request patterns times_out race = end_race (err endpoint_request_timeout) race

-- Nothing happens to a race that has its outcome.
unfoldable pub step : ReadRequest → Patterns → RaceEvent → Read → Read
unfolding move_lane
step request patterns event race = elim race.outcome [
  | some outcome ↦ race
  | none ↦ move_lane request patterns event race
]

unfoldable pub run : ReadRequest → Patterns → List RaceEvent → Read → Read
unfolding step
run request patterns [] race = race
run request patterns (event ∷ events) race =
    run request patterns events (step request patterns event race)
