-- ===== src/History/Fetch.antt =====
-- `streamRange` of src/rpc/history.ts: one range is fetched, with retries, and halved where the
-- provider asks for less. The provider is a parameter: its answer to each attempt at each range.
pub mod Split
use ether_state.Prelude.{
  ℕ, zero, suc, ◌+◌, ◌-◌, ◌/◌, ◌≤◌, ◌<◌, ◌≡◌, refl, sym, ap, subst, ◌∙◌, Bool, true, false, not,
  ◌&&◌, ◌||◌, Option, none, some, List, [], ◌∷◌, ◌++◌, map, ltb, leb, ◌==◌, if◌then◌else◌,
  Bool-cases, inl, inr, arith,
}
use ether_state.Coverage.{BlockRange}
use ether_state.Rpc.{RpcLog, ℤ, minus, is_code}
use ether_state.Rpc.Errors.{
  ClientError, rpc_error, schema_error, http_body_error, socket_error, http_client_error,
  endpoint_request_timeout,
}
use ether_state.History.{Direction, forward, backward}
use ether_state.History.Logs.{HistoricalLog, normalize_logs}

pub data Reply : Type 0 where
  answered : List RpcLog → Reply
  failed : ClientError → Reply

pub data HistoryError : Type 0 where
  invalid_historical_range : ℕ → ℕ → HistoryError
  historical_range_unavailable : BlockRange → ClientError → HistoryError
  invalid_historical_log : BlockRange → HistoryError

pub record Page : Type 0 where
  pub range : BlockRange
  pub open range use *
  pub logs : List HistoricalLog

-- A stream that has come to its end: what it gave, and the error that ended it, if one did.
pub record Run : Type 0 where
  pub pages : List Page
  pub ended : Option HistoryError

abbrev pub fails_with : HistoryError → Run
fails_with error = record { pages = []; ended = some error }

-- `Stream.concat`: the second stream runs only if the first one completes.
pub concat : Run → Run → Run
concat first second = elim first.ended [
  | none ↦ record { pages = first.pages ++ second.pages; ended = second.ended }
  | some error ↦ first
]

-- `splitMessage.test` is the parameter.
module _ (split_message : ℕ → Bool) where
  pub should_split : ClientError → Bool
  should_split (rpc_error code message) = split_message message
  should_split (schema_error message) = split_message message
  should_split (http_body_error message) = split_message message
  should_split (socket_error message) = split_message message
  should_split (http_client_error reason status message) = split_message message
  should_split _ = false

  pub should_retry : ClientError → Bool
  unfolding should_split
  should_retry (rpc_error code message) =
      not (split_message message) && not (is_code code (minus 32602) || is_code code (minus 32601))
  should_retry (schema_error message) = false
  should_retry error = not (should_split error)

  -- `Effect.retry({ times: 2, … })`: `attempts` counts the attempts that are made already.
  pub fetch_retrying : (ℕ → Reply) → ℕ → ℕ → Reply
  fetch_retrying fetch zero attempts = fetch attempts
  fetch_retrying fetch (suc times) attempts = elim (fetch attempts) [
    | answered logs ↦ answered logs
    | failed error ↦
        if should_retry error then fetch_retrying fetch times (attempts + 1) else failed error
  ]

  pub page_of : BlockRange → List RpcLog → Run
  page_of range logs = elim (normalize_logs range logs) [
    | none ↦ fails_with (invalid_historical_log range)
    | some normalized ↦ record {
      pages = record { range = range; logs = normalized } ∷ [];
      ended = none;
    }
  ]

  pub join_halves : Direction → Option Run → Option Run → Option Run
  unfolding concat
  join_halves forward (some lower) (some upper) = some (concat lower upper)
  join_halves backward (some lower) (some upper) = some (concat upper lower)
  join_halves _ _ _ = none

  -- `none` means that the fuel ran out.
  pub stream_range : (BlockRange → ℕ → Reply) → Direction → ℕ → BlockRange → Option Run
  unfolding fetch_retrying should_retry page_of join_halves
  stream_range fetch direction zero range = none
  stream_range fetch direction (suc fuel) range =
      let middle = (range.from + range.through) / 2 in
      let lower =
        stream_range fetch direction fuel (record { from = range.from; through = middle }) in
      let upper =
        stream_range fetch direction fuel (record { from = middle + 1; through = range.through }) in
      elim (fetch_retrying (fetch range) 2 0) [
        | answered logs ↦ some (page_of range logs)
        | failed error ↦
            if not (should_split error) || range.from == range.through
            then some (fails_with (historical_range_unavailable range error))
            else join_halves direction lower upper
      ]
