-- ===== src/Rpc/Errors.antt =====
-- src/rpc/recovery.ts and the error unions of src/rpc/client.ts and src/rpc/multicall.ts. Messages
-- are named by numbers; the regular expressions that are run on them are parameters.
pub mod Resume
use ether_state.Prelude.{ℕ, Bool, true, false, ◌||◌, Option, none, some, leb, ◌==◌, if◌then◌else◌}
use ether_state.Rpc.{ℤ, pos, minus, is_code}

-- `error.reason._tag` of an `HttpClientError`, as far as the code tells the reasons apart.
pub data HttpReason : Type 0 where
  encode_error transport_error other_reason : HttpReason

-- `CallError | SchemaError`. The errors that carry a message have it here.
pub data ClientError : Type 0 where
  rpc_error : ℤ → ℕ → ClientError
  schema_error http_body_error socket_error : ℕ → ClientError
  http_client_error : HttpReason → Option ℕ → ℕ → ClientError
  queue_full ws_request_timeout block_unavailable endpoint_request_timeout : ClientError
  contract_reverted : ℕ → ClientError
  invalid_multicall : ℕ → ClientError

-- What each regular expression of the source says of a message.
pub record Patterns : Type 0 where
  pub log_range_limit : ℕ → Bool
  pub historical_state_unavailable : ℕ → Bool
  pub method_unsupported : ℕ → Bool
  pub range_unsupported : ℕ → Bool
  pub execution_reverted : ℕ → Bool
  pub rate_limited : ℕ → Bool
  pub split_message : ℕ → Bool

pub data ReadFailurePolicy : Type 0 where
  retry rotate unsupported stop : ReadFailurePolicy

module _ (patterns : Patterns) where
  open patterns use {
    log_range_limit, historical_state_unavailable, method_unsupported, range_unsupported,
    execution_reverted, rate_limited,
  }

  pub is_log_range_limit : ClientError → Bool
  is_log_range_limit (rpc_error code message) = log_range_limit message
  is_log_range_limit _ = false

  http_policy : HttpReason → Option ℕ → ReadFailurePolicy
  http_policy encode_error status = stop
  http_policy transport_error status = retry
  http_policy other_reason none = rotate
  http_policy other_reason (some status) =
      if status == 408 || (status == 429 || leb 500 status) then retry else rotate

  unfoldable pub rpc_policy : ℤ → ℕ → ReadFailurePolicy
  rpc_policy code message =
      if historical_state_unavailable message || log_range_limit message
      then rotate
      else if is_code code (minus 32601)
          || (is_code code (minus 32004) || method_unsupported message)
      then unsupported
      else if range_unsupported message
      then rotate
      else if is_code code (pos 3) || execution_reverted message
      then stop
      else if is_code code (minus 32603)
          || (is_code code (minus 32001)
              || (is_code code (minus 32005)
                  || (is_code code (minus 32016) || rate_limited message)))
      then retry
      else rotate

  unfoldable pub read_failure_policy : ClientError → ReadFailurePolicy
  unfolding http_policy rpc_policy
  read_failure_policy block_unavailable = retry
  read_failure_policy endpoint_request_timeout = retry
  read_failure_policy ws_request_timeout = retry
  read_failure_policy (socket_error message) = retry
  read_failure_policy queue_full = retry
  read_failure_policy (http_client_error reason status message) = http_policy reason status
  read_failure_policy (rpc_error code message) = rpc_policy code message
  read_failure_policy (schema_error message) = rotate
  read_failure_policy (http_body_error message) = stop
  read_failure_policy (contract_reverted bytes) = stop
  read_failure_policy (invalid_multicall message) = stop

  unfoldable pub should_resume_watch : ClientError → Bool
  should_resume_watch (rpc_error code message) =
      elim (read_failure_policy (rpc_error code message)) [
        | retry ↦ true
        | _ ↦ historical_state_unavailable message
      ]
  should_resume_watch error = elim (read_failure_policy error) [ retry ↦ true | _ ↦ false ]
