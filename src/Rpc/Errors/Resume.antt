-- ===== src/Rpc/Errors/Resume.antt =====
-- Which failures a watch goes on after.
use ether_state.Prelude.{◌≡◌, refl, Bool, true, false, ◌⊎◌, inl, inr, Bool-cases}
use ether_state.Rpc.Errors.{
  ClientError, rpc_error, schema_error, http_body_error, socket_error, http_client_error,
  queue_full, ws_request_timeout, block_unavailable, endpoint_request_timeout, contract_reverted,
  invalid_multicall, Patterns, ReadFailurePolicy, retry, rotate, unsupported, stop, http_policy,
  rpc_policy, read_failure_policy, should_resume_watch,
}

resumes-retry :
    (policy : ReadFailurePolicy) (otherwise : Bool)
    → otherwise ≡ false
    → elim policy [ retry ↦ true | _ ↦ otherwise ] ≡ true
    → policy ≡ retry
resumes-retry retry otherwise e h = refl
resumes-retry rotate otherwise e h = absurd (cc (e, h))
resumes-retry unsupported otherwise e h = absurd (cc (e, h))
resumes-retry stop otherwise e h = absurd (cc (e, h))

module _ (patterns : Patterns) where
  -- A watch goes on only after a failure on which a read is tried again, at the same endpoint or at
  -- another: never where the failure stops a read or shows that the method is unsupported.
  pub should_resume_watch_lem :
      (error : ClientError)
      → should_resume_watch patterns error ≡ true
      → (read_failure_policy patterns error ≡ retry) ⊎ (read_failure_policy patterns error ≡ rotate)
  unfolding should_resume_watch read_failure_policy rpc_policy
  should_resume_watch_lem (rpc_error code message) h =
      elim (Bool-cases (patterns.historical_state_unavailable message)) [
        | inl pruned ↦ inr (rw (pruned, rpc_policy) refl)
        | inr other ↦ inl (
            resumes-retry (rpc_policy patterns code message)
              (patterns.historical_state_unavailable message) other h)
      ]
  should_resume_watch_lem (http_client_error reason status message) h =
      inl (resumes-retry (http_policy patterns reason status) false refl h)
  should_resume_watch_lem (schema_error message) h = inr refl
  should_resume_watch_lem (http_body_error message) h = absurd (cc h)
  should_resume_watch_lem (socket_error message) h = inl refl
  should_resume_watch_lem queue_full h = inl refl
  should_resume_watch_lem ws_request_timeout h = inl refl
  should_resume_watch_lem block_unavailable h = inl refl
  should_resume_watch_lem endpoint_request_timeout h = inl refl
  should_resume_watch_lem (contract_reverted bytes) h = absurd (cc h)
  should_resume_watch_lem (invalid_multicall message) h = absurd (cc h)
