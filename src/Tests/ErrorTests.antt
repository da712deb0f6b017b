-- ===== src/Tests/ErrorTests.antt =====
-- Failures of a read: an endpoint that limits its callers, with code -32005.
use ether_state.Prelude.{◌≡◌, refl, true, false, ◌⊎◌, ◌==◌}
use ether_state.Rpc.{minus}
use ether_state.Rpc.Errors.{
  rpc_error, Patterns, retry, rotate, rpc_policy, read_failure_policy, should_resume_watch,
}
use ether_state.Rpc.Errors.Resume.{should_resume_watch_lem}

-- Message 1 says that the state is pruned.
abbrev patterns : Patterns
patterns = record {
  log_range_limit = λ m. false;
  historical_state_unavailable = λ m. m == 1;
  method_unsupported = λ m. false;
  range_unsupported = λ m. false;
  execution_reverted = λ m. false;
  rate_limited = λ m. false;
  split_message = λ m. false;
}

resumes : should_resume_watch patterns (rpc_error (minus 32005) 0) ≡ true
unfolding should_resume_watch read_failure_policy rpc_policy
resumes = refl

should_resume_watch_lem_example :
    (read_failure_policy patterns (rpc_error (minus 32005) 0) ≡ retry)
    ⊎ (read_failure_policy patterns (rpc_error (minus 32005) 0) ≡ rotate)
should_resume_watch_lem_example =
    should_resume_watch_lem patterns (rpc_error (minus 32005) 0) resumes
