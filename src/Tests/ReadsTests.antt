-- ===== src/Tests/ReadsTests.antt =====
-- A read of src/rpc/client.ts with three endpoints.
use ether_state.Prelude.{ℕ, ◌≡◌, refl, true, false, none, List, [], ◌∷◌}
use ether_state.Prelude.Results.{err}
use ether_state.Rpc.Errors.{read_failure_policy, Patterns, block_unavailable}
use ether_state.Scheduler.{Scheduler}
use ether_state.Client.{http, selected, EndpointState}
use ether_state.Client.Reads.{
  ReadRequest, Situation, make_read_state, begin_attempt, asks, make_race, RaceEvent, chooses, ends,
  run,
}
use ether_state.Client.Reads.Chosen.{IsTurn, begin_attempt_lem}
use ether_state.Client.Reads.Safe.{IsSafe}
use ether_state.Client.Reads.Lanes.{run_safely}

abbrev source : ℕ → EndpointState
source n = record {
  endpoint = n;
  transport = http;
  status = selected;
  observations = [];
  unsupported_methods = none;
  unsupported_log_ranges = none;
}

abbrev idle_scheduler : Scheduler
idle_scheduler = record {
  endpoints = [];
  queued = 0;
  background_queued = 0;
  active = 0;
  background_active = 0;
}

-- Endpoint 2 answers fastest.
abbrev situation : Situation
situation = record {
  endpoints = source 1 ∷ source 2 ∷ source 3 ∷ [];
  response_times = ((1, 5), 80 ∷ 40 ∷ []) ∷ ((2, 5), 50 ∷ []) ∷ [];
  retry_at = [];
  method_retry_at = [];
  scheduler = idle_scheduler;
  now = 1000;
}

abbrev request : ReadRequest
request = record { method = 5; filter = none }

abbrev no_patterns : Patterns
no_patterns = record {
  log_range_limit = λ m. false;
  historical_state_unavailable = λ m. false;
  method_unsupported = λ m. false;
  range_unsupported = λ m. false;
  execution_reverted = λ m. false;
  rate_limited = λ m. false;
  split_message = λ m. false;
}

abbrev events : List RaceEvent
events =
    chooses true situation
    ∷ chooses false situation
    ∷ ends true (err block_unavailable)
    ∷ chooses true situation
    ∷ []

-- The lanes ask endpoints 2 and 1; the first then asks 3, which was not tried.
second_lane : (run request no_patterns events make_race).second ≡ asks 1
unfolding run
second_lane = refl

first_lane : (run request no_patterns events make_race).first ≡ asks 3
unfolding run read_failure_policy
first_lane = refl

run_safely_example : IsSafe (1 ∷ 2 ∷ 3 ∷ []) (run request no_patterns events make_race)
run_safely_example = run_safely request no_patterns (1 ∷ 2 ∷ 3 ∷ []) events refl

begin_attempt_lem_example :
    IsTurn request situation make_read_state (begin_attempt request situation make_read_state)
begin_attempt_lem_example = begin_attempt_lem request situation make_read_state
