-- ===== src/Tests/SchedulerTests.antt =====
-- src/rpc/transport/queue.ts at a limit of two requests per second.
use ether_state.Prelude.{◌≤◌, ◌≡◌, refl, Bool, true, false, some, List, [], ◌∷◌, arith}
use ether_state.Scheduler.{
  Options, Scheduler, background_share, admit, start, throttle_budget, recover_budget, prune, delay,
  proceeds, sleeps, try_acquire,
}
use ether_state.Scheduler.Rate.{
  Event, attempts, throttles, recovers, sent_within, empty_ledger, step, run, rate_limited,
}
use ether_state.Scheduler.Counters.{
  Job, Balanced, empty, Reached, at_first, and_then, admits, starts, counters_lem,
}

abbrev small : Options
small = record { rps = 2; concurrency = 1; capacity = 3 }

abbrev busy_second : List Event
busy_second =
    attempts 10 true ∷ attempts 20 false ∷ attempts 30 false ∷ throttles 40 ∷ recovers 50 ∷ []

third_waits :
    (try_acquire 30 false
      (run small (empty_ledger small) (attempts 10 true ∷ attempts 20 false ∷ [])).budget).1
    ≡ sleeps 980
unfolding run step try_acquire prune delay
third_waits = refl

clock_is_1020 : (run small (empty_ledger small) busy_second).clock ≤ 1020
unfolding run step try_acquire prune delay throttle_budget recover_budget
clock_is_1020 = omega arith

later_proceeds :
    (try_acquire 1020 true (run small (empty_ledger small) busy_second).budget).1 ≡ proceeds
unfolding run step try_acquire prune delay throttle_budget recover_budget
later_proceeds = refl

rate_limited_example :
    let l = run small (empty_ledger small) busy_second in
    let l' = step small l (attempts 1020 true) in
    (1 ≤ l.budget.limit)
    × (l.budget.limit ≤ 2)
    × (sent_within 1020 l'.history ≤ l.budget.limit)
    × (true ≡ true → sent_within 1020 l'.background_history ≤ background_share l.budget.limit)
rate_limited_example =
    rate_limited small busy_second 1020 true (omega arith) (ground arith) clock_is_1020
      later_proceeds

abbrev one_running : Scheduler
one_running = record {
  endpoints =
      (7, record { sent = []; background_sent = []; limit = 2; recover_at = 0; active = 1 }) ∷ [];
  queued = 1;
  background_queued = 1;
  active = 0;
  background_active = 0;
}

abbrev one_job : Bool → Job
one_job running = record { endpoint = 7; background = true; running = running }

admits_one : admit small 7 true empty ≡ some one_running
unfolding admit
admits_one = refl

reaches_one : Reached small (start true one_running) (one_job true ∷ [])
reaches_one =
    and_then one_running (start true one_running) (one_job false ∷ []) (one_job true ∷ [])
      (and_then empty one_running [] (one_job false ∷ []) at_first
        (admits 7 true one_running admits_one))
      (starts [] [] (one_job false) refl refl)

counters_lem_example : Balanced small (start true one_running) (one_job true ∷ [])
counters_lem_example = counters_lem small (start true one_running) (one_job true ∷ []) reaches_one
