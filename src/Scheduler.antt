-- ===== src/Scheduler.antt =====
-- `RequestScheduler` of src/rpc/transport/queue.ts: admission of requests, the limit on requests
-- per second of each endpoint, and the counters. Time is an argument, in milliseconds. `run` is cut
-- at the points where it waits: `admit`, `try_acquire` (once for each round of `acquire`), `start`,
-- `finish` and `leave`. The semaphores are of the library `effect` and only delay these steps.
pub mod Rate
pub mod Counters
use ether_state.Prelude.{
  ℕ, ◌+◌, ◌-◌, ◌*◌, ◌/◌, Bool, true, false, ◌&&◌, ◌||◌, Option, none, some, List, [], ◌∷◌, ◌++◌,
  ltb, leb, ◌==◌, if◌then◌else◌, length, min, max,
}
use ether_state.Prelude.JsMap
use ether_state.Prelude.JsMap.{nat_eq}

pub record Options : Type 0 where
  pub rps : ℕ
  pub concurrency : ℕ
  pub capacity : ℕ

-- `sent` and `background_sent` are queues of times, the oldest first.
pub record Budget : Type 0 where
  pub sent : List ℕ
  pub background_sent : List ℕ
  pub limit : ℕ
  pub recover_at : ℕ
  pub active : ℕ

pub record Scheduler : Type 0 where
  pub endpoints : List (ℕ × Budget)
  pub queued : ℕ
  pub background_queued : ℕ
  pub active : ℕ
  pub background_active : ℕ

-- `Math.max(1, Math.floor(n * 0.8))`
abbrev pub background_share : ℕ → ℕ
background_share n = max 1 (n * 4 / 5)

pub limit : Options → Scheduler → ℕ → ℕ
limit options s endpoint = elim (JsMap.get endpoint s.endpoints) [
  | none ↦ options.rps
  | some budget ↦ budget.limit
]

unfoldable pub load : Scheduler → ℕ → ℕ
load s endpoint = elim (JsMap.get endpoint s.endpoints) [ none ↦ 0 | some budget ↦ budget.active ]

-- `Math.floor(limit * 0.75)`
unfoldable pub throttle_budget : ℕ → Budget → Budget
throttle_budget now budget = record budget {
  limit = max 1 (budget.limit * 3 / 4);
  recover_at = now + 5000;
}

unfoldable pub recover_budget : Options → ℕ → Budget → Budget
recover_budget options now budget =
    if leb budget.recover_at now
    then record budget { limit = min options.rps (budget.limit + 1); recover_at = now + 5000 }
    else budget

-- What mutates the budget that an endpoint has.
abbrev pub update_budget : (Budget → Budget) → ℕ → Scheduler → Scheduler
update_budget f endpoint s = elim (JsMap.get endpoint s.endpoints) [
  | none ↦ s
  | some budget ↦ record s { endpoints = JsMap.set endpoint (f budget) s.endpoints }
]

pub throttle : ℕ → ℕ → Scheduler → Scheduler
unfolding throttle_budget
throttle endpoint now s = update_budget (throttle_budget now) endpoint s

pub recover : Options → ℕ → ℕ → Scheduler → Scheduler
unfolding recover_budget
recover options endpoint now s = update_budget (recover_budget options now) endpoint s

abbrev pub new_budget : Options → Budget
new_budget options = record {
  sent = [];
  background_sent = [];
  limit = options.rps;
  recover_at = 0;
  active = 0;
}

abbrev pub budget_of : Options → Option Budget → Budget
budget_of options none = new_budget options
budget_of options (some budget) = budget

abbrev pub count_if : Bool → ℕ
count_if true = 1
count_if false = 0

-- The start of `run`; `none` is the error `QueueFull`.
unfoldable pub admit : Options → ℕ → Bool → Scheduler → Option Scheduler
admit options endpoint background s =
    let budget = budget_of options (JsMap.get endpoint s.endpoints) in
    if leb options.capacity s.queued
      || (background && leb (background_share options.capacity) s.background_queued)
    then none
    else some (record s {
      endpoints = JsMap.set endpoint (record budget { active = budget.active + 1 }) s.endpoints;
      queued = s.queued + 1;
      background_queued = s.background_queued + count_if background;
    })

-- `while (sent[0] <= now - 1_000) sent.shift()`
unfoldable pub prune : ℕ → List ℕ → List ℕ
prune now [] = []
prune now (t ∷ sent) = let rest = prune now sent in if leb (t + 1000) now then rest else t ∷ sent

pub data Acquired : Type 0 where
  proceeds : Acquired
  sleeps : ℕ → Acquired

-- `Math.max(1, (sent[0] ?? now) + 1_000 - now)`
unfoldable pub delay : ℕ → List ℕ → ℕ
delay now [] = max 1 1000
delay now (t ∷ sent) = max 1 (t + 1000 - now)

-- One round of `acquire`.
unfoldable pub try_acquire : ℕ → Bool → Budget → Budget × Acquired
unfolding prune delay
try_acquire now background budget =
    let sent = prune now budget.sent in
    let background_sent = prune now budget.background_sent in
    let pruned = record budget { sent = sent; background_sent = background_sent } in
    if background && leb (background_share budget.limit) (length background_sent)
    then (pruned, sleeps (delay now background_sent))
    else if leb budget.limit (length sent)
    then (pruned, sleeps (delay now sent))
    else (
      record pruned {
        sent = sent ++ now ∷ [];
        background_sent = if background then background_sent ++ now ∷ [] else background_sent;
      },
      proceeds,
    )

pub start : Bool → Scheduler → Scheduler
start background s = record s {
  active = s.active + 1;
  background_active = s.background_active + count_if background;
}

pub finish : Bool → Scheduler → Scheduler
finish background s = record s {
  active = s.active - 1;
  background_active = s.background_active - count_if background;
}

pub leave : ℕ → Bool → Scheduler → Scheduler
leave endpoint background s =
    record (update_budget (λ b. record b { active = b.active - 1 }) endpoint s) {
      queued = s.queued - 1;
      background_queued = s.background_queued - count_if background;
    }
