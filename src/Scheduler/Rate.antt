-- ===== src/Scheduler/Rate.antt =====
-- The limit on requests per second, against the whole history of what was sent.
use ether_state.Prelude.{
  ℕ, suc, ◌+◌, ◌≤◌, ◌≡◌, refl, Bool, true, List, [], ◌∷◌, ◌++◌, ltb, if◌then◌else◌, length, arith,
}
use ether_state.Scheduler.{
  Options, Budget, background_share, throttle_budget, recover_budget, new_budget, prune, Acquired,
  proceeds, try_acquire,
}

-- The requests that were sent in the second up to `now`.
unfoldable pub sent_within : ℕ → List ℕ → ℕ
sent_within now [] = 0
sent_within now (t ∷ times) =
    if ltb now (t + 1000) then suc (sent_within now times) else sent_within now times

sent_within-append :
    (now : ℕ) (xs ys : List ℕ)
    → sent_within now (xs ++ ys) ≡ sent_within now xs + sent_within now ys
unfolding sent_within
sent_within-append now [] ys = omega arith
sent_within-append now (x ∷ xs) ys = ground (arith, sent_within-append now xs ys)

sent_within-le : (now : ℕ) (xs : List ℕ) → sent_within now xs ≤ length xs
unfolding sent_within
sent_within-le now [] = omega arith
sent_within-le now (x ∷ xs) = ground (arith, sent_within-le now xs)

sent_within-prune :
    (now later : ℕ) (xs : List ℕ)
    → now ≤ later
    → sent_within later (prune now xs) ≡ sent_within later xs
unfolding sent_within prune
sent_within-prune now later [] h = refl
sent_within-prune now later (x ∷ xs) h = ground (arith, sent_within-prune now later xs h)

-- What happens to the budget of one endpoint.
pub data Event : Type 0 where
  attempts : ℕ → Bool → Event
  throttles recovers : ℕ → Event

abbrev pub time : Event → ℕ
time (attempts now background) = now
time (throttles now) = now
time (recovers now) = now

-- The budget, and the times of all requests that were sent, and of the background ones.
pub record Ledger : Type 0 where
  pub budget : Budget
  pub history : List ℕ
  pub background_history : List ℕ
  pub clock : ℕ

abbrev add_if : Acquired → Bool → ℕ → List ℕ → List ℕ
add_if proceeds true now times = times ++ now ∷ []
add_if _ _ now times = times

unfoldable pub step : Options → Ledger → Event → Ledger
step options l (attempts now background) =
    let (budget, acquired) = try_acquire now background l.budget in
    record {
      budget = budget;
      history = add_if acquired true now l.history;
      background_history = add_if acquired background now l.background_history;
      clock = now;
    }
step options l (throttles now) = record l { budget = throttle_budget now l.budget; clock = now }
step options l (recovers now) = record l {
  budget = recover_budget options now l.budget;
  clock = now;
}

-- The budget remembers what still counts, and its limit is from one to `rps`.
pub record Counts (options : Options) (l : Ledger) : Type 0 where
  pub all_sent :
      (later : ℕ) → l.clock ≤ later → sent_within later l.history ≡ sent_within later l.budget.sent
  pub background_sent :
      (later : ℕ)
      → l.clock ≤ later
      → sent_within later l.background_history ≡ sent_within later l.budget.background_sent
  pub least : 1 ≤ l.budget.limit
  pub most : l.budget.limit ≤ options.rps

step-Counts :
    (options : Options) (l : Ledger) (event : Event)
    → l.clock ≤ time event
    → Counts options l
    → Counts options (step options l event)
unfolding step try_acquire throttle_budget recover_budget
step-Counts options l (attempts now background) h c = record {
  all_sent = λ later k. ground (
    arith,
    c.all_sent later,
    sent_within-prune now later l.budget.sent,
    sent_within-append later l.history (now ∷ []),
    sent_within-append later (prune now l.budget.sent) (now ∷ []),
  );
  background_sent = λ later k. ground (
    arith,
    c.background_sent later,
    sent_within-prune now later l.budget.background_sent,
    sent_within-append later l.background_history (now ∷ []),
    sent_within-append later (prune now l.budget.background_sent) (now ∷ []),
  );
  least = ground (arith, c.least);
  most = ground (arith, c.most);
}
step-Counts options l (throttles now) h c = record {
  all_sent = λ later k. c.all_sent later (omega arith);
  background_sent = λ later k. c.background_sent later (omega arith);
  least = omega arith;
  most = omega (arith, c.least, c.most);
}
step-Counts options l (recovers now) h c = record {
  all_sent = λ later k. ground (arith, c.all_sent later);
  background_sent = λ later k. ground (arith, c.background_sent later);
  least = ground (arith, c.least, c.most);
  most = ground (arith, c.most);
}

unfoldable pub run : Options → Ledger → List Event → Ledger
unfolding step
run options l [] = l
run options l (event ∷ events) = run options (step options l event) events

-- The clock of the process does not go back.
abbrev pub InOrder : ℕ → List Event → Type 0
InOrder clock [] = Unit {0}
InOrder clock (event ∷ events) = (clock ≤ time event) × InOrder (time event) events

abbrev pub empty_ledger : Options → Ledger
empty_ledger options = record {
  budget = new_budget options;
  history = [];
  background_history = [];
  clock = 0;
}

clock-step :
    (options : Options) (l : Ledger) (event : Event) → (step options l event).clock ≡ time event
unfolding step
clock-step options l (attempts now background) = refl
clock-step options l (throttles now) = refl
clock-step options l (recovers now) = refl

run-Counts :
    (options : Options) (l : Ledger) (events : List Event)
    → InOrder l.clock events
    → Counts options l
    → Counts options (run options l events)
unfolding run
run-Counts options l [] o c = c
run-Counts options l (event ∷ events) o c =
    run-Counts options (step options l event) events (rw (clock-step options l event) o.1)
      (step-Counts options l event o.0 c)

empty-Counts : (options : Options) → 1 ≤ options.rps → Counts options (empty_ledger options)
unfolding sent_within
empty-Counts options h = record {
  all_sent = λ later k. refl;
  background_sent = λ later k. refl;
  least = h;
  most = omega arith;
}

attempt_bounds :
    (options : Options) (l : Ledger) (now : ℕ) (background : Bool)
    → l.clock ≤ now
    → Counts options l
    → (try_acquire now background l.budget).1 ≡ proceeds
    → (sent_within now (step options l (attempts now background)).history ≤ l.budget.limit)
      × (background ≡ true
          → sent_within now (step options l (attempts now background)).background_history
            ≤ background_share l.budget.limit)
unfolding step try_acquire
attempt_bounds options l now background h c e = (
  ground (
    arith,
    c.all_sent now,
    sent_within-prune now now l.budget.sent,
    sent_within-append now l.history (now ∷ []),
    sent_within-le now (prune now l.budget.sent),
    sent_within-le now (now ∷ []),
  ),
  λ b. ground (
    arith,
    c.background_sent now,
    sent_within-prune now now l.budget.background_sent,
    sent_within-append now l.background_history (now ∷ []),
    sent_within-le now (prune now l.budget.background_sent),
    sent_within-le now (now ∷ []),
  ),
)

-- After any attempts, throttlings and recoveries of an endpoint, at times that do not go back, a
-- request that is let through is within the endpoint's limit: in the second up to now, itself
-- included, no more requests were sent than the limit, which is from one to `rps`; and if it is a
-- background request, no more background requests than the background share of the limit.
pub rate_limited :
    (options : Options) (events : List Event) (now : ℕ) (background : Bool)
    → 1 ≤ options.rps
    → InOrder 0 events
    → (run options (empty_ledger options) events).clock ≤ now
    → (try_acquire now background (run options (empty_ledger options) events).budget).1 ≡ proceeds
    → let l = run options (empty_ledger options) events in
      let l' = step options l (attempts now background) in
      (1 ≤ l.budget.limit)
      × (l.budget.limit ≤ options.rps)
      × (sent_within now l'.history ≤ l.budget.limit)
      × (background ≡ true
          → sent_within now l'.background_history ≤ background_share l.budget.limit)
rate_limited options events now background pos order h e =
    let l = run options (empty_ledger options) events in
    let c = run-Counts options (empty_ledger options) events order (empty-Counts options pos) in
    let bounds = attempt_bounds options l now background h c e in
    (c.least, c.most, bounds.0, bounds.1)
