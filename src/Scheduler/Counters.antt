-- ===== src/Scheduler/Counters.antt =====
-- The counters of the scheduler against the requests that are under way.
use ether_state.Prelude.{
  ℕ, ◌+◌, ◌-◌, ◌≤◌, ◌≡◌, refl, subst, Bool, true, false, ◌&&◌, some, List, [], ◌∷◌, ◌++◌, ◌==◌,
  ==_iff, Option-cases, inl, inr, arith,
}
use ether_state.Prelude.JsMap
use ether_state.Prelude.JsMap.{nat_eq}
use ether_state.Scheduler.{
  Options, Budget, Scheduler, background_share, budget_of, count_if, load, admit, start, finish,
  leave, throttle, recover, throttle_budget, recover_budget, update_budget,
}

-- A request under way: `running` between `start` and `finish`.
pub record Job : Type 0 where
  pub endpoint : ℕ
  pub background : Bool
  pub running : Bool

abbrev pub count : (Job → Bool) → List Job → ℕ
count test [] = 0
count test (job ∷ jobs) = count_if (test job) + count test jobs

pub count-append :
    (test : Job → Bool) (xs ys : List Job) → count test (xs ++ ys) ≡ count test xs + count test ys
count-append test [] ys = omega arith
count-append test (x ∷ xs) ys = omega (arith, count-append test xs ys)

count-replace :
    (xs ys : List Job) (j i : Job) (test : Job → Bool)
    → count test (xs ++ i ∷ ys) + count_if (test j) ≡ count test (xs ++ j ∷ ys) + count_if (test i)
count-replace xs ys j i test =
    omega (arith, count-append test xs (i ∷ ys), count-append test xs (j ∷ ys))

-- The counters of `stats` say how many requests are under way and running, of either kind, and
-- `load` how many are under way at each endpoint. Neither kind is over its capacity.
pub record Balanced (options : Options) (s : Scheduler) (jobs : List Job) : Type 0 where
  pub outstanding : s.queued ≡ count (λ j. true) jobs
  pub background_outstanding : s.background_queued ≡ count (λ j. j.background) jobs
  pub active : s.active ≡ count (λ j. j.running) jobs
  pub background_active : s.background_active ≡ count (λ j. j.background && j.running) jobs
  pub at_endpoint : (e : ℕ) → load s e ≡ count (λ j. j.endpoint == e) jobs
  pub within : s.queued ≤ options.capacity
  pub background_within : s.background_queued ≤ background_share options.capacity

abbrev waiting_at : ℕ → Bool → Job
waiting_at endpoint background = record {
  endpoint = endpoint;
  background = background;
  running = false;
}

-- A step of the scheduler, with what it does to the requests under way.
pub data Step (options : Options) (s : Scheduler) (jobs : List Job)
    : Scheduler → List Job → Type 0 where
  admits :
      (endpoint : ℕ) (background : Bool) (s' : Scheduler)
      → admit options endpoint background s ≡ some s'
      → Step options s jobs s' (waiting_at endpoint background ∷ jobs)
  starts :
      (xs ys : List Job) (j : Job)
      → jobs ≡ xs ++ j ∷ ys
      → j.running ≡ false
      → Step options s jobs (start j.background s) (xs ++ record j { running = true } ∷ ys)
  finishes :
      (xs ys : List Job) (j : Job)
      → jobs ≡ xs ++ j ∷ ys
      → j.running ≡ true
      → Step options s jobs (finish j.background s) (xs ++ record j { running = false } ∷ ys)
  leaves :
      (xs ys : List Job) (j : Job)
      → jobs ≡ xs ++ j ∷ ys
      → j.running ≡ false
      → Step options s jobs (leave j.endpoint j.background s) (xs ++ ys)
  throttles : (endpoint now : ℕ) → Step options s jobs (throttle endpoint now s) jobs
  recovers : (endpoint now : ℕ) → Step options s jobs (recover options endpoint now s) jobs

admit-Balanced :
    (options : Options) (s s' : Scheduler) (jobs : List Job) (endpoint : ℕ) (background : Bool)
    → admit options endpoint background s ≡ some s'
    → Balanced options s jobs
    → Balanced options s' (waiting_at endpoint background ∷ jobs)
unfolding admit load
admit-Balanced options s s' jobs endpoint background e b = record {
  outstanding = ground (arith, b.outstanding);
  background_outstanding = ground (arith, b.background_outstanding);
  active = ground (arith, b.active);
  background_active = ground (arith, b.background_active);
  at_endpoint = λ k. ground (
    arith,
    b.at_endpoint k,
    JsMap.get-set endpoint k
        (record (budget_of options (JsMap.get endpoint s.endpoints)) {
          active = (budget_of options (JsMap.get endpoint s.endpoints)).active + 1;
        })
        s.endpoints,
    ==_iff endpoint k,
  );
  within = ground (arith, b.within);
  background_within = ground (arith, b.background_within);
}

start-Balanced :
    (options : Options) (s : Scheduler) (xs ys : List Job) (j : Job)
    → j.running ≡ false
    → Balanced options s (xs ++ j ∷ ys)
    → Balanced options (start j.background s) (xs ++ record j { running = true } ∷ ys)
unfolding start load
start-Balanced options s xs ys j e b =
    let swap = count-replace xs ys j (record j { running = true }) in
    record {
      outstanding = ground (arith, b.outstanding, swap (λ j. true));
      background_outstanding = ground (arith, b.background_outstanding, swap (λ j. j.background));
      active = ground (arith, b.active, swap (λ j. j.running));
      background_active =
          ground (arith, b.background_active, swap (λ j. j.background && j.running));
      at_endpoint = λ k. ground (arith, b.at_endpoint k, swap (λ j. j.endpoint == k));
      within = b.within;
      background_within = b.background_within;
    }

finish-Balanced :
    (options : Options) (s : Scheduler) (xs ys : List Job) (j : Job)
    → j.running ≡ true
    → Balanced options s (xs ++ j ∷ ys)
    → Balanced options (finish j.background s) (xs ++ record j { running = false } ∷ ys)
unfolding finish load
finish-Balanced options s xs ys j e b =
    let swap = count-replace xs ys j (record j { running = false }) in
    record {
      outstanding = ground (arith, b.outstanding, swap (λ j. true));
      background_outstanding = ground (arith, b.background_outstanding, swap (λ j. j.background));
      active = ground (arith, b.active, swap (λ j. j.running));
      background_active =
          ground (arith, b.background_active, swap (λ j. j.background && j.running));
      at_endpoint = λ k. ground (arith, b.at_endpoint k, swap (λ j. j.endpoint == k));
      within = b.within;
      background_within = b.background_within;
    }

leave-Balanced :
    (options : Options) (s : Scheduler) (xs ys : List Job) (j : Job)
    → j.running ≡ false
    → Balanced options s (xs ++ j ∷ ys)
    → Balanced options (leave j.endpoint j.background s) (xs ++ ys)
unfolding leave load
leave-Balanced options s xs ys j e b = elim (Option-cases (JsMap.get j.endpoint s.endpoints)) [
  | inl missing ↦
      absurd (
        ground (arith, b.at_endpoint j.endpoint, drop_one (λ i. i.endpoint == j.endpoint), missing))
  | inr (budget, there) ↦
      rw (there, leave, update_budget)
        (record {
          outstanding = ground (arith, b.outstanding, drop_one (λ j. true));
          background_outstanding =
              ground (arith, b.background_outstanding, drop_one (λ j. j.background));
          active = ground (arith, b.active, drop_one (λ j. j.running));
          background_active =
              ground (arith, b.background_active, drop_one (λ j. j.background && j.running));
          at_endpoint = λ k. ground (
            arith,
            b.at_endpoint k,
            drop_one (λ i. i.endpoint == k),
            JsMap.get-set j.endpoint k (record budget { active = budget.active - 1 }) s.endpoints,
            ==_iff j.endpoint k,
            there,
          );
          within = ground (arith, b.within);
          background_within = ground (arith, b.background_within);
        })
]
  where
    drop_one :
        (test : Job → Bool) → count test (xs ++ j ∷ ys) ≡ count test (xs ++ ys) + count_if (test j)
    drop_one test = omega (arith, count-append test xs (j ∷ ys), count-append test xs ys)

same_active-Balanced :
    (options : Options) (s : Scheduler) (jobs : List Job) (endpoint : ℕ) (f : Budget → Budget)
    → ((b : Budget) → (f b).active ≡ b.active)
    → Balanced options s jobs
    → Balanced options (update_budget f endpoint s) jobs
unfolding load
same_active-Balanced options s jobs endpoint f same b =
    elim (Option-cases (JsMap.get endpoint s.endpoints)) [
      | inl missing ↦ rw (missing, update_budget) b
      | inr (budget, there) ↦
          rw (there, update_budget)
            (record {
              outstanding = b.outstanding;
              background_outstanding = b.background_outstanding;
              active = b.active;
              background_active = b.background_active;
              at_endpoint = λ k. ground (
                arith,
                b.at_endpoint k,
                JsMap.get-set endpoint k (f budget) s.endpoints,
                ==_iff endpoint k,
                there,
                same budget,
              );
              within = b.within;
              background_within = b.background_within;
            })
    ]

Step-Balanced :
    (options : Options) (s : Scheduler) (jobs : List Job) (s' : Scheduler) (jobs' : List Job)
    → Step options s jobs s' jobs'
    → Balanced options s jobs
    → Balanced options s' jobs'
unfolding throttle recover
Step-Balanced options s jobs s' jobs' (admits endpoint background _ e) b =
    admit-Balanced options s s' jobs endpoint background e b
Step-Balanced options s jobs s' jobs' (starts xs ys j e r) b =
    start-Balanced options s xs ys j r (subst (Balanced options s) e b)
Step-Balanced options s jobs s' jobs' (finishes xs ys j e r) b =
    finish-Balanced options s xs ys j r (subst (Balanced options s) e b)
Step-Balanced options s jobs s' jobs' (leaves xs ys j e r) b =
    leave-Balanced options s xs ys j r (subst (Balanced options s) e b)
Step-Balanced options s jobs s' jobs' (throttles endpoint now) b =
    same_active-Balanced options s jobs endpoint (throttle_budget now) (λ _. refl) b
Step-Balanced options s jobs s' jobs' (recovers endpoint now) b =
    same_active-Balanced options s jobs endpoint (recover_budget options now)
      (λ budget. ground arith) b

abbrev pub empty : Scheduler
empty = record {
  endpoints = [];
  queued = 0;
  background_queued = 0;
  active = 0;
  background_active = 0;
}

-- The states that the steps of a scheduler lead to, with the requests then under way.
pub data Reached (options : Options) : Scheduler → List Job → Type 0 where
  at_first : Reached options empty []
  and_then :
      (s s' : Scheduler) (jobs jobs' : List Job)
      → Reached options s jobs
      → Step options s jobs s' jobs'
      → Reached options s' jobs'

-- However requests are admitted, start, finish and leave, and whichever endpoints are throttled and
-- recover, the counters of the scheduler are the numbers of requests under way and running, of all
-- and of the background ones, the load of each endpoint is the number of requests under way at it,
-- and neither all requests nor the background ones are over their capacity.
pub counters_lem :
    (options : Options) (s : Scheduler) (jobs : List Job)
    → Reached options s jobs
    → Balanced options s jobs
unfolding load
counters_lem options s jobs at_first = record {
  outstanding = refl;
  background_outstanding = refl;
  active = refl;
  background_active = refl;
  at_endpoint = λ _. refl;
  within = omega arith;
  background_within = omega arith;
}
counters_lem options s jobs (and_then s₀ _ jobs₀ _ before step) =
    Step-Balanced options s₀ jobs₀ s jobs step (counters_lem options s₀ jobs₀ before)
