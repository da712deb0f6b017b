-- ===== src/BatchQueue.antt =====
-- `BatchQueue` of src/rpc/transport/queue.ts: requests that wait to be sent together. An entry is
-- known by a number, as objects are by identity. The fiber of `drain` and those of the requests run
-- between the points where they wait, each of which is an operation here: `request`, `leave`,
-- `dispatch`, `complete`, and the two ends of `drain`, `stop` and `fail_drain`.
pub mod Take
pub mod Counts
pub mod Sound
pub mod Drain
use ether_state.Prelude.{
  ℕ, ◌+◌, ◌<◌, Bool, true, false, not, ◌&&◌, ◌||◌, Option, none, some, List, [], ◌∷◌, ◌++◌, ltb,
  leb, ◌==◌, if◌then◌else◌, length, any, all, keep,
}

-- `weight` is `Math.max(0, options.weight(input))`.
pub record Options : Type 0 where
  pub size : ℕ
  pub max_weight : Option ℕ
  pub weight : Option (ℕ → ℕ)
  pub capacity : ℕ

pub record Pending : Type 0 where
  pub entry : ℕ
  pub input : ℕ

abbrev pub sum_by : (ℕ → ℕ) → List Pending → ℕ
sum_by f [] = 0
sum_by f (e ∷ entries) = f e.input + sum_by f entries

abbrev weigh : Option (ℕ → ℕ) → List Pending → ℕ
weigh none entries = length entries
weigh (some f) entries = sum_by f entries

unfoldable pub weight_of : Options → List Pending → ℕ
weight_of options entries = weigh options.weight entries

abbrev pub exceeds : Option ℕ → (ℕ → ℕ → Bool) → ℕ → Bool
exceeds none over weight = false
exceeds (some bound) over weight = over bound weight

pub is_full : Options → List Pending → Bool
is_full options pending =
    leb options.size (length pending) || exceeds options.max_weight leb (weight_of options pending)

-- The loop of `take`.
unfoldable pub take_more : Options → List Pending → List Pending → List Pending
take_more options selected [] = selected
take_more options selected (e ∷ rest) =
    let more = take_more options (selected ++ e ∷ []) rest in
    if leb options.size (length selected)
    then selected
    else if ltb 0 (length selected)
        && exceeds options.max_weight ltb (weight_of options (selected ++ e ∷ []))
    then selected
    else more

unfoldable pub take_batch : Options → List Pending → List Pending
unfolding take_more
take_batch options pending = take_more options [] pending

-- What a request gets: an answer of the batch, the failure of the batch or of `drain`, or the defect
-- "Missing batch result".
pub data Result : Type 0 where
  answered : ℕ → Result
  batch_failed drain_failed missing : Result

-- How a batch ends: with answers, or with a failure.
pub data BatchExit : Type 0 where
  completed : List ℕ → BatchExit
  failed_batch : BatchExit

-- `results` are the deferred results that are done, the latest first.
pub record Queue : Type 0 where
  pub pending : List Pending
  pub running : Bool
  pub active : Option (List Pending)
  pub results : List (ℕ × Result)

-- `request`, up to where it waits for its result; `none` is `QueueFull`.
unfoldable pub request : Options → Pending → Queue → Option Queue
request options e q =
    if leb options.capacity (length q.pending)
    then none
    else some (record q { pending = q.pending ++ e ∷ []; running = true })

abbrev pub drop_entry : ℕ → List Pending → List Pending
drop_entry id pending = keep (λ e. not (e.entry == id)) pending

-- The end of `request`, with a result or interrupted.
pub leave : ℕ → Queue → Queue
leave id q = record q { pending = drop_entry id q.pending }

abbrev pub is_empty : List Pending → Bool
is_empty [] = true
is_empty (e ∷ rest) = false

-- A round of `drain` up to where it waits for the batch; `none` where the loop is over.
unfoldable pub dispatch : Options → Queue → Option Queue
dispatch options q =
    if is_empty q.pending
    then none
    else some (record q { active = some (take_batch options q.pending) })

-- `exit.value[index] ?? Exit.die("Missing batch result")`
unfoldable pub settle_entries : List Pending → BatchExit → List (ℕ × Result)
settle_entries [] exit = []
settle_entries (e ∷ rest) failed_batch = (e.entry, batch_failed) ∷ settle_entries rest failed_batch
settle_entries (e ∷ rest) (completed []) = (e.entry, missing) ∷ settle_entries rest (completed [])
settle_entries (e ∷ rest) (completed (v ∷ vs)) =
    (e.entry, answered v) ∷ settle_entries rest (completed vs)

abbrev pub holds_entry : List Pending → ℕ → Bool
holds_entry entries id = any (λ e. e.entry == id) entries

-- Whether the batch's requests have all left, which ends it without answers.
pub is_abandoned : Queue → List Pending → Bool
is_abandoned q entries = all (λ e. not (holds_entry q.pending e.entry)) entries

-- The end of a round.
unfoldable pub complete : BatchExit → Queue → Queue
unfolding settle_entries
complete exit q = elim q.active [
  | none ↦ q
  | some entries ↦ record q {
    pending = keep (λ e. not (holds_entry entries e.entry)) q.pending;
    active = none;
    results = settle_entries entries exit ++ q.results;
  }
]

-- The end of `drain`, where nothing is pending.
pub stop : Queue → Queue
stop q = record q { running = false }

abbrev pub fail_entries : List Pending → List (ℕ × Result)
fail_entries [] = []
fail_entries (e ∷ rest) = (e.entry, drain_failed) ∷ fail_entries rest

-- The end of `drain` by an interruption or a defect: a batch that runs ends with it, and then all that
-- is pending fails.
unfoldable pub fail_drain : Queue → Queue
unfolding complete
fail_drain q =
    let ended : Queue = complete failed_batch q in
    record ended {
      pending = [];
      running = false;
      results = fail_entries ended.pending ++ ended.results;
    }
