-- ===== src/BatchQueue/Drain.antt =====
-- The queue over time: requests, the fiber that drains it, and the results.
use ether_state.Prelude.{
  ℕ, ◌≤◌, ◌≡◌, refl, ap, true, false, none, some, List, [], ◌∷◌, length, arith,
}
use ether_state.BatchQueue.{
  Options, Pending, BatchExit, Queue, request, leave, is_empty, dispatch, completed, is_abandoned,
  complete, stop, fail_drain,
}
use ether_state.BatchQueue.Counts.{under_way}
use ether_state.BatchQueue.Sound.{
  Ledger, mentions, IsSound, request-IsSound, leave-IsSound, dispatch-IsSound, complete-IsSound,
  fail_drain-IsSound,
}

-- A batch ends with the answers, or without if its requests have all left.
pub data Ends (q : Queue) (entries : List Pending) : BatchExit → Type 0 where
  answers : (exit : BatchExit) → Ends q entries exit
  abandons : is_abandoned q entries ≡ true → Ends q entries (completed [])

pub data Step (options : Options) (l : Ledger) : Ledger → Type 0 where
  requests :
      (e : Pending) (q : Queue)
      → mentions l.accepted e.entry ≡ false
      → request options e l.queue ≡ some q
      → Step options l (record l { queue = q; accepted = e.entry ∷ l.accepted })
  leaves : (id : ℕ) → Step options l (record l { queue = leave id l.queue; left = id ∷ l.left })
  dispatches :
      (q : Queue)
      → l.queue.running ≡ true
      → l.queue.active ≡ none
      → dispatch options l.queue ≡ some q
      → Step options l (record l { queue = q })
  completes :
      (entries : List Pending) (exit : BatchExit)
      → l.queue.active ≡ some entries
      → Ends l.queue entries exit
      → Step options l (record l { queue = complete exit l.queue })
  stops :
      l.queue.active ≡ none
      → is_empty l.queue.pending ≡ true
      → Step options l (record l { queue = stop l.queue })
  fails : l.queue.running ≡ true → Step options l (record l { queue = fail_drain l.queue })

Step-IsSound :
    (options : Options) (l l' : Ledger)
    → 1 ≤ options.size
    → Step options l l'
    → IsSound options l
    → IsSound options l'
unfolding stop
Step-IsSound options l _ pos (requests e q new h) s = request-IsSound options l e q new h s
Step-IsSound options l _ pos (leaves id) s = leave-IsSound options l id s
Step-IsSound options l _ pos (dispatches q runs a h) s = dispatch-IsSound options l q pos runs h s
Step-IsSound options l _ pos (completes entries exit a _) s =
    complete-IsSound options l entries exit a s
Step-IsSound options l _ pos (fails runs) s = fail_drain-IsSound options l s
Step-IsSound options l _ pos (stops a empty) s = record {
  within = s.within;
  awake = λ h. absurd (ground (arith, h, empty_length l.queue.pending empty));
  at_work = λ id h. absurd (omega (arith, h, ap (under_way id) a));
  waits = s.waits;
  once = s.once;
  fresh = s.fresh;
  served = s.served;
}
  where
    empty_length : (entries : List Pending) → is_empty entries ≡ true → length entries ≡ 0
    empty_length [] h = refl
    empty_length (e ∷ entries) h = absurd (cc h)

abbrev pub first_ledger : Ledger
first_ledger = record {
  queue = record { pending = []; running = false; active = none; results = [] };
  accepted = [];
  left = [];
}

pub data Reached (options : Options) : Ledger → Type 0 where
  at_first : Reached options first_ledger
  and_then : (l l' : Ledger) → Reached options l → Step options l l' → Reached options l'

-- Where a batch may have at least one entry, in every state that the queue reaches, also after an
-- interruption or a defect of `drain` at any point: no more entries are pending than its capacity;
-- while entries are pending, or in a batch, the fiber of `drain` runs; no entry has two results; and
-- every accepted entry whose request has not ended is either pending, once, or has its one result.
pub drain_lem :
    (options : Options) (l : Ledger) → 1 ≤ options.size → Reached options l → IsSound options l
drain_lem options l pos at_first = record {
  within = omega arith;
  awake = λ h. absurd (omega (arith, h));
  at_work = λ id h. absurd (omega (arith, h));
  waits = λ id. omega arith;
  once = λ id. omega arith;
  fresh = λ id f. refl;
  served = λ id m n. absurd (cc m);
}
drain_lem options l pos (and_then l₀ _ r step) =
    Step-IsSound options l₀ l pos step (drain_lem options l₀ pos r)
