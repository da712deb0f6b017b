-- ===== src/BatchQueue/Sound.antt =====
-- What always holds of the queue, and that its operations keep it.
use ether_state.Prelude.{
  ℕ, ◌+◌, ◌≤◌, ◌<◌, ◌≡◌, refl, ap, subst, ◌∙◌, Bool, true, false, not, none, some, List, [], ◌∷◌,
  ◌++◌, ltb, leb, ◌==◌, ==_iff, if◌then◌else◌, length, length-append, any, keep, Bool-cases,
  Option-cases, inl, inr, arith,
}
use ether_state.BatchQueue.{
  Options, Pending, take_batch, BatchExit, Queue, request, leave, is_empty, dispatch,
  settle_entries, holds_entry, complete, failed_batch, fail_entries, fail_drain,
}
use ether_state.BatchQueue.Take.{take_batch_lem}
use ether_state.BatchQueue.Counts.{
  times, results_of, under_way, times-append, results_of-append, results_of-settle_entries,
  holds_entry-times, times-drop_entry, times-keep, length-keep_le,
}

-- The queue, with the entries that it ever accepted and those whose requests ended.
pub record Ledger : Type 0 where
  pub queue : Queue
  pub accepted : List ℕ
  pub left : List ℕ

abbrev pub mentions : List ℕ → ℕ → Bool
mentions ids id = any (λ i. i == id) ids

pub record IsSound (options : Options) (l : Ledger) : Type 0 where
  pub within : length l.queue.pending ≤ options.capacity
  pub awake : 0 < length l.queue.pending → l.queue.running ≡ true
  pub at_work : (id : ℕ) → 0 < under_way id l.queue.active → l.queue.running ≡ true
  pub waits : (id : ℕ) → times id l.queue.pending + results_of id l.queue.results ≤ 1
  pub once : (id : ℕ) → under_way id l.queue.active + results_of id l.queue.results ≤ 1
  pub fresh :
      (id : ℕ)
      → mentions l.accepted id ≡ false
      → times id l.queue.pending + under_way id l.queue.active + results_of id l.queue.results ≡ 0
  pub served :
      (id : ℕ)
      → mentions l.accepted id ≡ true
      → mentions l.left id ≡ false
      → times id l.queue.pending + results_of id l.queue.results ≡ 1

pub request-IsSound :
    (options : Options) (l : Ledger) (e : Pending) (q : Queue)
    → mentions l.accepted e.entry ≡ false
    → request options e l.queue ≡ some q
    → IsSound options l
    → IsSound options (record l { queue = q; accepted = e.entry ∷ l.accepted })
unfolding request
request-IsSound options l e q new h s =
    elim (Bool-cases (leb options.capacity (length l.queue.pending))) [
      | inl full ↦ absurd (cc (rw (full, request) at h))
      | inr room ↦
          let q' : some (record l.queue { pending = l.queue.pending ++ e ∷ []; running = true })
              ≡ some q =
            rw (room, request) at h in
          let same : record l.queue { pending = l.queue.pending ++ e ∷ []; running = true } ≡ q =
            cc q' in
          subst (λ o. IsSound options (record l { queue = o; accepted = e.entry ∷ l.accepted }))
            same
            (record {
              within = ground (arith, room, length-append l.queue.pending (e ∷ []));
              awake = λ _. refl;
              at_work = λ _ _. refl;
              waits = λ id. ground (
                arith,
                s.waits id,
                s.fresh id,
                times-append id l.queue.pending (e ∷ []),
                ==_iff e.entry id,
                new,
              );
              once = s.once;
              fresh =
                  λ id f. ground (arith, s.fresh id, times-append id l.queue.pending (e ∷ []), f);
              served = λ id m n. ground (
                arith,
                s.served id,
                s.fresh id,
                times-append id l.queue.pending (e ∷ []),
                ==_iff e.entry id,
                new,
                m,
                n,
              );
            })
    ]

pub leave-IsSound :
    (options : Options) (l : Ledger) (k : ℕ)
    → IsSound options l
    → IsSound options (record l { queue = leave k l.queue; left = k ∷ l.left })
unfolding leave
leave-IsSound options l k s = record {
  within = omega (arith, s.within, length-keep_le (λ e. not (e.entry == k)) l.queue.pending);
  awake = λ h. s.awake (omega (arith, h, length-keep_le (λ e. not (e.entry == k)) l.queue.pending));
  at_work = s.at_work;
  waits = λ id. ground (arith, s.waits id, times-drop_entry k id l.queue.pending);
  once = s.once;
  fresh = λ id f. ground (arith, s.fresh id f, times-drop_entry k id l.queue.pending);
  served = λ id m n. ground (arith, s.served id m, times-drop_entry k id l.queue.pending, n);
}

pub dispatch-IsSound :
    (options : Options) (l : Ledger) (q : Queue)
    → 1 ≤ options.size
    → l.queue.running ≡ true
    → dispatch options l.queue ≡ some q
    → IsSound options l
    → IsSound options (record l { queue = q })
unfolding dispatch
dispatch-IsSound options l q pos runs h s = elim (Bool-cases (is_empty l.queue.pending)) [
  | inl over ↦ absurd (cc (rw (over, dispatch) at h))
  | inr more ↦
      let q' : some (record l.queue { active = some (take_batch options l.queue.pending) })
          ≡ some q =
        rw (more, dispatch) at h in
      let same : record l.queue { active = some (take_batch options l.queue.pending) } ≡ q =
        cc q' in
      subst (λ o. IsSound options (record l { queue = o })) same
        (record {
          within = s.within;
          awake = s.awake;
          at_work = λ _ _. runs;
          waits = s.waits;
          once = λ id. omega (arith, s.waits id, part id);
          fresh = λ id f. omega (arith, s.fresh id f, part id);
          served = s.served;
        })
]
  where
    part : (id : ℕ) → times id (take_batch options l.queue.pending) ≤ times id l.queue.pending
    part id =
        let batch = (take_batch_lem options l.queue.pending pos).0 in
        omega (
          arith,
          ap (times id) batch.is_prefix,
          times-append id (take_batch options l.queue.pending) batch.rest,
        )

pub complete-IsSound :
    (options : Options) (l : Ledger) (entries : List Pending) (exit : BatchExit)
    → l.queue.active ≡ some entries
    → IsSound options l
    → IsSound options (record l { queue = complete exit l.queue })
unfolding complete
complete-IsSound options l entries exit a s =
    rw (a, complete)
      (record {
        within = omega (arith, s.within, length-keep_le stays l.queue.pending);
        awake = λ h. s.awake (omega (arith, h, length-keep_le stays l.queue.pending));
        at_work = λ id h. absurd (omega (arith, h));
        waits = λ id. ground (arith, s.waits id, s.once id, counts id);
        once = λ id. ground (arith, s.waits id, s.once id, counts id);
        fresh = λ id f. ground (arith, s.fresh id f, counts id);
        served = λ id m n. ground (arith, s.served id m n, s.once id, counts id);
      })
  where
    stays : Pending → Bool
    stays e = not (holds_entry entries e.entry)

    counts :
        (id : ℕ)
        → (times id (keep stays l.queue.pending)
            ≡ (if ltb 0 (times id entries) then 0 else times id l.queue.pending))
          × (results_of id (settle_entries entries exit ++ l.queue.results)
              ≡ times id entries + results_of id l.queue.results)
          × (under_way id l.queue.active ≡ times id entries)
    counts id = (
      times-keep id entries l.queue.pending
          ∙ ap (λ b. if b then 0 else times id l.queue.pending) (holds_entry-times id entries),
      results_of-append id (settle_entries entries exit) l.queue.results
          ∙ ap (λ n. n + results_of id l.queue.results) (results_of-settle_entries id entries exit),
      ap (under_way id) a,
    )

results_of-fail_entries :
    (id : ℕ) (entries : List Pending) → results_of id (fail_entries entries) ≡ times id entries
results_of-fail_entries id [] = refl
results_of-fail_entries id (e ∷ entries) = ground (arith, results_of-fail_entries id entries)

-- Where no batch runs, to fail what is pending gives each entry its result.
fail_pending-IsSound :
    (options : Options) (l : Ledger)
    → l.queue.active ≡ none
    → IsSound options l
    → IsSound options (record l {
      queue = record l.queue {
        pending = [];
        running = false;
        results = fail_entries l.queue.pending ++ l.queue.results;
      };
    })
fail_pending-IsSound options l a s = record {
  within = omega arith;
  awake = λ h. absurd (omega (arith, h));
  at_work = λ id h. absurd (omega (arith, h, idle id));
  waits = λ id. omega (arith, s.waits id, counts id);
  once = λ id. omega (arith, s.waits id, counts id, idle id);
  fresh = λ id f. omega (arith, s.fresh id f, counts id, idle id);
  served = λ id m n. omega (arith, s.served id m n, counts id);
}
  where
    idle : (id : ℕ) → under_way id l.queue.active ≡ 0
    idle id = ap (under_way id) a

    counts :
        (id : ℕ)
        → results_of id (fail_entries l.queue.pending ++ l.queue.results)
          ≡ times id l.queue.pending + results_of id l.queue.results
    counts id =
        results_of-append id (fail_entries l.queue.pending) l.queue.results
        ∙ ap (λ n. n + results_of id l.queue.results) (results_of-fail_entries id l.queue.pending)

pub fail_drain-IsSound :
    (options : Options) (l : Ledger)
    → IsSound options l
    → IsSound options (record l { queue = fail_drain l.queue })
unfolding fail_drain
fail_drain-IsSound options l s = elim (Option-cases l.queue.active) [
  | inl idle ↦ rw (idle, complete, fail_drain) (fail_pending-IsSound options l idle s)
  | inr (entries, a) ↦
      let ended = record l { queue = complete failed_batch l.queue } in
      fail_pending-IsSound options ended (rw (a, complete) refl)
        (complete-IsSound options l entries failed_batch a s)
]
