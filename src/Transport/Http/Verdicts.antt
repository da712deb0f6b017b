-- ===== src/Transport/Http/Verdicts.antt =====
-- What an answer to a batch leads to: an end, or the batch once more in smaller envelopes or one by
-- one.
use ether_state.Prelude.{
  ℕ, ◌≤◌, ◌<◌, ◌≡◌, refl, true, some, List, ltb, length, Bool-cases, Option-cases, ◌⊎◌, inl, inr,
  arith,
}
use ether_state.Prelude.Results.{ok, err}
use ether_state.Transport.Http.{
  WireRequest, batch, Item, array, item, HttpError, Exit, Batcher, Environment, answer_of,
  match_each, smaller_maximum, maximum_of, refuses_batches, all_responses, Verdict, finish, again,
  read_answer,
}
use ether_state.Transport.Http.Answers.{IsReply, exits-IsReply, match_each_lem}

-- What comes of it.
abbrev pub Judged : Environment → List WireRequest → Batcher → Verdict → Type 0
Judged env requests s (finish o) =
    IsReply env requests s o ⊎ ((error : HttpError) × (o ≡ (err error, s)))
Judged env requests s (again t) =
    ((1 ≤ t.limit) × (t.limit < length requests))
    ⊎ ((t.limit ≡ s.limit) × (ltb (env.now t.stats.envelopes) t.unsupported_until ≡ true))

smaller_maximum_lem :
    (env : Environment) (sent : ℕ) (i : Item) (n : ℕ)
    → smaller_maximum env sent i ≡ some n
    → (1 ≤ n) × (n < sent)
smaller_maximum_lem env sent i n e = elim (Option-cases (maximum_of env i)) [
  | inl nothing ↦ absurd (cc (rw (nothing, smaller_maximum) at e))
  | inr (m, found) ↦ ground (arith, found, e)
]

pub read_answer-Judged :
    (env : Environment) (requests : List WireRequest) (n : ℕ) (exit : Exit) (s : Batcher)
    → 1 ≤ s.limit
    → answer_of env n (batch requests) ≡ exit
    → Judged env requests s (read_answer env requests exit s)
unfolding read_answer
read_answer-Judged env requests n (err error) s pos e = inr (error, refl)
read_answer-Judged env requests n (ok (item i)) s pos e =
    elim (Option-cases (smaller_maximum env (length requests) i)) [
      | inr (m, smaller) ↦
          rw (smaller, read_answer) (inl (smaller_maximum_lem env (length requests) i m smaller))
      | inl other ↦ elim (Bool-cases (refuses_batches i)) [
        | inl refuses ↦ rw (other, refuses, read_answer) (inr (refl, ground arith))
        | inr not_known ↦ rw (other, not_known, read_answer) (inr (_, refl))
      ]
    ]
read_answer-Judged env requests n (ok (array items)) s pos e =
    elim (Bool-cases (all_responses items)) [
      | inl good ↦
          let matched = match_each_lem env items requests s n requests e (λ r i. i) in
          rw (good, read_answer)
            (inl (
              exits-IsReply env requests s (match_each env items requests s).1
                (match_each env items requests s).0 pos matched.0 matched.1))
      | inr bad ↦ rw (bad, read_answer) (inr (_, refl))
    ]
