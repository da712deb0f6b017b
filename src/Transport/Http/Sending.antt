-- ===== src/Transport/Http/Sending.antt =====
-- How the sending of a batch ends.
use ether_state.Prelude.{
  ℕ, zero, suc, ◌+◌, ◌*◌, ◌/◌, ◌≤◌, ◌<◌, ◌≡◌, refl, subst, true, false, ◌||◌, some, List, [], ◌∷◌,
  ◌++◌, ltb, ◌==◌, length, max, Bool-cases, inl, inr, arith,
}
use ether_state.Prelude.Results.{ok, err}
use ether_state.Transport.Http.{
  WireRequest, batch, HttpError, Exit, Batcher, Environment, execute, Outcome, Verdict, finish,
  again, fall_back, read_answer, is_too_large, slices, ceil_div, send_chunks, catch_too_large,
  send_batch, send_singly, send,
}
use ether_state.Transport.Http.Answers.{
  Answered, IsReply, Answered-append, exits-IsReply, later-IsReply, send_singly-IsReply,
}
use ether_state.Transport.Http.Slices.{concat, concat-slices, le-ceil_div, AllFit, slices-AllFit}
use ether_state.Transport.Http.Verdicts.{Judged, read_answer-Judged}

-- Why so much fuel is enough: it always is; or the batch is over the limit, and cut next; or batches
-- are known not to be supported.
data Suffices (env : Environment) (fuel : ℕ) (requests : List WireRequest) (s : Batcher)
    : Type 0 where
  always : 2 * length requests + 1 < fuel → Suffices env fuel requests s
  over_limit : s.limit < length requests → 2 * length requests < fuel → Suffices env fuel requests s
  singly :
      ltb (env.now s.stats.envelopes) s.unsupported_until ≡ true
      → 0 < fuel
      → Suffices env fuel requests s

abbrev Replies : Environment → ℕ → Type 0
Replies env fuel =
    (requests : List WireRequest) (s : Batcher)
    → 1 ≤ s.limit
    → Suffices env fuel requests s
    → (o : Outcome) × (send env fuel requests s ≡ some o) × IsReply env requests s o

module _ (env : Environment) (fuel : ℕ) (ih : Replies env fuel) where
  send_chunks_lem :
      (size : ℕ) (chunks : List (List WireRequest)) (s : Batcher)
      → 1 ≤ s.limit
      → 2 * size + 1 < fuel
      → AllFit size chunks
      → (o : Outcome) × (send_chunks (send env fuel) chunks s ≡ some o)
        × IsReply env (concat chunks) s o
  unfolding send_chunks
  send_chunks_lem size [] s pos enough fit =
      ((ok [], s), refl, exits-IsReply env [] s s [] pos refl tt)
  send_chunks_lem size (chunk ∷ chunks) s pos enough fit =
      go (λ t p. send_chunks_lem size chunks t p enough fit.1)
        (ih chunk s pos (always (omega (arith, enough, fit.0))))
    where
      after :
          (exits : List Exit) (t : Batcher)
          → send env fuel chunk s ≡ some (ok exits, t)
          → IsReply env chunk s (ok exits, t)
          → ((o : Outcome) × (send_chunks (send env fuel) chunks t ≡ some o)
              × IsReply env (concat chunks) t o)
          → (o : Outcome) × (send_chunks (send env fuel) (chunk ∷ chunks) s ≡ some o)
            × IsReply env (concat (chunk ∷ chunks)) s o
      after exits t e r ((err error, u), f, q) = (
        (err error, u),
        rw (e, f, send_chunks) refl,
        record {
          positive = q.positive;
          not_above = omega (arith, q.not_above, r.not_above);
          answers = λ others g. absurd (cc g);
          refused = q.refused;
        },
      )
      after exits t e r ((ok others, u), f, q) = (
        (ok (exits ++ others), u),
        rw (e, f, send_chunks) refl,
        record {
          positive = q.positive;
          not_above = omega (arith, q.not_above, r.not_above);
          answers = λ all g.
              subst (λ x. Answered env (concat (chunk ∷ chunks)) x) (cc g)
                (Answered-append env chunk (concat chunks) exits others (r.answers exits refl)
                  (q.answers others refl));
          refused = λ error g. absurd (cc g);
        },
      )

      go :
          ((t : Batcher)
            → 1 ≤ t.limit
            → (o : Outcome) × (send_chunks (send env fuel) chunks t ≡ some o)
              × IsReply env (concat chunks) t o)
          → ((o : Outcome) × (send env fuel chunk s ≡ some o) × IsReply env chunk s o)
          → (o : Outcome) × (send_chunks (send env fuel) (chunk ∷ chunks) s ≡ some o)
            × IsReply env (concat (chunk ∷ chunks)) s o
      go rest ((err error, t), e, r) = (
        (err error, t),
        rw (e, send_chunks) refl,
        record {
          positive = r.positive;
          not_above = r.not_above;
          answers = λ others g. absurd (cc g);
          refused = r.refused;
        },
      )
      go rest ((ok exits, t), e, r) = after exits t e r (rest t r.positive)

  -- The handler leaves an outcome that is a reply.
  catch_reply :
      (requests : List WireRequest) (s : Batcher) (o : Outcome)
      → IsReply env requests s o
      → catch_too_large (send env fuel) requests o ≡ some o
  unfolding catch_too_large
  catch_reply requests s (ok exits, t) r = refl
  catch_reply requests s (err error, t) r = rw (r.refused error refl, catch_too_large) refl

  -- It sends a batch that is too large again, with at most half of it in one envelope.
  catch_error :
      (requests : List WireRequest) (s : Batcher) (error : HttpError)
      → 1 ≤ s.limit
      → length requests ≤ s.limit
      → 1 < length requests
      → 2 * length requests < fuel
      → (o : Outcome) × (catch_too_large (send env fuel) requests (err error, s) ≡ some o)
        × IsReply env requests s o
  unfolding catch_too_large
  catch_error requests s error pos fits many enough = elim (Bool-cases (is_too_large error)) [
    | inl large ↦
        let half = max 1 (length requests / 2) in
        let r =
          ih requests (fall_back half s) (omega arith) (over_limit (omega (arith, many)) enough) in
        let several : ltb 1 (length requests) ≡ true = ground (arith, many) in
        (
          r.0,
          rw (large, several, catch_too_large) r.1,
          later-IsReply env requests s (fall_back half s) r.0 (omega (arith, many, fits)) r.2,
        )
    | inr other ↦ (
      (err error, s),
      rw (other, catch_too_large) refl,
      record {
        positive = pos;
        not_above = omega arith;
        answers = λ exits e. absurd (cc e);
        refused = λ e f. subst (λ x. is_too_large x ≡ false) {x = error} {y = e} (cc f) other;
      },
    )
  ]

  send_batch_lem :
      (requests : List WireRequest) (s : Batcher)
      → 1 ≤ s.limit
      → length requests ≤ s.limit
      → 1 < length requests
      → 2 * length requests < fuel
      → (o : Outcome) × (send_batch env (send env fuel) requests s ≡ some o)
        × IsReply env requests s o
  unfolding send_batch
  send_batch_lem requests s pos fits many enough =
      go (read_answer env requests exit t) refl
        (read_answer-Judged env requests s.stats.envelopes exit t pos refl)
    where
      exit : Exit
      exit = (execute env (batch requests) s).0

      t : Batcher
      t = (execute env (batch requests) s).1

      resent :
          (u : Batcher)
          → read_answer env requests exit t ≡ again u
          → u.limit ≤ s.limit
          → ((o : Outcome) × (send env fuel requests u ≡ some o) × IsReply env requests u o)
          → (o : Outcome) × (send_batch env (send env fuel) requests s ≡ some o)
            × IsReply env requests s o
      resent u e le (o, sent, r) = (
        o,
        rw (e, sent, send_batch) (catch_reply requests u o r),
        later-IsReply env requests s u o le r,
      )

      go :
          (v : Verdict)
          → read_answer env requests exit t ≡ v
          → Judged env requests t v
          → (o : Outcome) × (send_batch env (send env fuel) requests s ≡ some o)
            × IsReply env requests s o
      go (finish o) e (inl r) = (
        o,
        rw (e, send_batch) (catch_reply requests t o r),
        later-IsReply env requests s t o (omega arith) r,
      )
      go (finish o) e (inr (error, same)) =
          let c = catch_error requests t error pos fits many enough in
          (c.0, rw (e, same, send_batch) c.1, later-IsReply env requests s t c.0 (omega arith) c.2)
      go (again u) e (inl (low, high)) =
          resent u e (omega (arith, high, fits)) (ih requests u low (over_limit high enough))
      go (again u) e (inr (same, known)) =
          resent u e (omega (arith, same))
            (ih requests u (omega (arith, pos, same)) (singly known (omega (arith, enough))))

module _ (env : Environment) (fuel : ℕ) (request : WireRequest) (others : List WireRequest)
    (s : Batcher) (enough : Suffices env (suc fuel) (request ∷ others) s)
    (together : (ltb (env.now s.stats.envelopes) s.unsupported_until
        || length (request ∷ others) == 1)
      ≡ false) where
  several : 1 < length (request ∷ others)
  several = ground (arith, together)

  room_for_chunks : ltb s.limit (length (request ∷ others)) ≡ true → 2 * s.limit + 1 < fuel
  room_for_chunks over = elim enough [
    | always e ↦ ground (arith, over, e)
    | over_limit o e ↦ ground (arith, o, e)
    | singly known e ↦ absurd (cc (rw known at together))
  ]

  room_for_batch :
      ltb s.limit (length (request ∷ others)) ≡ false → 2 * length (request ∷ others) < fuel
  room_for_batch fits = elim enough [
    | always e ↦ omega (arith, e)
    | over_limit o e ↦ absurd (ground (arith, o, fits))
    | singly known e ↦ absurd (cc (rw known at together))
  ]

send-Replies : (env : Environment) (fuel : ℕ) → Replies env fuel
unfolding send
send-Replies env zero requests s pos (always enough) = absurd (omega (arith, enough))
send-Replies env zero requests s pos (over_limit over enough) = absurd (omega (arith, enough))
send-Replies env zero requests s pos (singly known enough) = absurd (omega (arith, enough))
send-Replies env (suc fuel) [] s pos enough =
    ((ok [], s), refl, exits-IsReply env [] s s [] pos refl tt)
send-Replies env (suc fuel) (request ∷ others) s pos enough =
    let requests : List WireRequest = request ∷ others in
    elim (Bool-cases
      (ltb (env.now s.stats.envelopes) s.unsupported_until || length requests == 1)) [
        | inl alone ↦ (
          send_singly env requests s,
          rw (alone, send) refl,
          send_singly-IsReply env requests s pos,
        )
        | inr together ↦ elim (Bool-cases (ltb s.limit (length requests))) [
          | inl over ↦
              let count = ceil_div (length requests) s.limit in
              let whole =
                concat-slices count s.limit requests (le-ceil_div (length requests) s.limit pos) in
              let r =
                send_chunks_lem env fuel (send-Replies env fuel) s.limit
                  (slices count s.limit requests) s pos
                  (room_for_chunks env fuel request others s enough together over)
                  (slices-AllFit count s.limit requests) in
              (r.0, rw (together, over, send) r.1, subst (λ x. IsReply env x s r.0) whole r.2)
          | inr fits ↦
              let many = several env fuel request others s enough together in
              let r =
                send_batch_lem env fuel (send-Replies env fuel) requests s pos
                  (ground (arith, fits)) many
                  (room_for_batch env fuel request others s enough together fits) in
              (r.0, rw (together, fits, send) r.1, r.2)
        ]
      ]

-- A batch comes to an end with twice as much fuel as it has requests and two more, whatever the
-- endpoint answers and however often it is cut or sent again, where the limit is at least one. The
-- exits that it ends with are one for each request, in order, and each is what came back for that
-- request alone, or the one item with its id of an array that answered a batch with it in. The
-- limit stays at least one and never grows; and no batch ends with the status 413.
pub send_lem :
    (env : Environment) (fuel : ℕ) (requests : List WireRequest) (s : Batcher)
    → 1 ≤ s.limit
    → 2 * length requests + 2 ≤ fuel
    → (o : Outcome) × (send env fuel requests s ≡ some o) × IsReply env requests s o
send_lem env fuel requests s pos enough =
    send-Replies env fuel requests s pos (always (omega (arith, enough)))
