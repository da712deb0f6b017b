-- ===== src/Transport/Http/Answers.antt =====
-- What the answers to a batch are.
use mathlib.Core.List.{Memᴰ}
use ether_state.Prelude.{
  ℕ, ◌≤◌, ◌≡◌, refl, subst, ◌∙◌, Bool, true, false, List, [], ◌∷◌, ◌++◌, ltb, if◌then◌else◌, length,
  keep, arith,
}
use ether_state.Prelude.Results.{ok, err}
use ether_state.Transport.Http.{
  WireRequest, single, batch, Item, array, item, HttpError, Exit, Batcher, Environment, answer_of,
  execute, execute_each, has_id, match_one, match_each, Outcome, is_too_large, fall_back,
  send_singly,
}

-- How a request got its exit: it was sent alone and this came back, or a batch with it was answered
-- by an array in which exactly this item has its id.
pub data IsAnswer (env : Environment) (request : WireRequest) (exit : Exit) : Type 0 where
  alone : (n : ℕ) → exit ≡ answer_of env n (single request) → IsAnswer env request exit
  matched :
      (n : ℕ) (sent : List WireRequest) (items : List Item) (only : Item)
      → Memᴰ request sent
      → answer_of env n (batch sent) ≡ ok (array items)
      → keep (has_id request.id) items ≡ only ∷ []
      → exit ≡ ok (item only)
      → IsAnswer env request exit

-- One exit for each request, in order.
abbrev pub Answered : Environment → List WireRequest → List Exit → Type 0
Answered env [] [] = Unit {0}
Answered env (request ∷ requests) (exit ∷ exits) =
    IsAnswer env request exit × Answered env requests exits
Answered env [] (exit ∷ exits) = ⊥
Answered env (request ∷ requests) [] = ⊥

-- What an outcome of sending is, whatever it is.
pub record IsReply (env : Environment) (requests : List WireRequest) (s : Batcher) (o : Outcome)
    : Type 0 where
  pub positive : 1 ≤ o.1.limit
  pub not_above : o.1.limit ≤ s.limit
  pub answers : (exits : List Exit) → o.0 ≡ ok exits → Answered env requests exits
  pub refused : (error : HttpError) → o.0 ≡ err error → is_too_large error ≡ false

pub Answered-append :
    (env : Environment) (rs qs : List WireRequest) (es fs : List Exit)
    → Answered env rs es
    → Answered env qs fs
    → Answered env (rs ++ qs) (es ++ fs)
Answered-append env [] qs [] fs a b = b
Answered-append env [] qs (e ∷ es) fs a b = absurd a
Answered-append env (r ∷ rs) qs [] fs a b = absurd a
Answered-append env (r ∷ rs) qs (e ∷ es) fs a b = (a.0, Answered-append env rs qs es fs a.1 b)

-- Exits that are there, at a limit that is as it was.
pub exits-IsReply :
    (env : Environment) (requests : List WireRequest) (s t : Batcher) (exits : List Exit)
    → 1 ≤ s.limit
    → t.limit ≡ s.limit
    → Answered env requests exits
    → IsReply env requests s (ok exits, t)
exits-IsReply env requests s t exits pos same a = record {
  positive = omega (arith, pos, same);
  not_above = omega (arith, same);
  answers = λ others e. subst (λ x. Answered env requests x) (cc e) a;
  refused = λ error e. absurd (cc e);
}

pub later-IsReply :
    (env : Environment) (requests : List WireRequest) (s t : Batcher) (o : Outcome)
    → t.limit ≤ s.limit
    → IsReply env requests t o
    → IsReply env requests s o
later-IsReply env requests s t o le r = record {
  positive = r.positive;
  not_above = omega (arith, le, r.not_above);
  answers = r.answers;
  refused = r.refused;
}

execute_each_lem :
    (env : Environment) (requests : List WireRequest) (s : Batcher)
    → ((execute_each env requests s).1.limit ≡ s.limit)
      × Answered env requests (execute_each env requests s).0
unfolding execute_each
execute_each_lem env [] s = (refl, tt)
execute_each_lem env (request ∷ rest) s =
    let t : Batcher = (execute env (single request) s).1 in
    let others = execute_each_lem env rest t in (others.0, (alone s.stats.envelopes refl, others.1))

pub send_singly-IsReply :
    (env : Environment) (requests : List WireRequest) (s : Batcher)
    → 1 ≤ s.limit
    → IsReply env requests s (send_singly env requests s)
unfolding send_singly
send_singly-IsReply env requests s pos =
    let t : Batcher = if ltb 1 (length requests) then fall_back s.limit s else s in
    let sent = execute_each_lem env requests t in
    exits-IsReply env requests s (execute_each env requests t).1 (execute_each env requests t).0 pos
      (sent.0 ∙ same (ltb 1 (length requests))) sent.1
  where
    same : (b : Bool) → (if b then fall_back s.limit s else s).limit ≡ s.limit
    same true = refl
    same false = refl

match_one_lem :
    (env : Environment) (items : List Item) (request : WireRequest) (s : Batcher) (n : ℕ)
    (sent : List WireRequest)
    → answer_of env n (batch sent) ≡ ok (array items)
    → Memᴰ request sent
    → ((match_one env items request s).1.limit ≡ s.limit)
      × IsAnswer env request (match_one env items request s).0
unfolding match_one
match_one_lem env items request s n sent answered in_sent = go (keep (has_id request.id) items) refl
  where
    go :
        (found : List Item)
        → keep (has_id request.id) items ≡ found
        → ((match_one env items request s).1.limit ≡ s.limit)
          × IsAnswer env request (match_one env items request s).0
    go [] e = rw (e, match_one) (refl, alone s.stats.envelopes refl)
    go (only ∷ []) e = rw (e, match_one) (refl, matched n sent items only in_sent answered e refl)
    go (i ∷ j ∷ more) e = rw (e, match_one) (refl, alone s.stats.envelopes refl)

pub match_each_lem :
    (env : Environment) (items : List Item) (requests : List WireRequest) (s : Batcher) (n : ℕ)
    (sent : List WireRequest)
    → answer_of env n (batch sent) ≡ ok (array items)
    → ((r : WireRequest) → Memᴰ r requests → Memᴰ r sent)
    → ((match_each env items requests s).1.limit ≡ s.limit)
      × Answered env requests (match_each env items requests s).0
unfolding match_each
match_each_lem env items [] s n sent answered sub = (refl, tt)
match_each_lem env items (request ∷ rest) s n sent answered sub =
    let first = match_one_lem env items request s n sent answered (sub request (Memᴰ.head refl)) in
    let others =
      match_each_lem env items rest (match_one env items request s).1 n sent answered
        (λ r i. sub r (Memᴰ.tail i)) in
    (others.0 ∙ first.0, (first.1, others.1))
