-- ===== src/Client/Reads/Chosen.antt =====
-- Which endpoint a lane asks.
use mathlib.Core.List.{Memᴰ}
use mathlib.Core.List.Memᴰ
use ether_state.Prelude.{
  ◌+◌, ◌≤◌, ◌≡◌, refl, sym, subst, Bool, true, false, not, Option, none, some, List, [], ◌∷◌, ltb,
  leb, keep, Bool-cases, ◌⊎◌, inl, inr, arith,
}
use ether_state.Prelude.Members.{Mem-keep, keep-Mem, sort_by-Mem, least-sort_by, none-sort_by}
use ether_state.Client.{EndpointState}
use ether_state.Client.Reads.{
  ReadRequest, Situation, ReadState, has, add, is_available, score, ranked, attempts_allowed,
  begin_attempt,
}

-- Every endpoint that may be asked was tried.
abbrev pub AllTried : ReadRequest → Situation → ReadState → Type 0
AllTried request sit s =
    (other : EndpointState)
    → Memᴰ other sit.endpoints
    → is_available request s other ≡ true
    → has other.endpoint s.tried ≡ true

pub record IsChoice (request : ReadRequest) (sit : Situation) (s : ReadState)
    (source : EndpointState) : Type 0 where
  pub known : Memᴰ source sit.endpoints
  pub available : is_available request s source ≡ true
  pub untried_first : has source.endpoint s.tried ≡ true → AllTried request sit s
  pub best :
      (other : EndpointState)
      → Memᴰ other sit.endpoints
      → is_available request s other ≡ true
      → (has source.endpoint s.tried ≡ true) ⊎ (has other.endpoint s.tried ≡ false)
      → score request sit s source ≤ score request sit s other

module _ (request : ReadRequest) (sit : Situation) (s : ReadState) where
  abbrev untried : EndpointState → Bool
  untried e = not (has e.endpoint s.tried)

  abbrev available : List EndpointState
  available = keep (is_available request s) sit.endpoints

  ranked-IsChoice :
      (source : EndpointState) (others : List EndpointState)
      → ranked request sit s ≡ source ∷ others
      → IsChoice request sit s source
  unfolding ranked
  ranked-IsChoice source others e = go (keep untried available) refl
    where
      go :
          (fresh : List EndpointState)
          → keep untried available ≡ fresh
          → IsChoice request sit s source
      go [] none_is =
          let sorted = rw (none_is, ranked) at e in
          let is_first = subst (λ l. Memᴰ source l) (sym sorted) (Memᴰ.head refl) in
          let m = keep-Mem (is_available request s) source sit.endpoints (
            sort_by-Mem (λ a b. ltb (score request sit s a) (score request sit s b)) source
              available is_first) in
          record {
            known = m.0;
            available = m.1;
            untried_first = λ t other i a. elim (Bool-cases (has other.endpoint s.tried)) [
              | inl tried ↦ tried
              | inr fresh ↦ absurd (
                  Memᴰ.not-nil (
                    subst (λ l. Memᴰ other l) none_is
                      (Mem-keep untried other available
                        (Mem-keep (is_available request s) other sit.endpoints i a)
                        (rw fresh refl))))
            ];
            best = λ other i a h.
                least-sort_by (score request sit s) source others available sorted other
                  (Mem-keep (is_available request s) other sit.endpoints i a);
          }
      go (u ∷ us) some_are =
          let sorted = rw (some_are, ranked) at e in
          let is_first = subst (λ l. Memᴰ source l) (sym sorted) (Memᴰ.head refl) in
          let fresh =
            sort_by-Mem (λ a b. ltb (score request sit s a) (score request sit s b)) source (u ∷ us)
              is_first in
          let n =
            keep-Mem untried source available (subst (λ l. Memᴰ source l) (sym some_are) fresh) in
          let m = keep-Mem (is_available request s) source sit.endpoints n.0 in
          record {
            known = m.0;
            available = m.1;
            untried_first = λ t. absurd (cc (rw t at n.1));
            best = λ other i a h. elim h [
              | inl t ↦ absurd (cc (rw t at n.1))
              | inr f ↦ least-sort_by (score request sit s) source others (u ∷ us) sorted other (
                  subst (λ l. Memᴰ other l) some_are
                    (Mem-keep untried other available
                      (Mem-keep (is_available request s) other sit.endpoints i a) (rw f refl)))
            ];
          }

  ranked_empty :
      ranked request sit s ≡ []
      → (other : EndpointState) → Memᴰ other sit.endpoints
      → is_available request s other ≡ false
  unfolding ranked
  ranked_empty e other i = elim (Bool-cases (is_available request s other)) [
    | inr out ↦ out
    | inl a ↦ absurd (
        go (keep untried available) refl
          (Mem-keep (is_available request s) other sit.endpoints i a))
  ]
    where
      go : (fresh : List EndpointState) → keep untried available ≡ fresh → Memᴰ other available → ⊥
      go [] f m = none-sort_by (score request sit s) available (rw (f, ranked) at e) other m
      go (u ∷ us) f m =
          none-sort_by (score request sit s) (u ∷ us) (rw (f, ranked) at e) u (Memᴰ.head refl)

-- What a round of a lane comes to.
abbrev pub IsTurn :
    ReadRequest → Situation → ReadState → Option (EndpointState × Bool) × ReadState → Type 0
IsTurn request sit s (some (source, repeated), t) =
    (s.stopped ≡ false)
    × IsChoice request sit s source
    × (repeated ≡ has source.endpoint s.tried)
    × (t.attempts ≡ s.attempts + 1)
    × (t.attempts ≤ t.max_attempts)
    × (t.excluded ≡ s.excluded)
    × (t.busy ≡ add source.endpoint s.busy)
    × (t.max_attempts ≡ attempts_allowed request sit s)
IsTurn request sit s (none, t) =
    ((s.stopped ≡ true)
      ⊎ (attempts_allowed request sit s ≤ s.attempts)
      ⊎ ((other : EndpointState) → Memᴰ other sit.endpoints → is_available request s other ≡ false))
    × (t.attempts ≡ s.attempts)
    × (t.excluded ≡ s.excluded)
    × (t.busy ≡ s.busy)
    × ((t.max_attempts ≡ s.max_attempts) ⊎ (t.max_attempts ≡ attempts_allowed request sit s))

-- In a round, a lane that goes on asks an endpoint that can serve the read, is not excluded, and is
-- not asked by the other lane. It asks one that was tried before only if all of them were, and of
-- those that it may choose from none has a lower score. A request is counted, and there are no
-- more than are allowed. A lane does not go on only because the read is stopped, as many requests as
-- are allowed were sent, or no endpoint is available.
pub begin_attempt_lem :
    (request : ReadRequest) (sit : Situation) (s : ReadState)
    → IsTurn request sit s (begin_attempt request sit s)
unfolding begin_attempt
begin_attempt_lem request sit s = elim (Bool-cases s.stopped) [
  | inl stopped ↦ rw (stopped, begin_attempt) (inl refl, refl, refl, refl, inl refl)
  | inr on ↦ elim (Bool-cases (leb (attempts_allowed request sit s) s.attempts)) [
    | inl full ↦
        rw (on, full, begin_attempt) (inr (inl (ground (arith, full))), refl, refl, refl, inr refl)
    | inr room ↦ go on room (ranked request sit t) refl
  ]
]
  where
    t : ReadState
    t = record s { max_attempts = attempts_allowed request sit s }

    go :
        s.stopped ≡ false
        → leb (attempts_allowed request sit s) s.attempts ≡ false
        → (r : List EndpointState) → ranked request sit t ≡ r
        → IsTurn request sit s (begin_attempt request sit s)
    go on room [] e =
        rw (on, room, e, begin_attempt)
          (inr (inr (ranked_empty request sit t e)), refl, refl, refl, inr refl)
    go on room (source ∷ others) e =
        let c = ranked-IsChoice request sit t source others e in
        rw (on, room, e, begin_attempt)
          (
            refl,
            record {
              known = c.known;
              available = c.available;
              untried_first = c.untried_first;
              best = c.best;
            },
            refl,
            refl,
            ground (arith, room),
            refl,
            refl,
            refl,
          )
