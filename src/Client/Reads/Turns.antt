-- ===== src/Client/Reads/Turns.antt =====
-- What always holds of the state that the lanes of a read share, and that a round keeps it.
use ether_state.Prelude.{
  ℕ, ◌≤◌, ◌≡◌, ap, subst, Bool, true, false, Option, none, some, List, ◌++◌, map, ◌==◌, ==_iff,
  keep, any-append, all, length, max, arith,
}
use ether_state.Client.{EndpointState}
use ether_state.Client.Reads.{
  ReadRequest, Situation, ReadState, has, is_candidate, is_available, attempts_allowed,
}
use ether_state.Client.Reads.Chosen.{IsTurn}
use ether_state.Client.Reads.Sets.{has-add, count_distinct-le, has-endpoints, all-Mem}

pub record IsSound (universe : List ℕ) (s : ReadState) : Type 0 where
  pub disjoint : (e : ℕ) → has e s.busy ≡ true → has e s.excluded ≡ false
  pub known_busy : (e : ℕ) → has e s.busy ≡ true → has e universe ≡ true
  pub known_excluded : (e : ℕ) → has e s.excluded ≡ true → has e universe ≡ true
  pub counted : s.attempts ≤ s.max_attempts
  pub bounded : s.max_attempts ≤ max 4 (length universe)

attempts_allowed-le :
    (request : ReadRequest) (sit : Situation) (universe : List ℕ) (s : ReadState)
    → IsSound universe s
    → all (λ x. has x.endpoint universe) sit.endpoints ≡ true
    → (attempts_allowed request sit s ≤ max 4 (length universe))
      × (s.max_attempts ≤ attempts_allowed request sit s)
unfolding attempts_allowed
attempts_allowed-le request sit universe s i known =
    let candidates = map (λ x. x.endpoint) (keep (is_candidate request) sit.endpoints) in
    let few = count_distinct-le (candidates ++ s.excluded) universe (λ e h. ground (
      arith,
      h,
      any-append (λ y. y == e) candidates s.excluded,
      has-endpoints universe (is_candidate request) sit.endpoints e known,
      i.known_excluded e,
    )) in
    (omega (arith, few, i.bounded), omega arith)

available-allowed :
    (request : ReadRequest) (s : ReadState) (source : EndpointState) (e : ℕ)
    → is_available request s source ≡ true
    → (source.endpoint == e) ≡ true
    → has e s.excluded ≡ false
available-allowed request s source e a same =
    subst (λ x. has x s.excluded ≡ false) ((==_iff source.endpoint e).0 same) (ground (arith, a))

pub available-free :
    (request : ReadRequest) (s : ReadState) (source : EndpointState) (e : ℕ)
    → is_available request s source ≡ true
    → (source.endpoint == e) ≡ true
    → has e s.busy ≡ false
available-free request s source e a same =
    subst (λ x. has x s.busy ≡ false) ((==_iff source.endpoint e).0 same) (ground (arith, a))

pub turn-IsSound :
    (request : ReadRequest) (sit : Situation) (universe : List ℕ) (s : ReadState)
    (p : Option (EndpointState × Bool) × ReadState)
    → IsTurn request sit s p
    → IsSound universe s
    → all (λ x. has x.endpoint universe) sit.endpoints ≡ true
    → IsSound universe p.1
turn-IsSound request sit universe s (none, t) (why, attempts, excluded, busy, allowed) i known =
    let l = attempts_allowed-le request sit universe s i known in
    record {
      disjoint = λ e h. ground (arith, ap (has e) busy, ap (has e) excluded, h, i.disjoint e);
      known_busy = λ e h. ground (arith, ap (has e) busy, h, i.known_busy e);
      known_excluded = λ e h. ground (arith, ap (has e) excluded, h, i.known_excluded e);
      counted = ground (arith, attempts, allowed, l.1, i.counted);
      bounded = ground (arith, allowed, l.0, i.bounded);
    }
turn-IsSound request sit universe s (some (source, repeated), t)
      (on, c, tried, attempts, within, excluded, busy, allowed) i known =
    let l = attempts_allowed-le request sit universe s i known in
    let is_known = all-Mem universe sit.endpoints source known c.known in
    record {
      disjoint = λ e h. ground (
        arith,
        ap (has e) busy,
        ap (has e) excluded,
        h,
        has-add e source.endpoint s.busy,
        i.disjoint e,
        available-allowed request s source e c.available,
      );
      known_busy = λ e h. ground (
        arith,
        ap (has e) busy,
        h,
        has-add e source.endpoint s.busy,
        i.known_busy e,
        named e is_known,
      );
      known_excluded = λ e h. ground (arith, ap (has e) excluded, h, i.known_excluded e);
      counted = within;
      bounded = omega (arith, allowed, l.0);
    }
  where
    named :
        (e : ℕ)
        → has source.endpoint universe ≡ true
        → (source.endpoint == e) ≡ true
        → has e universe ≡ true
    named e h same = subst (λ x. has x universe ≡ true) ((==_iff source.endpoint e).0 same) h
