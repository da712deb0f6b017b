-- ===== src/Client/Reads/Safe.antt =====
-- That the lanes of a read ask different endpoints, and what keeps it so.
use ether_state.Prelude.{
  ℕ, ◌≡◌, refl, ap, subst, Bool, true, false, not, ◌&&◌, ◌||◌, Option, none, some, List, ◌==◌,
  ==_iff, if◌then◌else◌, all, arith,
}
use ether_state.Prelude.Results.{Result}
use ether_state.Rpc.Errors.{ClientError, Patterns, read_failure_policy}
use ether_state.Client.{EndpointState}
use ether_state.Client.Reads.{
  ReadRequest, Situation, ReadState, has, add, note_failure, leave_endpoint, excludes, Lane,
  goes_on, asks, fails, is_cut, Read, leave_lane, end_race, after_begin, lane_of, put_lane,
}
use ether_state.Client.Reads.Chosen.{IsTurn}
use ether_state.Client.Reads.Sets.{has-add, has-remove}
use ether_state.Client.Reads.Turns.{IsSound, turn-IsSound, available-free}

abbrev pub asks_for : Lane → ℕ → Bool
asks_for (asks x) e = x == e
asks_for _ e = false

pub record IsSafe (universe : List ℕ) (r : Read) : Type 0 where
  pub apart : (e : ℕ) → (asks_for r.first e && asks_for r.second e) ≡ false
  pub busy_iff : (e : ℕ) → has e r.read.busy ≡ (asks_for r.first e || asks_for r.second e)
  pub sound : IsSound universe r.read

pub begun-IsSafe :
    (request : ReadRequest) (sit : Situation) (universe : List ℕ) (which : Bool) (r : Read)
    (p : Option (EndpointState × Bool) × ReadState)
    → IsTurn request sit r.read p
    → IsSafe universe r
    → lane_of which r ≡ goes_on
    → all (λ x. has x.endpoint universe) sit.endpoints ≡ true
    → IsSafe universe (put_lane which (after_begin p) r)
begun-IsSafe request sit universe true r (none, t) turn i here known = record {
  apart = λ e. refl;
  busy_iff = λ e. ground (arith, ap (has e) turn.3, ap (λ l. asks_for l e) here, i.busy_iff e);
  sound = turn-IsSound request sit universe r.read (none, t) turn i.sound known;
}
begun-IsSafe request sit universe false r (none, t) turn i here known = record {
  apart = λ e. ground arith;
  busy_iff = λ e. ground (arith, ap (has e) turn.3, ap (λ l. asks_for l e) here, i.busy_iff e);
  sound = turn-IsSound request sit universe r.read (none, t) turn i.sound known;
}
begun-IsSafe request sit universe true r (some (source, repeated), t) turn i here known = record {
  apart = λ e. ground (
    arith,
    i.busy_iff e,
    ap (λ l. asks_for l e) here,
    available-free request r.read source e turn.1.available,
  );
  busy_iff = λ e. ground (
    arith,
    ap (has e) turn.6,
    has-add e source.endpoint r.read.busy,
    ap (λ l. asks_for l e) here,
    i.busy_iff e,
  );
  sound = turn-IsSound request sit universe r.read (some (source, repeated), t) turn i.sound known;
}
begun-IsSafe request sit universe false r (some (source, repeated), t) turn i here known = record {
  apart = λ e. ground (
    arith,
    i.busy_iff e,
    ap (λ l. asks_for l e) here,
    available-free request r.read source e turn.1.available,
  );
  busy_iff = λ e. ground (
    arith,
    ap (has e) turn.6,
    has-add e source.endpoint r.read.busy,
    ap (λ l. asks_for l e) here,
    i.busy_iff e,
  );
  sound = turn-IsSound request sit universe r.read (some (source, repeated), t) turn i.sound known;
}

leave_endpoint-IsSound :
    (universe : List ℕ) (x : ℕ) (s : ReadState)
    → IsSound universe s
    → IsSound universe (leave_endpoint x s)
leave_endpoint-IsSound universe x s i = record {
  disjoint = λ e h. i.disjoint e (ground (arith, h, has-remove e x s.busy));
  known_busy = λ e h. i.known_busy e (ground (arith, h, has-remove e x s.busy));
  known_excluded = i.known_excluded;
  counted = i.counted;
  bounded = i.bounded;
}

leave_lane-IsSound :
    (universe : List ℕ) (lane : Lane) (s : ReadState)
    → IsSound universe s
    → IsSound universe (leave_lane lane s)
leave_lane-IsSound universe (asks x) s i = leave_endpoint-IsSound universe x s i
leave_lane-IsSound universe goes_on s i = i
leave_lane-IsSound universe (fails error) s i = i
leave_lane-IsSound universe is_cut s i = i

has-leave_lane :
    (e : ℕ) (lane : Lane) (s : ReadState)
    → has e (leave_lane lane s).busy ≡ (has e s.busy && not (asks_for lane e))
has-leave_lane e (asks x) s = has-remove e x s.busy
has-leave_lane e goes_on s = ground arith
has-leave_lane e (fails error) s = ground arith
has-leave_lane e is_cut s = ground arith

pub end_race-IsSafe :
    (universe : List ℕ) (outcome : Result ClientError ℕ) (r : Read)
    → IsSafe universe r
    → IsSafe universe (end_race outcome r)
end_race-IsSafe universe outcome r i = record {
  apart = λ e. refl;
  busy_iff = λ e. ground (
    arith,
    has-leave_lane e r.first (leave_lane r.second r.read),
    has-leave_lane e r.second r.read,
    i.busy_iff e,
  );
  sound =
      leave_lane-IsSound universe r.first (leave_lane r.second r.read)
        (leave_lane-IsSound universe r.second r.read i.sound);
}

-- A request that failed leaves its endpoint, which may now be excluded.
failed-IsSound :
    (patterns : Patterns) (universe : List ℕ) (x : ℕ) (error : ClientError) (s : ReadState)
    → IsSound universe s
    → has x s.busy ≡ true
    → IsSound universe (note_failure patterns x error (leave_endpoint x s))
unfolding note_failure
failed-IsSound patterns universe x error s i here = record {
  disjoint = λ e h. ground (
    arith,
    h,
    has-remove e x s.busy,
    has-add e x s.excluded,
    i.disjoint e,
    cut (excludes (read_failure_policy patterns error)) e,
  );
  known_busy = λ e h. i.known_busy e (ground (arith, h, has-remove e x s.busy));
  known_excluded = λ e h. ground (
    arith,
    h,
    has-add e x s.excluded,
    i.known_excluded e,
    i.known_busy x here,
    ==_iff x e,
    cut (excludes (read_failure_policy patterns error)) e,
    same e,
  );
  counted = i.counted;
  bounded = i.bounded;
}
  where
    cut :
        (b : Bool) (e : ℕ)
        → has e (if b then add x s.excluded else s.excluded)
          ≡ (b && has e (add x s.excluded) || not b && has e s.excluded)
    cut true e = ground arith
    cut false e = ground arith

    same : (e : ℕ) → (x == e) ≡ true → has e universe ≡ true
    same e h = subst (λ y. has y universe ≡ true) ((==_iff x e).0 h) (i.known_busy x here)

pub failed-IsSafe :
    (patterns : Patterns) (universe : List ℕ) (which : Bool) (x : ℕ) (error : ClientError)
    (r : Read)
    → IsSafe universe r
    → lane_of which r ≡ asks x
    → IsSafe universe
        (put_lane which (goes_on, note_failure patterns x error (leave_endpoint x r.read)) r)
unfolding note_failure
failed-IsSafe patterns universe true x error r i here = record {
  apart = λ e. refl;
  busy_iff = λ e.
      ground
        (arith, has-remove e x r.read.busy, i.busy_iff e, i.apart e, ap (λ l. asks_for l e) here);
  sound =
      failed-IsSound patterns universe x error r.read i.sound
        (ground (arith, i.busy_iff x, ap (λ l. asks_for l x) here, ==_iff x x));
}
failed-IsSafe patterns universe false x error r i here = record {
  apart = λ e. ground arith;
  busy_iff = λ e.
      ground
        (arith, has-remove e x r.read.busy, i.busy_iff e, i.apart e, ap (λ l. asks_for l e) here);
  sound =
      failed-IsSound patterns universe x error r.read i.sound
        (ground (arith, i.busy_iff x, ap (λ l. asks_for l x) here, ==_iff x x));
}
