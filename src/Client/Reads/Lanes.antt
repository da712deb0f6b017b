-- ===== src/Client/Reads/Lanes.antt =====
-- The two lanes of a read over time.
use ether_state.Prelude.{
  ℕ, ◌≡◌, refl, Bool, true, List, [], ◌∷◌, all, Option-cases, inl, inr, arith, and_left, and_right,
}
use ether_state.Prelude.Results.{ok, err}
use ether_state.Rpc.Errors.{endpoint_request_timeout, Patterns}
use ether_state.Client.Reads.{
  ReadRequest, has, begin_attempt, Lane, goes_on, asks, fails, is_cut, Read, make_race, RaceEvent,
  chooses, ends, times_out, lane_of, move_lane, step, run,
}
use ether_state.Client.Reads.Chosen.{begin_attempt_lem}
use ether_state.Client.Reads.Safe.{IsSafe, begun-IsSafe, end_race-IsSafe, failed-IsSafe}

abbrev pub knows : List ℕ → RaceEvent → Bool
knows universe (chooses which sit) = all (λ x. has x.endpoint universe) sit.endpoints
knows universe (ends which result) = true
knows universe times_out = true

module _ (request : ReadRequest) (patterns : Patterns) (universe : List ℕ) where
  move_lane-IsSafe :
      (event : RaceEvent) (r : Read)
      → knows universe event ≡ true
      → IsSafe universe r
      → IsSafe universe (move_lane request patterns event r)
  unfolding move_lane
  move_lane-IsSafe times_out r known i = end_race-IsSafe universe (err endpoint_request_timeout) r i
  move_lane-IsSafe (chooses which sit) r known i = go (lane_of which r) refl
    where
      go :
          (lane : Lane)
          → lane_of which r ≡ lane
          → IsSafe universe (move_lane request patterns (chooses which sit) r)
      go goes_on e =
          rw (e, move_lane)
            (begun-IsSafe request sit universe which r (begin_attempt request sit r.read)
              (begin_attempt_lem request sit r.read) i e known)
      go (asks x) e = rw (e, move_lane) i
      go (fails error) e = rw (e, move_lane) i
      go is_cut e = rw (e, move_lane) i
  move_lane-IsSafe (ends which (ok value)) r known i = go (lane_of which r) refl
    where
      go :
          (lane : Lane)
          → lane_of which r ≡ lane
          → IsSafe universe (move_lane request patterns (ends which (ok value)) r)
      go goes_on e = rw (e, move_lane) i
      go (asks x) e = rw (e, move_lane) (end_race-IsSafe universe (ok value) r i)
      go (fails error) e = rw (e, move_lane) i
      go is_cut e = rw (e, move_lane) i
  move_lane-IsSafe (ends which (err error)) r known i = go (lane_of which r) refl
    where
      go :
          (lane : Lane)
          → lane_of which r ≡ lane
          → IsSafe universe (move_lane request patterns (ends which (err error)) r)
      go goes_on e = rw (e, move_lane) i
      go (asks x) e = rw (e, move_lane) (failed-IsSafe patterns universe which x error r i e)
      go (fails cause) e = rw (e, move_lane) i
      go is_cut e = rw (e, move_lane) i

  run-IsSafe :
      (events : List RaceEvent) (r : Read)
      → all (knows universe) events ≡ true
      → IsSafe universe r
      → IsSafe universe (run request patterns events r)
  unfolding run
  run-IsSafe [] r known i = i
  run-IsSafe (event ∷ events) r known i =
      run-IsSafe events (step request patterns event r) (and_right _ _ known)
        (elim (Option-cases r.outcome) [
          | inl open_still ↦ rw (open_still, step) (move_lane-IsSafe event r (and_left _ _ known) i)
          | inr (outcome, over) ↦ rw (over, step) i
        ])

-- However the two lanes of a read go on, and whichever of their requests fail, they never ask one
-- endpoint at once, and the endpoints that are marked busy are exactly those that a lane asks;
-- none of these is excluded. The read has sent no more requests than it is allowed, which are at most
-- four or as many as there are endpoints, where `universe` has every endpoint that the client has as
-- the lanes choose.
pub run_safely :
    (request : ReadRequest) (patterns : Patterns) (universe : List ℕ) (events : List RaceEvent)
    → all (knows universe) events ≡ true
    → IsSafe universe (run request patterns events make_race)
run_safely request patterns universe events known =
    run-IsSafe request patterns universe events make_race known (record {
      apart = λ e. refl;
      busy_iff = λ e. refl;
      sound = record {
        disjoint = λ e h. refl;
        known_busy = λ e h. absurd (cc h);
        known_excluded = λ e h. absurd (cc h);
        counted = omega arith;
        bounded = omega arith;
      };
    })
