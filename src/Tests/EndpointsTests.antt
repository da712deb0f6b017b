-- ===== src/Tests/EndpointsTests.antt =====
-- Probes of src/rpc/client.ts: endpoint 1 is in use, and a second batch finds endpoint 2 ahead of it.
use ether_state.Prelude.{
  Bool-cases, inl, inr, max, ℕ, List, ◌*◌, ◌≤◌, ◌≡◌, refl, ◌==◌, some, [], ◌∷◌, length,
  if◌then◌else◌, arith,
}
use ether_state.Prelude.Results.{err}
use ether_state.Prelude.JsMap.{nat_eq}
use ether_state.Client.{http}
use ether_state.Client.Endpoints.{
  Probe, ProbeResult, found, found_none, Endpoints, require_selection, probe_initial, put_results,
  apply_probe_results, probe_remainder, url_of,
}
use ether_state.Client.Endpoints.Selected.{active_urls}
use ether_state.Client.Endpoints.Marks.{IsConsistent}
use ether_state.Client.Endpoints.Remainder.{AreNew, probe_remainder_lem}
use mathlib.Core.Option

abbrev probe_of : ℕ → Probe
probe_of n = record {
  endpoint = n;
  number = n * 10;
  timestamp = n * 120;
  response_ms = 5;
  observed_at = 9;
}

-- Endpoint 3 does not answer.
abbrev probe : ℕ → ProbeResult
probe n =
    if n == 3
    then found_none (record { endpoint = 3; error = 0; response_ms = 5; observed_at = 9 })
    else found (probe_of n)

abbrev start : Endpoints
start = record {
  active_http = probe_of 1 ∷ [];
  active_ws = [];
  endpoint_state = put_results 0 http (1 ∷ []) (probe 1 ∷ []) [];
  opened = 0;
  closed = [];
}

now_active : active_urls http (apply_probe_results 0 http 1 (probe 2 ∷ probe 3 ∷ []) start) ≡ 2 ∷ []
unfolding apply_probe_results
now_active = refl

too_few : require_selection (probe 2 ∷ probe 3 ∷ []) 2 ≡ err (2, 1)
unfolding require_selection
too_few = refl

-- The third endpoint is not probed where one is enough.
one_batch : probe_initial probe 2 1 4 (3 ∷ 2 ∷ 1 ∷ []) [] ≡ some (probe 3 ∷ probe 2 ∷ [])
unfolding probe_initial
one_batch = refl

start-IsConsistent : IsConsistent http start
start-IsConsistent = record {
  marked = λ url e h o. ground (arith, h);
  known = λ url h e. ground (arith, h, e);
}

-- The rest of the endpoints, one at a time.
abbrev rest : List ℕ
rest = 3 ∷ 4 ∷ 2 ∷ []

ends_with :
    Option.map (active_urls http) (probe_remainder probe 0 1 http 2 4 rest start)
    ≡ some (4 ∷ 2 ∷ [])
unfolding probe_remainder
ends_with = refl

rest-AreNew : AreNew rest start
rest-AreNew = (ground arith, λ url h. ground (arith, h))

probe-names : (e : ℕ) → url_of (probe e) ≡ e
probe-names e = elim (Bool-cases (e == 3)) [
  | inl third ↦ rw third (ground (arith, third))
  | inr other ↦ rw other refl
]

probe_remainder_lem_example :
    (t : Endpoints) × (probe_remainder probe 0 1 http 2 4 rest start ≡ some t)
    × IsConsistent http t
    × (length (active_urls http t) ≤ max 2 (length (active_urls http start)))
probe_remainder_lem_example =
    probe_remainder_lem probe 0 http 2 1 4 rest start probe-names (omega arith) (omega arith)
      rest-AreNew start-IsConsistent
