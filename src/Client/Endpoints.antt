-- ===== src/Client/Endpoints.antt =====
-- The endpoints that a client of src/rpc/client.ts uses: how they are ranked by their probes, which
-- are selected, and what further probes change. Of the block that a probe found the number and the
-- timestamp are kept; a socket is named by the number of those opened before it; `method` is the name
-- of eth_getBlockByNumber. What a probe of an endpoint finds is the environment.
pub mod Selected
pub mod Marks
pub mod Remainder
use ether_state.Prelude.{
  ℕ, zero, suc, ◌+◌, ◌-◌, ◌*◌, Bool, true, false, not, ◌&&◌, ◌||◌, Option, none, some, List, [],
  ◌∷◌, ◌++◌, map, ltb, leb, ◌==◌, if◌then◌else◌, length, take, drop, keep, any, sort_by, or_default,
}
use ether_state.Prelude.JsMap
use ether_state.Prelude.JsMap.{nat_eq}
use ether_state.Prelude.Results.{Result, ok, err}
use ether_state.Rpc.{ℤ, pos, minus}
use ether_state.Client.{
  RpcTransport, http, ws, EndpointStatus, selected, standby, failed, wrong_chain, is_selected,
  is_standby, is_http, BlockDetails, Observed, success, failure, EndpointObservation, EndpointState,
}

-- `ProbeSuccess`; a probe of another chain found the same.
pub record Probe : Type 0 where
  pub endpoint : ℕ
  pub number : ℕ
  pub timestamp : ℕ
  pub response_ms : ℕ
  pub observed_at : ℕ

pub record ProbeFailure : Type 0 where
  pub endpoint : ℕ
  pub error : ℕ
  pub response_ms : ℕ
  pub observed_at : ℕ

pub data ProbeResult : Type 0 where
  found : Probe → ProbeResult
  found_wrong : ℕ → Probe → ProbeResult
  found_none : ProbeFailure → ProbeResult

pub record ActiveWs : Type 0 where
  pub probe : Probe
  pub socket : ℕ

pub record Endpoints : Type 0 where
  pub active_http : List Probe
  pub active_ws : List ActiveWs
  pub endpoint_state : List (ℕ × EndpointState)
  pub opened : ℕ
  pub closed : List ℕ

abbrev pub ranks_before : Probe → Probe → Bool
ranks_before left right =
    if ltb right.number left.number
    then true
    else if ltb left.number right.number
    then false
    else ltb left.response_ms right.response_ms

abbrev pub rank_probes : List Probe → List Probe
rank_probes probes = sort_by ranks_before probes

abbrev pub successes : List ProbeResult → List Probe
successes [] = []
successes (found probe ∷ results) = probe ∷ successes results
successes (found_wrong actual probe ∷ results) = successes results
successes (found_none probe ∷ results) = successes results

-- The failure has the numbers that were required and available.
unfoldable pub require_selection : List ProbeResult → ℕ → Result (ℕ × ℕ) (List Probe)
require_selection results required =
    let best : List Probe = take required (rank_probes (successes results)) in
    if ltb (length best) required then err (required, length best) else ok best

-- The loop of `probeInitial`, which is given the rest of the endpoints and what was found before. The
-- endpoints of a batch are probed at once. `none` is that the fuel did not do.
unfoldable pub probe_initial :
    (ℕ → ProbeResult) → ℕ → ℕ → ℕ → List ℕ → List ProbeResult → Option (List ProbeResult)
probe_initial probe size minimum zero endpoints results = none
probe_initial probe size minimum (suc fuel) [] results = some results
probe_initial probe size minimum (suc fuel) (e ∷ rest) results =
    let endpoints : List ℕ = e ∷ rest in
    elim (ltb (length (successes results)) minimum) [
      | true ↦
          probe_initial probe size minimum fuel (drop size endpoints)
            (results ++ map probe (take size endpoints))
      | false ↦ some results
    ]

abbrev pub block_details : ℕ → Probe → BlockDetails
block_details observed_at probe = record {
  block_number = some probe.number;
  block_age = some (
      if leb (probe.timestamp * 1000) observed_at
      then pos (observed_at - probe.timestamp * 1000)
      else minus (probe.timestamp * 1000 - observed_at));
}

abbrev pub is_among : ℕ → List ℕ → Bool
is_among e urls = any (λ x. x == e) urls

abbrev pub url_of : ProbeResult → ℕ
url_of (found probe) = probe.endpoint
url_of (found_wrong actual probe) = probe.endpoint
url_of (found_none probe) = probe.endpoint

abbrev pub selected_if : Bool → EndpointStatus
selected_if true = selected
selected_if false = standby

abbrev pub status_of : List ℕ → ProbeResult → EndpointStatus
status_of urls (found probe) = selected_if (is_among probe.endpoint urls)
status_of urls (found_wrong actual probe) = wrong_chain actual
status_of urls (found_none probe) = failed probe.error

abbrev pub observation_of : ℕ → ProbeResult → EndpointObservation
observation_of method (found_none probe) = record {
  method = method;
  observed_at = probe.observed_at;
  elapsed = probe.response_ms;
  observed = failure probe.error;
}
observation_of method (found probe) = record {
  method = method;
  observed_at = probe.observed_at;
  elapsed = probe.response_ms;
  observed = success (block_details probe.observed_at probe);
}
observation_of method (found_wrong actual probe) = record {
  method = method;
  observed_at = probe.observed_at;
  elapsed = probe.response_ms;
  observed = success (block_details probe.observed_at probe);
}

-- `initialEndpointState`, spread over the endpoint that there was, if there was one.
abbrev pub initial_endpoint_state :
    ℕ → RpcTransport → List ℕ → Option EndpointState → ProbeResult → EndpointState
initial_endpoint_state method transport urls old result = record {
  endpoint = url_of result;
  transport = transport;
  status = status_of urls result;
  observations = observation_of method result ∷ [];
  unsupported_methods = elim old [ none ↦ none | some e ↦ e.unsupported_methods ];
  unsupported_log_ranges = elim old [ none ↦ none | some e ↦ e.unsupported_log_ranges ];
}

abbrev pub put_results :
    ℕ
    → RpcTransport
    → List ℕ
    → List ProbeResult
    → List (ℕ × EndpointState)
    → List (ℕ × EndpointState)
put_results method transport urls [] m = m
put_results method transport urls (result ∷ results) m =
    let url : ℕ = url_of result in
    put_results method transport urls results
      (JsMap.set url (initial_endpoint_state method transport urls (JsMap.get url m) result) m)

abbrev pub is_of : RpcTransport → EndpointState → Bool
is_of http e = is_http e.transport
is_of ws e = not (is_http e.transport)

-- What the selection changes of an endpoint that was there.
abbrev pub restate : RpcTransport → List ℕ → ℕ → EndpointState → EndpointState
restate transport urls url e =
    if is_of transport e && (is_selected e.status || is_standby e.status)
    then record e { status = selected_if (is_among url urls) }
    else e

abbrev pub restate_all : RpcTransport → List ℕ → List (ℕ × EndpointState) → List (ℕ × EndpointState)
restate_all transport urls [] = []
restate_all transport urls ((url, e) ∷ m) =
    (url, restate transport urls url e) ∷ restate_all transport urls m

abbrev pub put_probes : List Probe → List (ℕ × Probe) → List (ℕ × Probe)
put_probes [] m = m
put_probes (probe ∷ probes) m = put_probes probes (JsMap.set probe.endpoint probe m)

abbrev pub current_of : RpcTransport → Endpoints → List Probe
current_of http s = s.active_http
current_of ws s = map (λ active. active.probe) s.active_ws

-- The first so many of the probes that are now known, by rank.
unfoldable pub select : List Probe → List ProbeResult → ℕ → List Probe
select current results required =
    take required (
      rank_probes (map (λ entry. entry.1) (put_probes (successes results) (put_probes current []))))

abbrev pub socket_at : ℕ → List ActiveWs → Option ℕ
socket_at url [] = none
socket_at url (active ∷ rest) =
    if active.probe.endpoint == url then some active.socket else socket_at url rest

-- An endpoint that was active keeps its socket, and any other gets one that is opened for it.
abbrev pub connect : List ActiveWs → List Probe → ℕ → List ActiveWs × ℕ
connect active [] opened = ([], opened)
connect active (probe ∷ probes) opened =
    let kept = socket_at probe.endpoint active in
    let rest : List ActiveWs × ℕ =
      connect active probes (elim kept [ none ↦ opened + 1 | some x ↦ opened ]) in
    (record { probe = probe; socket = or_default opened kept } ∷ rest.0, rest.1)

unfoldable pub activate : RpcTransport → List Probe → Endpoints → Endpoints
activate http chosen s = record s { active_http = chosen }
activate ws chosen s =
    let next : List ActiveWs × ℕ = connect s.active_ws chosen s.opened in
    let urls : List ℕ = map (λ probe. probe.endpoint) chosen in
    record s {
      active_ws = next.0;
      opened = next.1;
      closed =
          s.closed
          ++ map (λ active. active.socket)
              (keep (λ active. not (is_among active.probe.endpoint urls)) s.active_ws);
    }

-- `required` is the option for this transport.
unfoldable pub apply_probe_results : ℕ → RpcTransport → ℕ → List ProbeResult → Endpoints → Endpoints
unfolding select activate
apply_probe_results method transport required results s =
    let chosen : List Probe = select (current_of transport s) results required in
    let urls : List ℕ = map (λ probe. probe.endpoint) chosen in
    record (activate transport chosen s) {
      endpoint_state =
          put_results method transport urls results (restate_all transport urls s.endpoint_state);
    }

-- `probeRemainder`: one batch after another.
unfoldable pub probe_remainder :
    (ℕ → ProbeResult) → ℕ → ℕ → RpcTransport → ℕ → ℕ → List ℕ → Endpoints → Option Endpoints
unfolding apply_probe_results
probe_remainder probe method size transport required zero endpoints s = none
probe_remainder probe method size transport required (suc fuel) [] s = some s
probe_remainder probe method size transport required (suc fuel) (e ∷ rest) s =
    let endpoints : List ℕ = e ∷ rest in
    probe_remainder probe method size transport required fuel (drop size endpoints)
      (apply_probe_results method transport required (map probe (take size endpoints)) s)
