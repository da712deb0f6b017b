-- ===== src/Client/Endpoints/Selected.antt =====
-- Which endpoints a selection has.
use ether_state.Prelude.{
  ℕ, zero, suc, ◌≡◌, refl, sym, ap, ◌∙◌, Bool, true, ◌||◌, List, [], ◌∷◌, map, ◌==◌, take, any,
  any-sort_by, arith,
}
use ether_state.Prelude.JsMap
use ether_state.Prelude.JsMap.{nat_eq}
use ether_state.Client.{RpcTransport, http, ws}
use ether_state.Client.Endpoints.{
  Probe, ProbeResult, ActiveWs, Endpoints, ranks_before, successes, is_among, put_probes,
  current_of, select, connect, apply_probe_results,
}

abbrev pub urls_of : List Probe → List ℕ
urls_of probes = map (λ probe. probe.endpoint) probes

-- The endpoints of a transport that are in use, in order.
abbrev pub active_urls : RpcTransport → Endpoints → List ℕ
active_urls transport s = urls_of (current_of transport s)

has_url : ℕ → List (ℕ × Probe) → Bool
has_url url m = is_among url (urls_of (map (λ entry. entry.1) m))

in_set :
    (url k : ℕ) (probe : Probe) (m : List (ℕ × Probe))
    → has_url url (JsMap.set k probe m) ≡ true
    → (probe.endpoint == url || has_url url m) ≡ true
unfolding has_url
in_set url k probe [] h = h
in_set url k probe ((j, p) ∷ m) h = ground (arith, h, in_set url k probe m)

in_put_probes :
    (url : ℕ) (probes : List Probe) (m : List (ℕ × Probe))
    → has_url url (put_probes probes m) ≡ true
    → (is_among url (urls_of probes) || has_url url m) ≡ true
in_put_probes url [] m h = h
in_put_probes url (probe ∷ probes) m h = ground (
  arith,
  h,
  in_put_probes url probes (JsMap.set probe.endpoint probe m),
  in_set url probe.endpoint probe m,
)

any-take :
    {A : Type 0} (test : A → Bool) (n : ℕ) (xs : List A)
    → any test (take n xs) ≡ true
    → any test xs ≡ true
any-take test zero xs h = absurd (cc h)
any-take test (suc n) [] h = h
any-take test (suc n) (x ∷ xs) h = ground (arith, h, any-take test n xs)

is_among-urls_of :
    (url : ℕ) (probes : List Probe)
    → is_among url (urls_of probes) ≡ any (λ probe. probe.endpoint == url) probes
is_among-urls_of url [] = refl
is_among-urls_of url (probe ∷ probes) = ground (arith, is_among-urls_of url probes)

-- What is selected was active or has just been found.
pub in_select :
    (url : ℕ) (current : List Probe) (results : List ProbeResult) (required : ℕ)
    → is_among url (urls_of (select current results required)) ≡ true
    → (is_among url (urls_of current) || is_among url (urls_of (successes results))) ≡ true
unfolding select has_url
in_select url current results required h =
    let m : List (ℕ × Probe) = put_probes current [] in
    let all : List Probe = map (λ entry. entry.1) (put_probes (successes results) m) in
    let test : Probe → Bool = λ probe. probe.endpoint == url in
    let among =
      any-take test required _ (sym (is_among-urls_of url (select current results required)) ∙ h) in
    ground (
      arith,
      in_put_probes url (successes results) m,
      in_put_probes url current [],
      sym (any-sort_by test ranks_before all) ∙ among,
      is_among-urls_of url all,
    )

urls_of-connect :
    (active : List ActiveWs) (probes : List Probe) (opened : ℕ)
    → urls_of (map (λ a. a.probe) (connect active probes opened).0) ≡ urls_of probes
urls_of-connect active [] opened = refl
urls_of-connect active (probe ∷ probes) opened =
    ap (λ urls. probe.endpoint ∷ urls) (urls_of-connect active probes _)

pub active_urls-apply_probe_results :
    (method : ℕ) (transport : RpcTransport) (required : ℕ) (results : List ProbeResult)
    (s : Endpoints)
    → active_urls transport (apply_probe_results method transport required results s)
      ≡ urls_of (select (current_of transport s) results required)
unfolding apply_probe_results
active_urls-apply_probe_results method http required results s = refl
active_urls-apply_probe_results method ws required results s =
    urls_of-connect s.active_ws (select (current_of ws s) results required) s.opened
