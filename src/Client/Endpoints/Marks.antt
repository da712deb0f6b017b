-- ===== src/Client/Endpoints/Marks.antt =====
-- That the endpoints marked as selected are those that are active.
use ether_state.Prelude.{
  ℕ, ◌≤◌, ◌≡◌, ◌≢◌, refl, sym, ap, subst, ◌∙◌, Bool, true, false, ◌&&◌, ◌||◌, Option, none, some,
  List, [], ◌∷◌, ◌==◌, ==_iff, length, length-map, length-take_le, Bool-cases, Option-cases, inl,
  inr, arith,
}
use ether_state.Prelude.JsMap
use ether_state.Prelude.JsMap.{nat_eq}
use ether_state.Client.{RpcTransport, EndpointState, is_selected, is_standby}
use ether_state.Client.Endpoints.{
  Probe, ProbeResult, found, found_wrong, found_none, Endpoints, successes, is_among, url_of,
  selected_if, status_of, initial_endpoint_state, put_results, is_of, restate, restate_all,
  current_of, select, apply_probe_results,
}
use ether_state.Client.Endpoints.Selected.{
  urls_of, active_urls, in_select, active_urls-apply_probe_results,
}

-- The endpoints that a probe did not find on the chain.
abbrev pub failures : List ProbeResult → List ℕ
failures [] = []
failures (found probe ∷ results) = failures results
failures (found_wrong actual probe ∷ results) = probe.endpoint ∷ failures results
failures (found_none probe ∷ results) = probe.endpoint ∷ failures results

abbrev pub Marked : RpcTransport → List ℕ → List (ℕ × EndpointState) → Type 0
Marked transport urls m =
    (url : ℕ) (e : EndpointState)
    → JsMap.get url m ≡ some e
    → is_of transport e ≡ true
    → is_selected e.status ≡ is_among url urls

-- An endpoint is marked as selected exactly if it is active, and what is active is known.
pub record IsConsistent (transport : RpcTransport) (s : Endpoints) : Type 0 where
  pub marked : Marked transport (active_urls transport s) s.endpoint_state
  pub known :
      (url : ℕ)
      → is_among url (active_urls transport s) ≡ true
      → JsMap.get url s.endpoint_state ≢ none

is_selected-selected_if : (b : Bool) → is_selected (selected_if b) ≡ b
is_selected-selected_if true = refl
is_selected-selected_if false = refl

-- What a result puts under its endpoint is marked as it should be.
put_results-Marked :
    (method : ℕ) (transport : RpcTransport) (urls : List ℕ) (results : List ProbeResult)
    (m : List (ℕ × EndpointState))
    → ((url : ℕ) → is_among url (failures results) ≡ true → is_among url urls ≡ false)
    → Marked transport urls m
    → Marked transport urls (put_results method transport urls results m)
put_results-Marked method transport urls [] m f i = i
put_results-Marked method transport urls (result ∷ results) m f i =
    put_results-Marked method transport urls results (JsMap.set (url_of result) put m)
      (later result f) i'
  where
    put : EndpointState
    put = initial_endpoint_state method transport urls (JsMap.get (url_of result) m) result

    later :
        (r : ProbeResult)
        → ((url : ℕ) → is_among url (failures (r ∷ results)) ≡ true → is_among url urls ≡ false)
        → (url : ℕ) → is_among url (failures results) ≡ true
        → is_among url urls ≡ false
    later (found probe) f url h = f url h
    later (found_wrong actual probe) f url h = f url (ground (arith, h))
    later (found_none probe) f url h = f url (ground (arith, h))

    mark :
        (r : ProbeResult)
        → ((url : ℕ) → is_among url (failures (r ∷ results)) ≡ true → is_among url urls ≡ false)
        → is_selected (status_of urls r) ≡ is_among (url_of r) urls
    mark (found probe) f = is_selected-selected_if (is_among probe.endpoint urls)
    mark (found_wrong actual probe) f =
        sym (f probe.endpoint (ground (arith, ==_iff probe.endpoint probe.endpoint)))
    mark (found_none probe) f =
        sym (f probe.endpoint (ground (arith, ==_iff probe.endpoint probe.endpoint)))

    i' : Marked transport urls (JsMap.set (url_of result) put m)
    i' url e h o = elim (Bool-cases (url_of result == url)) [
      | inl same ↦
          let is_put : ◌≡◌ {A = Option EndpointState} (some e) (some put) =
            sym h ∙ JsMap.get-set (url_of result) url put m ∙ rw same refl in
          let at : url_of result ≡ url = (==_iff (url_of result) url).0 same in
          let is_e : e ≡ put = cc is_put in
          ap (λ x. is_selected x.status) is_e
          ∙ subst (λ u. is_selected put.status ≡ is_among u urls) at (mark result f)
      | inr other ↦ i url e (sym (JsMap.get-set (url_of result) url put m ∙ rw other refl) ∙ h) o
    ]

-- What was there, and what results are of, is there after.
put_results-known :
    (method : ℕ) (transport : RpcTransport) (urls : List ℕ) (results : List ProbeResult)
    (m : List (ℕ × EndpointState)) (url : ℕ)
    → JsMap.get url (put_results method transport urls results m) ≡ none
    → (JsMap.get url m ≡ none) × (is_among url (urls_of (successes results)) ≡ false)
put_results-known method transport urls [] m url h = (h, refl)
put_results-known method transport urls (result ∷ results) m url h =
    let put = initial_endpoint_state method transport urls (JsMap.get (url_of result) m) result in
    let r =
      put_results-known method transport urls results (JsMap.set (url_of result) put m) url h in
    let was = sym (JsMap.get-set (url_of result) url put m) ∙ r.0 in
    elim (Bool-cases (url_of result == url)) [
      | inl same ↦ absurd (cc (rw same at was))
      | inr other ↦ (rw other at was, new result other r.1)
    ]
  where
    new :
        (r : ProbeResult)
        → (url_of r == url) ≡ false
        → is_among url (urls_of (successes results)) ≡ false
        → is_among url (urls_of (successes (r ∷ results))) ≡ false
    new (found probe) other f = ground (arith, other, f)
    new (found_wrong actual probe) other f = f
    new (found_none probe) other f = f

pub get-restate_all :
    (transport : RpcTransport) (urls : List ℕ) (m : List (ℕ × EndpointState)) (url : ℕ)
    → JsMap.get url (restate_all transport urls m)
      ≡ (elim (JsMap.get url m) [ none ↦ none | some e ↦ some (restate transport urls url e) ])
get-restate_all transport urls [] url = refl
get-restate_all transport urls ((j, e) ∷ m) url = elim (Bool-cases (j == url)) [
  | inl same ↦
      let at : j ≡ url = (==_iff j url).0 same in
      rw same (ap (λ u. some (restate transport urls u e)) at)
  | inr other ↦ rw other (get-restate_all transport urls m url)
]

restate-Marked :
    (transport : RpcTransport) (urls : List ℕ) (url : ℕ) (e : EndpointState)
    → is_of transport (restate transport urls url e) ≡ true
    → ((is_selected e.status || is_standby e.status) ≡ false
        → is_of transport e ≡ true
        → is_among url urls ≡ false)
    → is_selected (restate transport urls url e).status ≡ is_among url urls
restate-Marked transport urls url e o f =
    elim (Bool-cases (is_of transport e && (is_selected e.status || is_standby e.status))) [
      | inl usable ↦ rw (usable, restate) (is_selected-selected_if (is_among url urls))
      | inr other ↦
          let here = rw (other, restate) at o in
          let out = f (ground (arith, other, here)) here in
          rw (other, restate) (ground (arith, other, here, out))
    ]

-- Results of new endpoints of a transport, none of which was both found and not found, leave the
-- endpoints marked as selected that are active, and the active ones known. No more are active than
-- were asked for.
pub apply_probe_results_lem :
    (method : ℕ) (transport : RpcTransport) (required : ℕ) (results : List ProbeResult)
    (s : Endpoints)
    → IsConsistent transport s
    → ((url : ℕ)
        → (is_among url (failures results) || is_among url (urls_of (successes results))) ≡ true
        → JsMap.get url s.endpoint_state ≡ none)
    → ((url : ℕ)
        → is_among url (failures results) ≡ true
        → is_among url (urls_of (successes results)) ≡ false)
    → IsConsistent transport (apply_probe_results method transport required results s)
      × (length (active_urls transport (apply_probe_results method transport required results s))
          ≤ required)
unfolding apply_probe_results select
apply_probe_results_lem method transport required results s i new once = (
  record {
    marked =
        subst (λ u. Marked transport u after) (sym now)
          (put_results-Marked method transport urls results old failed_out old-Marked);
    known = λ url h e.
        let was = put_results-known method transport urls results old url e in
        let gone = sym (get-restate_all transport urls s.endpoint_state url) ∙ was.0 in
        elim (Option-cases (JsMap.get url s.endpoint_state)) [
          | inl out ↦
              let was_or_new = from url (subst (λ u. is_among url u ≡ true) now h) in
              absurd (ground (arith, was_or_new, was.1, active url out))
          | inr (x, there) ↦ absurd (cc (rw there at gone))
        ];
  },
  subst (λ u. length u ≤ required) (sym now) (omega (arith, length-urls_of chosen, length-select)),
)
  where
    chosen : List Probe
    chosen = select (current_of transport s) results required

    urls : List ℕ
    urls = urls_of chosen

    old : List (ℕ × EndpointState)
    old = restate_all transport urls s.endpoint_state

    after : List (ℕ × EndpointState)
    after = put_results method transport urls results old

    now : active_urls transport (apply_probe_results method transport required results s) ≡ urls
    now = active_urls-apply_probe_results method transport required results s

    from :
        (url : ℕ)
        → is_among url urls ≡ true
        → (is_among url (active_urls transport s) || is_among url (urls_of (successes results)))
          ≡ true
    from url h = in_select url (current_of transport s) results required h

    active :
        (url : ℕ)
        → JsMap.get url s.endpoint_state ≡ none
        → is_among url (active_urls transport s) ≡ false
    active url out = elim (Bool-cases (is_among url (active_urls transport s))) [
      | inl h ↦ absurd (i.known url h out)
      | inr h ↦ h
    ]

    length-urls_of : (probes : List Probe) → length (urls_of probes) ≡ length probes
    length-urls_of probes = length-map probes (λ probe. probe.endpoint)

    length-select : length chosen ≤ required
    length-select = length-take_le required _

    failed_out : (url : ℕ) → is_among url (failures results) ≡ true → is_among url urls ≡ false
    failed_out url h =
        ground (arith, from url, once url h, active url (new url (ground (arith, h))))

    not_new :
        (url : ℕ) (x : EndpointState)
        → JsMap.get url s.endpoint_state ≡ some x
        → is_among url (urls_of (successes results)) ≡ false
    not_new url x w = elim (Bool-cases (is_among url (urls_of (successes results)))) [
      | inl h ↦ absurd (cc (sym w ∙ new url (ground (arith, h))))
      | inr h ↦ h
    ]

    old-Marked : Marked transport urls old
    old-Marked url e h o = go (JsMap.get url s.endpoint_state) refl
      where
        go :
            (was : Option EndpointState)
            → JsMap.get url s.endpoint_state ≡ was
            → is_selected e.status ≡ is_among url urls
        go none w =
            absurd (cc (rw w at (sym h ∙ get-restate_all transport urls s.endpoint_state url)))
        go (some x) w =
            let is_some : ◌≡◌ {A = Option EndpointState} (some e)
                (some (restate transport urls url x)) =
              sym h ∙ get-restate_all transport urls s.endpoint_state url ∙ rw w refl in
            let is_e : restate transport urls url x ≡ e = cc is_some in
            ap (λ y. is_selected y.status) (sym is_e)
            ∙ restate-Marked transport urls url x (ap (is_of transport) is_e ∙ o) (λ unused of_it.
              ground (arith, from url, unused, i.marked url x w of_it, not_new url x w))
