-- ===== src/Client/Endpoints/Remainder.antt =====
-- The probing of the endpoints that a client did not probe as it started.
use ether_state.Prelude.{
  ℕ, zero, suc, ◌≤◌, ◌<◌, ◌≡◌, refl, subst, ◌∙◌, Bool, true, false, ◌||◌, none, some, List, [], ◌∷◌,
  map, ◌==◌, ==_iff, length, take, drop, length-drop, IsDistinct, Bool-cases, inl, inr, arith, max,
}
use ether_state.Prelude.JsMap
use ether_state.Prelude.JsMap.{nat_eq}
use ether_state.Client.{RpcTransport, EndpointState}
use ether_state.Client.Endpoints.{
  ProbeResult, found, found_wrong, found_none, Endpoints, successes, is_among, url_of,
  initial_endpoint_state, put_results, apply_probe_results, probe_remainder,
}
use ether_state.Client.Endpoints.Selected.{urls_of, active_urls}
use ether_state.Client.Endpoints.Marks.{
  failures, IsConsistent, get-restate_all, apply_probe_results_lem,
}

abbrev pub same : ℕ → ℕ → Bool
same a b = b == a

-- No endpoint comes twice, and none is known yet.
abbrev pub AreNew : List ℕ → Endpoints → Type 0
AreNew endpoints s =
    IsDistinct same endpoints
    × ((url : ℕ) → is_among url endpoints ≡ true → JsMap.get url s.endpoint_state ≡ none)

in_take-drop :
    (url n : ℕ) (es : List ℕ)
    → is_among url es ≡ (is_among url (take n es) || is_among url (drop n es))
in_take-drop url zero es = refl
in_take-drop url (suc n) [] = refl
in_take-drop url (suc n) (e ∷ es) = ground (arith, in_take-drop url n es)

drop-IsDistinct : (n : ℕ) (es : List ℕ) → IsDistinct same es → IsDistinct same (drop n es)
drop-IsDistinct zero es d = d
drop-IsDistinct (suc n) [] d = d
drop-IsDistinct (suc n) (e ∷ es) d = drop-IsDistinct n es d.1

-- What is taken is not among the rest.
taken_apart :
    (url n : ℕ) (es : List ℕ)
    → IsDistinct same es
    → is_among url (take n es) ≡ true
    → is_among url (drop n es) ≡ false
taken_apart url zero es d h = absurd (cc h)
taken_apart url (suc n) [] d h = refl
taken_apart url (suc n) (e ∷ es) d h = elim (Bool-cases (e == url)) [
  | inl here ↦
      let at : e ≡ url = (==_iff e url).0 here in
      ground (arith, in_take-drop url n es, subst (λ u. is_among u es ≡ false) at d.0)
  | inr later ↦ taken_apart url n es d.1 (ground (arith, later, h))
]

take-IsDistinct : (n : ℕ) (es : List ℕ) → IsDistinct same es → IsDistinct same (take n es)
take-IsDistinct zero es d = tt
take-IsDistinct (suc n) [] d = d
take-IsDistinct (suc n) (e ∷ es) d =
    (ground (arith, d.0, in_take-drop e n es), take-IsDistinct n es d.1)

module _ (probe : ℕ → ProbeResult) (names : (e : ℕ) → url_of (probe e) ≡ e) where
  -- Each endpoint that is probed is found or not, and no other is.
  in_results :
      (url : ℕ) (es : List ℕ)
      → is_among url es ≡ (
          is_among url (failures (map probe es))
          || is_among url (urls_of (successes (map probe es))))
  in_results url [] = refl
  in_results url (e ∷ es) = go (probe e) (names e) (in_results url es)
    where
      go :
          (r : ProbeResult)
          → url_of r ≡ e
          → is_among url es ≡ (
              is_among url (failures (map probe es))
              || is_among url (urls_of (successes (map probe es))))
          → is_among url (e ∷ es) ≡ (
              is_among url (failures (r ∷ map probe es))
              || is_among url (urls_of (successes (r ∷ map probe es))))
      go (found p) at rest = ground (arith, at, rest)
      go (found_wrong actual p) at rest = ground (arith, at, rest)
      go (found_none p) at rest = ground (arith, at, rest)

  found_once :
      (url : ℕ) (es : List ℕ)
      → IsDistinct same es
      → is_among url (failures (map probe es)) ≡ true
      → is_among url (urls_of (successes (map probe es))) ≡ false
  found_once url [] d h = refl
  found_once url (e ∷ es) d h = go (probe e) (names e) h (found_once url es d.1)
    where
      out : (e == url) ≡ true → is_among url es ≡ false
      out here = subst (λ u. is_among u es ≡ false) ((==_iff e url).0 here) d.0

      go :
          (r : ProbeResult)
          → url_of r ≡ e
          → is_among url (failures (r ∷ map probe es)) ≡ true
          → (is_among url (failures (map probe es)) ≡ true
              → is_among url (urls_of (successes (map probe es))) ≡ false)
          → is_among url (urls_of (successes (r ∷ map probe es))) ≡ false
      go (found p) at h rest = ground (arith, at, h, rest, in_results url es, out)
      go (found_wrong actual p) at h rest = ground (arith, at, h, rest, in_results url es, out)
      go (found_none p) at h rest = ground (arith, at, h, rest, in_results url es, out)

  put_results-new :
      (method : ℕ) (transport : RpcTransport) (urls : List ℕ) (url : ℕ) (es : List ℕ)
      (m : List (ℕ × EndpointState))
      → JsMap.get url m ≡ none
      → is_among url es ≡ false
      → JsMap.get url (put_results method transport urls (map probe es) m) ≡ none
  put_results-new method transport urls url [] m h out = h
  put_results-new method transport urls url (e ∷ es) m h out =
      let put =
        initial_endpoint_state method transport urls (JsMap.get (url_of (probe e)) m) (probe e) in
      put_results-new method transport urls url es (JsMap.set (url_of (probe e)) put m)
        (ground (arith, JsMap.get-set (url_of (probe e)) url put m, names e, h, out))
        (ground (arith, out))

  module _ (method : ℕ) (transport : RpcTransport) (required size : ℕ)
      (some_at_once : 1 ≤ size) where
    -- A batch leaves what is not in it new.
    batch-AreNew :
        (es : List ℕ) (s : Endpoints)
        → AreNew es s
        → AreNew
            (drop size es)
            (apply_probe_results method transport required (map probe (take size es)) s)
    unfolding apply_probe_results
    batch-AreNew es s new = (
      drop-IsDistinct size es new.0,
      λ url h.
          put_results-new method transport _ url (take size es) _
            (get-restate_all transport _ s.endpoint_state url
              ∙ rw (new.1 url (ground (arith, in_take-drop url size es, h))) refl)
            (elim (Bool-cases (is_among url (take size es))) [
              | inl taken ↦ absurd (cc (h, taken_apart url size es new.0 taken))
              | inr out ↦ out
            ]),
    )

    probe_remainder-IsConsistent :
        (fuel : ℕ) (es : List ℕ) (s : Endpoints)
        → length es < fuel
        → AreNew es s
        → IsConsistent transport s
        → (t : Endpoints) × (probe_remainder probe method size transport required fuel es s
            ≡ some t)
          × IsConsistent transport t
          × (length (active_urls transport t) ≤ max required (length (active_urls transport s)))
    unfolding probe_remainder
    probe_remainder-IsConsistent zero es s enough new i = absurd (omega (arith, enough))
    probe_remainder-IsConsistent (suc fuel) [] s enough new i = (s, refl, i, omega arith)
    probe_remainder-IsConsistent (suc fuel) (e ∷ es) s enough new i =
        let all : List ℕ = e ∷ es in
        let batch = take size all in
        let after = apply_probe_results method transport required (map probe batch) s in
        let step =
          apply_probe_results_lem method transport required (map probe batch) s i
            (λ url h.
              new.1 url (ground (arith, in_take-drop url size all, in_results url batch, h)))
            (λ url h. found_once url batch (take-IsDistinct size all new.0) h) in
        let rest =
          probe_remainder-IsConsistent fuel (drop size all) after
            (omega (arith, enough, some_at_once, length-drop size all)) (batch-AreNew all s new)
            step.0 in
        (rest.0, rest.1, rest.2, omega (arith, rest.3, step.1))

-- The probing of endpoints of which none comes twice and none is known comes to an end with fuel for
-- each, where a probe is of the endpoint that it is given and at least one is probed at once. It leaves
-- the endpoints marked as selected that are active, and the active ones known. No more are active than
-- before or than are asked for.
pub probe_remainder_lem :
    (probe : ℕ → ProbeResult) (method : ℕ) (transport : RpcTransport) (required size fuel : ℕ)
    (endpoints : List ℕ) (s : Endpoints)
    → ((e : ℕ) → url_of (probe e) ≡ e)
    → 1 ≤ size
    → length endpoints < fuel
    → AreNew endpoints s
    → IsConsistent transport s
    → (t : Endpoints) × (probe_remainder probe method size transport required fuel endpoints s
        ≡ some t)
      × IsConsistent transport t
      × (length (active_urls transport t) ≤ max required (length (active_urls transport s)))
probe_remainder_lem probe method transport required size fuel endpoints s names pos enough new i =
    probe_remainder-IsConsistent probe names method transport required size pos fuel endpoints s
      enough new i
