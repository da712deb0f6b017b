-- ===== src/Watch/Topics.antt =====
-- `matchesLog` against a description by positions and values.
use ether_state.Prelude.{
  ℕ, zero, suc, ◌≡◌, refl, ap, ◌∙◌, ◌⊎◌, inl, inr, ◌↔◌, Bool, true, Option, none, some, List, [],
  ◌∷◌, and_left, and_right, any, ==_iff, Bool-cases, arith, get_elem?,
}
use ether_state.Rpc.{
  RpcLog, AddressFilter, one_address, many_addresses, TopicFilter, any_topic, one_topic,
  many_topics, RpcLogFilter,
}
use ether_state.Watch.{
  same_lower, matches_value, matches_address, matches_topic, match_topics, matches_log, or_none,
}

-- A test that holds of some element of a list.
any_at :
    {A : Type 0} (test : A → Bool) (xs : List A) (i : ℕ) (x : A)
    → get_elem? xs i ≡ some x
    → test x ≡ true
    → any test xs ≡ true
any_at test [] i x at h = absurd (cc at)
any_at test (y ∷ xs) zero x at h =
    let same : y ≡ x = cc at in let here = ap test same in ground (arith, h, here)
any_at test (y ∷ xs) (suc i) x at h = ground (arith, any_at test xs i x at h)

any_found :
    {A : Type 0} (test : A → Bool) (xs : List A)
    → any test xs ≡ true
    → (i : ℕ) × (x : A) × (get_elem? xs i ≡ some x) × (test x ≡ true)
any_found test [] h = absurd (cc h)
any_found test (x ∷ xs) h = elim (Bool-cases (test x)) [
  | inl here ↦ (zero, x, refl, here)
  | inr not_here ↦
      let (i, y, at, there) = any_found test xs (ground (arith, not_here, h)) in
      (suc i, y, at, there)
]

any_iff :
    {A : Type 0} (test : A → Bool) (xs : List A)
    → (any test xs ≡ true) ↔ ((i : ℕ) × (x : A) × (get_elem? xs i ≡ some x) × (test x ≡ true))
any_iff test xs = (any_found test xs, λ (i, x, at, h). any_at test xs i x at h)

module _ (to_lower_case : ℕ → ℕ) where
  -- There is a text, which is the value but for the case.
  abbrev pub SameLower : ℕ → Option ℕ → Type 0
  SameLower value text = (t : ℕ) × (text ≡ some t) × (to_lower_case value ≡ to_lower_case t)

  -- The address is that of the filter, or one of the filter's, where it has any.
  abbrev pub AddressMatches : Option AddressFilter → Option ℕ → Type 0
  AddressMatches none address = Unit {0}
  AddressMatches (some (one_address a)) address = SameLower a address
  AddressMatches (some (many_addresses list)) address =
      (i : ℕ) × (a : ℕ) × (get_elem? list i ≡ some a) × SameLower a address

  -- The topic is the value, or one of the values, of which `none` stands for any topic or none.
  abbrev pub TopicMatches : TopicFilter → Option ℕ → Type 0
  TopicMatches any_topic topic = Unit {0}
  TopicMatches (one_topic value) topic = SameLower value topic
  TopicMatches (many_topics values) topic =
      (i : ℕ) × (v : Option ℕ) × (get_elem? values i ≡ some v)
      × ((v ≡ none) ⊎ ((value : ℕ) × (v ≡ some value) × SameLower value topic))

  -- The filter at each position matches the topic at that position, or none.
  abbrev pub TopicsMatch : List TopicFilter → List ℕ → Type 0
  TopicsMatch filters topics =
      (i : ℕ) (f : TopicFilter) → get_elem? filters i ≡ some f → TopicMatches f (get_elem? topics i)

  same_lower_iff :
      (value : ℕ) (text : Option ℕ)
      → (same_lower to_lower_case value text ≡ true) ↔ SameLower value text
  same_lower_iff value none = (λ h. absurd (cc h), λ h. absurd (cc h.1))
  same_lower_iff value (some t) = (
    λ h. (t, refl, (==_iff (to_lower_case value) (to_lower_case t)).0 h),
    λ h.
        let same : t ≡ h.0 = cc h.1 in
        (==_iff (to_lower_case value) (to_lower_case t)).1 (cc (h.2, ap to_lower_case same)),
  )

  matches_address_iff :
      (filter : Option AddressFilter) (address : Option ℕ)
      → (matches_address to_lower_case filter address ≡ true) ↔ AddressMatches filter address
  matches_address_iff none address = (λ _. tt, λ _. refl)
  matches_address_iff (some (one_address a)) address =
      let same = same_lower_iff a address in
      (λ h. same.0 (ground (arith, h)), λ h. ground (arith, same.1 h))
  matches_address_iff (some (many_addresses list)) address =
      let found = any_iff (λ a. same_lower to_lower_case a address) list in
      (
        λ h. (let (i, a, at, same) = found.0 h in (i, a, at, (same_lower_iff a address).0 same)),
        λ (i, a, at, same). found.1 (i, a, at, (same_lower_iff a address).1 same),
      )

  matches_value_iff :
      (v topic : Option ℕ)
      → (matches_value to_lower_case v topic ≡ true)
        ↔ ((v ≡ none) ⊎ ((value : ℕ) × (v ≡ some value) × SameLower value topic))
  matches_value_iff none topic = (λ _. inl refl, λ _. refl)
  matches_value_iff (some value) topic = (
    λ h. inr (value, refl, (same_lower_iff value topic).0 h),
    λ h. elim h [
      | inl other ↦ absurd (cc other)
      | inr (w, e, same) ↦
          let here : value ≡ w = cc e in
          (same_lower_iff value topic).1 (same.0, same.1, ap to_lower_case here ∙ same.2)
    ],
  )

  matches_topic_iff :
      (f : TopicFilter) (topic : Option ℕ)
      → (matches_topic to_lower_case f topic ≡ true) ↔ TopicMatches f topic
  matches_topic_iff any_topic topic = (λ _. tt, λ _. refl)
  matches_topic_iff (one_topic value) topic =
      let same = same_lower_iff value topic in
      (λ h. same.0 (ground (arith, h)), λ h. ground (arith, same.1 h))
  matches_topic_iff (many_topics values) topic =
      let found = any_iff (λ v. matches_value to_lower_case v topic) values in
      (
        λ h. (let (i, v, at, one) = found.0 h in (i, v, at, (matches_value_iff v topic).0 one)),
        λ (i, v, at, one). found.1 (i, v, at, (matches_value_iff v topic).1 one),
      )

  match_topics_sound :
      (filters : List TopicFilter) (topics : List ℕ)
      → match_topics to_lower_case filters topics ≡ true
      → TopicsMatch filters topics
  unfolding match_topics
  match_topics_sound [] topics h i f e = absurd (cc e)
  match_topics_sound (g ∷ filters) [] h zero f e =
      (matches_topic_iff f none).0 (ground (arith, h, e))
  match_topics_sound (g ∷ filters) [] h (suc i) f e =
      match_topics_sound filters [] (ground (arith, h)) i f e
  match_topics_sound (g ∷ filters) (t ∷ topics) h zero f e =
      (matches_topic_iff f (some t)).0 (ground (arith, h, e))
  match_topics_sound (g ∷ filters) (t ∷ topics) h (suc i) f e =
      match_topics_sound filters topics (ground (arith, h)) i f e

  match_topics_complete :
      (filters : List TopicFilter) (topics : List ℕ)
      → TopicsMatch filters topics
      → match_topics to_lower_case filters topics ≡ true
  unfolding match_topics
  match_topics_complete [] topics h = refl
  match_topics_complete (g ∷ filters) [] h =
      let first = (matches_topic_iff g none).1 (h zero g refl) in
      ground (arith, first, match_topics_complete filters [] (λ i f e. h (suc i) f e))
  match_topics_complete (g ∷ filters) (t ∷ topics) h =
      let first = (matches_topic_iff g (some t)).1 (h zero g refl) in
      ground (arith, first, match_topics_complete filters topics (λ i f e. h (suc i) f e))

  -- `matchesLog` holds exactly if the log has the filter's address, or one of its addresses, where it
  -- has any, and the filter at each position lets any topic through, or the log has a topic at that
  -- position that is the filter's, or one of its values, or one of its values stands for any. Texts are
  -- compared without their case.
  pub matches_log_iff :
      (log : RpcLog) (filter : RpcLogFilter)
      → (matches_log to_lower_case log filter ≡ true) ↔ (
          AddressMatches filter.address log.address
          × TopicsMatch (or_none filter.topics) (or_none log.topics))
  unfolding matches_log
  matches_log_iff log filter = (
    λ h. (
      (matches_address_iff filter.address log.address).0 (and_left _ _ h),
      match_topics_sound (or_none filter.topics) (or_none log.topics) (and_right _ _ h),
    ),
    λ h.
        let address = (matches_address_iff filter.address log.address).1 h.0 in
        ground
          (arith, address, match_topics_complete (or_none filter.topics) (or_none log.topics) h.1),
  )
