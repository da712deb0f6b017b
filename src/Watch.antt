-- ===== src/Watch.antt =====
-- `matchesLog` of src/rpc/watch.ts. `toLowerCase` is a parameter, on the texts that numbers name.
pub mod Topics
use ether_state.Prelude.{ℕ, Bool, true, false, ◌&&◌, Option, none, some, List, [], ◌∷◌, any, ◌==◌}
use ether_state.Rpc.{
  RpcLog, AddressFilter, one_address, many_addresses, TopicFilter, any_topic, one_topic,
  many_topics, RpcLogFilter,
}

abbrev pub or_none {ℓ} : {A : Type ℓ} → Option (List A) → List A
or_none none = []
or_none (some xs) = xs

module _ (to_lower_case : ℕ → ℕ) where
  -- `value.toLowerCase() === text?.toLowerCase()`
  abbrev pub same_lower : ℕ → Option ℕ → Bool
  same_lower value none = false
  same_lower value (some text) = to_lower_case value == to_lower_case text

  abbrev pub matches_address : Option AddressFilter → Option ℕ → Bool
  matches_address none address = true
  matches_address (some (one_address a)) address = any (λ a. same_lower a address) (a ∷ [])
  matches_address (some (many_addresses list)) address = any (λ a. same_lower a address) list

  abbrev pub matches_value : Option ℕ → Option ℕ → Bool
  matches_value none topic = true
  matches_value (some value) topic = same_lower value topic

  abbrev pub matches_topic : TopicFilter → Option ℕ → Bool
  matches_topic any_topic topic = true
  matches_topic (one_topic value) topic = any (λ v. matches_value v topic) (some value ∷ [])
  matches_topic (many_topics values) topic = any (λ v. matches_value v topic) values

  -- `every((topic, index) => … log.topics?.[index] …)`
  unfoldable pub match_topics : List TopicFilter → List ℕ → Bool
  match_topics [] topics = true
  match_topics (f ∷ filters) [] = matches_topic f none && match_topics filters []
  match_topics (f ∷ filters) (t ∷ topics) = matches_topic f (some t) && match_topics filters topics

  unfoldable pub matches_log : RpcLog → RpcLogFilter → Bool
  unfolding match_topics
  matches_log log filter =
      matches_address filter.address log.address
      && match_topics (or_none filter.topics) (or_none log.topics)
