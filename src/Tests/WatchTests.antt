-- ===== src/Tests/WatchTests.antt =====
-- A log of address 7 with topics 1 and 2, where `toLowerCase` takes 70 to 7.
use ether_state.Prelude.{ℕ, ◌≡◌, ◌↔◌, refl, true, false, none, some, [], ◌∷◌, ◌==◌, if◌then◌else◌}
use ether_state.Rpc.{RpcLog, RpcLogFilter, one_address, any_topic, one_topic, many_topics}
use ether_state.Watch.{matches_log, match_topics}
use ether_state.Watch.Topics.{AddressMatches, TopicsMatch, matches_log_iff}

abbrev lower : ℕ → ℕ
lower c = if c == 70 then 7 else c

abbrev log : RpcLog
log = record {
  transaction_hash = 1;
  transaction_index = some 0;
  log_index = some 0;
  block_hash = some 700;
  block_number = some 7;
  block_timestamp = none;
  address = some 7;
  bytes = none;
  topics = some (1 ∷ 2 ∷ []);
  removed = none;
}

abbrev filter : RpcLogFilter
filter = record {
  address = some (one_address 70);
  topics = some (any_topic ∷ many_topics (some 5 ∷ some 2 ∷ []) ∷ []);
}

matches : matches_log lower log filter ≡ true
unfolding matches_log
matches = refl

third_topic_missing :
    match_topics lower (any_topic ∷ any_topic ∷ one_topic 9 ∷ []) (1 ∷ 2 ∷ []) ≡ false
unfolding match_topics
third_topic_missing = refl

matches_log_iff_example : (matches_log lower log filter ≡ true) ↔ (
    AddressMatches lower (some (one_address 70)) (some 7)
    × TopicsMatch lower (any_topic ∷ many_topics (some 5 ∷ some 2 ∷ []) ∷ []) (1 ∷ 2 ∷ []))
matches_log_iff_example = matches_log_iff lower log filter
