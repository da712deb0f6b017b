-- ===== src/Tests/StorageTests.antt =====
-- A checkpoint in a store, where the text of a hash is its decimal numeral.
use ether_state.Prelude.{ℕ, ◌≡◌, refl, ap, Option, none, some, List, [], ◌∷◌}
use ether_state.Prelude.Digits.{to_string, big_int, big_int-to_string}
use ether_state.Prelude.Results.{ok, err}
use ether_state.Indexer.{IndexCheckpoint}
use ether_state.Indexer.Storage.Json.{
  checkpoint_json, parse_checkpoint, json_null, json_object, no_members, not_an_object, bad_fields,
}
use ether_state.Indexer.Storage.Json.RoundTrip.{parse_checkpoint-checkpoint_json}

abbrev or_zero : Option ℕ → ℕ
or_zero none = 0
or_zero (some n) = n

abbrev hash_named : List ℕ → ℕ
hash_named t = or_zero (big_int t)

abbrev checkpoint : IndexCheckpoint
checkpoint = record {
  block = record { number = 20; hash = 700; parent_hash = 600; timestamp = 240 };
  index_id = 105 ∷ [];
  version = 1;
  chain_id = 1;
  start_block = 0;
  finalized = some (record { number = 12; hash = 500 });
}

parse_checkpoint-checkpoint_json_example :
    parse_checkpoint to_string hash_named (checkpoint_json to_string hash_named checkpoint)
    ≡ ok checkpoint
parse_checkpoint-checkpoint_json_example =
    parse_checkpoint-checkpoint_json to_string hash_named checkpoint
      (λ h. ap or_zero (big_int-to_string h))

refuses_null : parse_checkpoint to_string hash_named json_null ≡ err not_an_object
unfolding parse_checkpoint
refuses_null = refl

refuses_no_fields : parse_checkpoint to_string hash_named (json_object no_members) ≡ err bad_fields
unfolding parse_checkpoint
refuses_no_fields = refl
