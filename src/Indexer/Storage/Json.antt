-- ===== src/Indexer/Storage/Json.antt =====
-- How src/indexer/storage.ts writes checkpoints and blocks as texts and reads them back. `JSON.parse`
-- gives the value that `JSON.stringify` was given, so only that value is modelled. Hashes are named
-- by numbers elsewhere: `hash_text` is the text of one, `hash_named` finds it.
pub mod RoundTrip
use ether_state.Prelude.{
  ℕ, Bool, true, false, Option, none, some, List, [], ◌∷◌, ◌==◌, if◌then◌else◌,
}
use ether_state.Prelude.Digits.{to_string, big_int}
use ether_state.Prelude.Results.{Result, ok, err, ◌>>=◌}
use ether_state.ModelStore.{IndexedBlock}
use ether_state.Indexer.{FinalizedAnchor, IndexCheckpoint}

-- The keys of a stored checkpoint.
pub data Field : Type 0 where
  index_id version chain_id start_block number hash parent_hash timestamp finalized : Field

abbrev pub position : Field → ℕ
position index_id = 0
position version = 1
position chain_id = 2
position start_block = 3
position number = 4
position hash = 5
position parent_hash = 6
position timestamp = 7
position finalized = 8

mutual
  pub data Json : Type 0 where
    json_null : Json
    json_number : ℕ → Json
    json_string : List ℕ → Json
    json_object : Members → Json

  pub data Members : Type 0 where
    no_members : Members
    member : Field → Json → Members → Members

-- What a stored text may fail on.
pub data StoredError : Type 0 where
  not_an_object bad_anchor bad_fields bad_numeral : StoredError

abbrev pub value_at : Field → Members → Option Json
value_at f no_members = none
value_at f (member g v rest) = if position g == position f then some v else value_at f rest

abbrev pub as_string : Option Json → Option (List ℕ)
as_string (some (json_string s)) = some s
as_string _ = none

abbrev pub as_number : Option Json → Option ℕ
as_number (some (json_number n)) = some n
as_number _ = none

abbrev pub string_field : Members → Field → Option (List ℕ)
string_field value key = as_string (value_at key value)

abbrev pub number_field : Members → Field → Option ℕ
number_field value key = as_number (value_at key value)

abbrev pub some_or {ℓ} : {A : Type ℓ} → StoredError → Option A → Result StoredError A
some_or error none = err error
some_or error (some a) = ok a

-- A row of the table of blocks, as texts.
pub record BlockColumns : Type 0 where
  pub block_number : List ℕ
  pub block_hash : List ℕ
  pub parent_hash : List ℕ
  pub block_timestamp : List ℕ

module _ (hash_text : ℕ → List ℕ) (hash_named : List ℕ → ℕ) where
  abbrev pub anchor_json : Option FinalizedAnchor → Json
  anchor_json none = json_null
  anchor_json (some anchor) = json_object (
      member number (json_string (to_string anchor.number))
        (member hash (json_string (hash_text anchor.hash)) no_members))

  pub checkpoint_json : IndexCheckpoint → Json
  checkpoint_json c = json_object (
      member number (json_string (to_string c.block.number)) (
        member hash (json_string (hash_text c.block.hash)) (
          member parent_hash (json_string (hash_text c.block.parent_hash)) (
            member timestamp (json_string (to_string c.block.timestamp)) (
              member index_id (json_string c.index_id) (
                member version (json_number c.version) (
                  member chain_id (json_string (to_string c.chain_id)) (
                    member start_block (json_string (to_string c.start_block))
                      (member finalized (anchor_json c.finalized) no_members)))))))))

  -- `isRecord(finalizedValue)`: what is no object is no anchor.
  abbrev pub parse_anchor : Option Json → Result StoredError (Option FinalizedAnchor)
  parse_anchor (some (json_object value)) = do
    n ← some_or bad_anchor (string_field value number)
    h ← some_or bad_anchor (string_field value hash)
    parsed ← some_or bad_numeral (big_int n)
    ok (some (record { number = parsed; hash = hash_named h }))
  parse_anchor _ = ok none

  abbrev pub parse_members : Members → Result StoredError IndexCheckpoint
  parse_members value = do
    anchor ← parse_anchor (value_at finalized value)
    id ← some_or bad_fields (string_field value index_id)
    v ← some_or bad_fields (number_field value version)
    chain ← some_or bad_fields (string_field value chain_id)
    start ← some_or bad_fields (string_field value start_block)
    n ← some_or bad_fields (string_field value number)
    h ← some_or bad_fields (string_field value hash)
    parent ← some_or bad_fields (string_field value parent_hash)
    time ← some_or bad_fields (string_field value timestamp)
    chain' ← some_or bad_numeral (big_int chain)
    start' ← some_or bad_numeral (big_int start)
    n' ← some_or bad_numeral (big_int n)
    time' ← some_or bad_numeral (big_int time)
    ok (record {
      block = record {
        number = n';
        hash = hash_named h;
        parent_hash = hash_named parent;
        timestamp = time';
      };
      index_id = id;
      version = v;
      chain_id = chain';
      start_block = start';
      finalized = anchor;
    })

  unfoldable pub parse_checkpoint : Json → Result StoredError IndexCheckpoint
  parse_checkpoint (json_object value) = parse_members value
  parse_checkpoint json_null = err not_an_object
  parse_checkpoint (json_number n) = err not_an_object
  parse_checkpoint (json_string s) = err not_an_object

  -- The arguments of `blockStatement` that stand for the block.
  pub block_columns : IndexedBlock → BlockColumns
  block_columns b = record {
    block_number = to_string b.number;
    block_hash = hash_text b.hash;
    parent_hash = hash_text b.parent_hash;
    block_timestamp = to_string b.timestamp;
  }

  pub parse_block : BlockColumns → Result StoredError IndexedBlock
  parse_block row = do
    n ← some_or bad_numeral (big_int row.block_number)
    time ← some_or bad_numeral (big_int row.block_timestamp)
    ok (record {
      number = n;
      hash = hash_named row.block_hash;
      parent_hash = hash_named row.parent_hash;
      timestamp = time;
    })
