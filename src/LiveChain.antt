-- ===== src/LiveChain.antt =====
-- src/rpc/live-chain.ts: the cursor that turns observed heads into blocks to apply and reverts.
-- `acquire` is one round of `Stream.unfold`. What the client does is its environment: the heads
-- that the stream holds, the outcome of each load and of each header request. `options.recover`,
-- which runs a failed round again, is another round. Hashes are only compared.
pub mod Follow
pub mod Revert
pub mod Rounds
use ether_state.Prelude.{
  ℕ, zero, suc, ◌+◌, ◌-◌, ◌≡◌, Bool, true, false, not, ◌&&◌, ◌||◌, Option, none, some, List, [],
  ◌∷◌, map, reverse, ltb, leb, ◌==◌, if◌then◌else◌, length, keep,
}
use ether_state.Prelude.JsMap
use ether_state.Prelude.JsMap.{nat_eq}

-- `ReceiptBlockUpdate`: `content` stands for the block, its receipts and its logs.
pub record Update : Type 0 where
  pub number : ℕ
  pub hash : Option ℕ
  pub parent_hash : Option ℕ
  pub content : ℕ

pub data ChainUpdate : Type 0 where
  apply : Update → ChainUpdate
  revert : ℕ → Update → ChainUpdate

pub record BlockHead : Type 0 where
  pub number : ℕ
  pub hash : Option ℕ

pub data Loaded : Type 0 where
  loaded : Update → Loaded
  load_failed : Loaded

-- `header` gives the canonical hash at a height; `none` is a failed request.
pub record Environment : Type 0 where
  pub heads : List BlockHead
  pub load : ℕ → Loaded
  pub header : ℕ → Option (Option ℕ)

pub record State : Type 0 where
  pub retained : List (ℕ × Update)
  pub ready : List (ℕ × Update)
  pub cursor : Option Update

pub data Outcome : Type 0 where
  emits : List ChainUpdate → Outcome
  fails interrupts : Outcome

abbrev pub same_hash : Option ℕ → Option ℕ → Bool
same_hash none none = true
same_hash (some a) (some b) = a == b
same_hash _ _ = false

abbrev pub is_null : Option ℕ → Bool
is_null none = true
is_null (some a) = false

-- The filter on the stream of heads.
abbrev pub is_news : Option Update → BlockHead → Bool
is_news none head = not (is_null head.hash)
is_news (some previous) head =
    not (is_null head.hash)
    && (ltb previous.number head.number
        || (head.number == previous.number && not (same_hash head.hash previous.hash)))

unfoldable pub first_news : Option Update → List BlockHead → Option BlockHead
first_news previous [] = none
first_news previous (head ∷ heads) =
    if is_news previous head then some head else first_news previous heads

unfoldable pub count_up : ℕ → ℕ → List ℕ
count_up from zero = []
count_up from (suc n) = from ∷ count_up (from + 1) n

-- The block numbers to load: up to eight after the cursor.
unfoldable pub wanted : Option Update → BlockHead → List ℕ
unfolding count_up
wanted none head = count_up head.number 1
wanted (some previous) head =
    let from = previous.number + 1 in
    let through = if ltb head.number (from + 7) then head.number else from + 7 in
    if head.number == previous.number then head.number ∷ [] else count_up from (through + 1 - from)

pub record Loads : Type 0 where
  pub ready : List (ℕ × Update)
  pub updates : Option (List Update)

abbrev add_update : Update → Option (List Update) → Option (List Update)
add_update value none = none
add_update value (some values) = some (value ∷ values)

-- `Effect.forEach(numbers, …, { concurrency: 8 })`: the numbers are distinct, so no load sees what
-- another puts into `ready`. Where one fails, the others may have come to an end or not: those that
-- have not are failed loads here.
unfoldable pub load_all : (ℕ → Loaded) → List ℕ → List (ℕ × Update) → Loads
load_all load [] ready = record { ready = ready; updates = some [] }
load_all load (number ∷ numbers) ready = elim (JsMap.get number ready) [
  | some cached ↦
      let rest = load_all load numbers ready in
      record rest { updates = add_update cached rest.updates }
  | none ↦ elim (load number) [
    | loaded value ↦
        let rest = load_all load numbers (JsMap.set number value ready) in
        record rest { updates = add_update value rest.updates }
    | load_failed ↦ let rest = load_all load numbers ready in record rest { updates = none }
  ]
]

abbrev pub is_same_block : Option Update → List Update → Bool
is_same_block (some previous) (value ∷ []) =
    value.number == previous.number && same_hash value.hash previous.hash
is_same_block _ _ = false

abbrev pub extends : Update → Update → Bool
extends parent value = value.number == parent.number + 1 && same_hash value.parent_hash parent.hash

-- The first update that does not extend the one before it.
unfoldable pub first_conflict : Option Update → List Update → Option Update
first_conflict parent [] = none
first_conflict none (value ∷ values) = first_conflict (some value) values
first_conflict (some parent) (value ∷ values) =
    if extends parent value then first_conflict (some value) values else some value

pub data Ancestor : Type 0 where
  found : ℕ → Update → Ancestor
  header_failed not_found : Ancestor

-- The loop over `[...retained].reverse()`.
unfoldable pub find_ancestor : (ℕ → Option (Option ℕ)) → List (ℕ × Update) → Ancestor
find_ancestor header [] = not_found
find_ancestor header ((number, old) ∷ rest) = elim (header number) [
  | none ↦ header_failed
  | some canonical ↦
      if same_hash canonical old.hash then found number old else find_ancestor header rest
]

-- `number === previous?.number && value.number > number`
abbrev is_stale_child : Option Update → ℕ → Update → Bool
is_stale_child none number value = false
is_stale_child (some previous) number value = number == previous.number && ltb number value.number

unfoldable pub resolve : State → List (ℕ × Update) → Update → Ancestor → State × Outcome
resolve state ready value header_failed = (record state { ready = ready }, fails)
resolve state ready value not_found = (record state { ready = [] }, fails)
resolve state ready value (found number old) =
    if is_stale_child state.cursor number value then (record state { ready = [] }, fails) else (
      record {
        retained = keep (λ e. leb e.0 number) state.retained;
        ready = [];
        cursor = some old;
      },
      emits (revert (number + 1) old ∷ []),
    )

-- `retained.set(value.number, value); ready.delete(value.number); cursor = value`
abbrev pub put_update : State → Update → State
put_update state value = record {
  retained = JsMap.set value.number value state.retained;
  ready = JsMap.delete value.number state.ready;
  cursor = some value;
}

unfoldable pub advance : State → List Update → State
advance state [] = state
advance state (value ∷ values) = advance (put_update state value) values

-- `while (retained.size > 128)`: the first key is deleted.
unfoldable pub trim : List (ℕ × Update) → List (ℕ × Update)
trim [] = []
trim (entry ∷ rest) =
    let shorter = trim rest in if ltb 128 (suc (length rest)) then shorter else entry ∷ rest

unfoldable pub settle : Environment → State → List (ℕ × Update) → List Update → State × Outcome
unfolding first_conflict find_ancestor resolve advance trim
settle environment state ready updates =
    if is_same_block state.cursor updates
    then (
      record state {
        ready = elim state.cursor [
          | none ↦ ready
          | some previous ↦ JsMap.delete previous.number ready
        ];
      },
      emits [],
    )
    else elim (first_conflict state.cursor updates) [
      | some value ↦
          resolve state ready value (find_ancestor environment.header (reverse state.retained))
      | none ↦
          let state' = advance (record state { ready = ready }) updates in
          (record state' { retained = trim state'.retained }, emits (map apply updates))
    ]

-- One round.
unfoldable pub acquire : Environment → State → State × Outcome
unfolding first_news wanted load_all settle
acquire environment state = elim (first_news state.cursor environment.heads) [
  | none ↦ (state, interrupts)
  | some head ↦
      let loads = load_all environment.load (wanted state.cursor head) state.ready in
      elim loads.updates [
        | none ↦ (record state { ready = loads.ready }, fails)
        | some updates ↦ settle environment state loads.ready updates
      ]
]

abbrev pub init : State
init = record { retained = []; ready = []; cursor = none }
