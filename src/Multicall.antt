-- ===== src/Multicall.antt =====
-- src/rpc/multicall.ts: calls that are read together through the contract Multicall3. Abi has the
-- encoding of the calls and the decoding of their results. The texts of a transaction are named by
-- numbers, of which `text_of` and `named` give and find the text.
pub mod Abi
pub mod Shared
pub mod Verified
use ether_state.Prelude.{
  ℕ, ◌+◌, ◌-◌, Bool, true, false, not, ◌&&◌, ◌||◌, Option, none, some, List, [], ◌∷◌, ◌++◌, map,
  ◌==◌, if◌then◌else◌, length, take, drop, get_elem?,
}
use ether_state.Prelude.JsMap
use ether_state.Prelude.Texts.{same_text, text_eq}
use ether_state.Prelude.Results.{Result, ok, err}
use ether_state.Rpc.{RpcTransactionRequest, pos, is_code}
use ether_state.Rpc.Errors.{
  ClientError, rpc_error, schema_error, contract_reverted, invalid_multicall, Patterns,
}
use ether_state.Multicall.Abi.{
  AggregateCall, encode_aggregate3, decode_aggregate3, multicall_address, block_number_selector,
  is_word, hex_value, no_bytes,
}

-- The fields of `MulticallReads` that change, without the queues.
pub record Reads : Type 0 where
  pub verified : Bool
  pub batches : ℕ
  pub calls : ℕ
  pub singles : ℕ
  pub fallbacks : ℕ

-- `Exit`: `died` is the one for a result that is missing.
pub data Exit : Type 0 where
  exits : Result ClientError ℕ → Exit
  died : Exit

-- What the provider answers for the block of the reads.
pub record Provider : Type 0 where
  pub fetch : RpcTransactionRequest → Result ClientError ℕ
  pub code : Result ClientError ℕ

-- How a group of calls ends. A text that the encoder does not take is a defect.
pub data GroupEnd : Type 0 where
  answered : List (Result ClientError ℕ) → GroupEnd
  group_failed : ClientError → GroupEnd
  defect : GroupEnd

abbrev pub text_or_empty : Option (Option (List ℕ)) → List ℕ
text_or_empty (some (some t)) = t
text_or_empty _ = []

-- `transaction.to === "string"`
abbrev pub is_text : Option (Option ℕ) → Bool
is_text (some (some t)) = true
is_text _ = false

abbrev pub is_given {ℓ} : {A : Type ℓ} → Option A → Bool
is_given none = false
is_given (some a) = true

-- `Object.keys(transaction).some((key) => key !== "to" && key !== "data" && key !== "input")`
abbrev pub has_other_keys : RpcTransactionRequest → Bool
has_other_keys tx =
    is_given tx.transaction_type
    || is_given tx.nonce
    || is_given tx.from
    || is_given tx.gas
    || is_given tx.value
    || is_given tx.gas_price
    || is_given tx.max_priority_fee_per_gas
    || is_given tx.max_fee_per_gas
    || is_given tx.max_fee_per_blob_gas
    || is_given tx.chain_id
    || is_given tx.access_list
    || is_given tx.blob_versioned_hashes
    || is_given tx.authorization_list

-- The loop of `run` over the calls: for each the place of its answer, and the calls without repeats.
module _ (key_of : RpcTransactionRequest → List ℕ) where
  unfoldable pub places :
      List (List ℕ × ℕ)
      → List RpcTransactionRequest
      → List RpcTransactionRequest
      → List ℕ × List RpcTransactionRequest
  places positions unique [] = ([], unique)
  places positions unique (call ∷ calls) =
      let old : List ℕ × List RpcTransactionRequest = places positions unique calls in
      let new : List ℕ × List RpcTransactionRequest =
        places (JsMap.set (key_of call) (length unique) positions) (unique ++ call ∷ []) calls in
      elim (JsMap.get (key_of call) positions) [
        | some index ↦ (index ∷ old.0, old.1)
        | none ↦ (length unique ∷ new.0, new.1)
      ]

abbrev pub exit_at : List (Result ClientError ℕ) → ℕ → Exit
exit_at results index = elim (get_elem? results index) [ some result ↦ exits result | none ↦ died ]

-- `Effect.catch` of `runUnique`: after which failures the calls are made one by one.
abbrev pub falls_back : (ℕ → Bool) → ClientError → Bool
falls_back execution_reverted (invalid_multicall message) = true
falls_back execution_reverted (schema_error message) = true
falls_back execution_reverted (rpc_error code message) =
    is_code code (pos 3) || execution_reverted message
falls_back execution_reverted _ = false

abbrev pub no_request : RpcTransactionRequest
no_request = record {
  transaction_type = none;
  nonce = none;
  to = none;
  from = none;
  gas = none;
  value = none;
  input = none;
  bytes = none;
  gas_price = none;
  max_priority_fee_per_gas = none;
  max_fee_per_gas = none;
  max_fee_per_blob_gas = none;
  chain_id = none;
  access_list = none;
  blob_versioned_hashes = none;
  authorization_list = none;
}

-- `to_lower_case` is that of texts, and `messages` those of the two failures that `runUnique` makes.
module _ (text_of : ℕ → List ℕ) (named : List ℕ → ℕ) (key_of : RpcTransactionRequest → List ℕ)
    (execution_reverted : ℕ → Bool) (to_lower_case : List ℕ → List ℕ)
    (invalid_data unverified : ℕ) where
  abbrev pub target_of : RpcTransactionRequest → List ℕ
  target_of call = elim call.to [ some (some t) ↦ text_of t | some none ↦ [] | none ↦ [] ]

  -- `call.data ?? call.input ?? "0x"`
  abbrev pub data_of : RpcTransactionRequest → List ℕ
  data_of call = elim call.bytes [
    | some t ↦ text_of t
    | none ↦ elim call.input [ some t ↦ text_of t | none ↦ no_bytes ]
  ]

  -- Whether `request` makes the call at once instead of putting it into a group.
  unfoldable pub is_single : Reads → Bool → RpcTransactionRequest → Bool
  is_single reads multicall tx =
      not reads.verified
      || not multicall
      || not (is_text tx.to)
      || same_text (to_lower_case (target_of tx)) (to_lower_case multicall_address)
      || has_other_keys tx

  -- The weight of a call in its queue: `Math.max(0, (data.length - 2) / 2)`, doubled.
  abbrev pub weight : RpcTransactionRequest → ℕ
  weight call = length (data_of call) - 2

  unfoldable pub singles : Provider → List RpcTransactionRequest → Reads → GroupEnd × Reads
  singles provider calls reads =
      (answered (map provider.fetch calls), record reads { singles = reads.singles + length calls })

  unfoldable pub recover_group :
      Provider → List RpcTransactionRequest → Reads → ClientError → GroupEnd × Reads
  unfolding singles
  recover_group provider calls reads error =
      if falls_back execution_reverted error
      then singles provider calls (record reads { fallbacks = reads.fallbacks + 1 })
      else (group_failed error, reads)

  abbrev pub aggregate_call : RpcTransactionRequest → AggregateCall
  aggregate_call call = record {
    target = target_of call;
    allow_failure = true;
    call_data = data_of call;
  }

  abbrev pub result_of : Bool × List ℕ → Result ClientError ℕ
  result_of (success, text) =
      if success then ok (named text) else err (contract_reverted (named text))

  -- The last result is the number of the block that the calls were made in.
  unfoldable pub is_of_block : ℕ → ℕ → List (Bool × List ℕ) → Bool
  is_of_block count number results =
      (length results == count + 1) && (elim (get_elem? results count) [
        | none ↦ false
        | some (success, text) ↦ success && is_word text && (hex_value 0 (drop 2 text) == number)
      ])

  -- From the answer of the contract on.
  unfoldable pub read_group :
      Provider → ℕ → List RpcTransactionRequest → Reads → ℕ → GroupEnd × Reads
  unfolding recover_group is_of_block decode_aggregate3
  read_group provider number calls reads raw = elim (decode_aggregate3 (text_of raw)) [
    | err e ↦ recover_group provider calls reads (invalid_multicall invalid_data)
    | ok results ↦
        if is_of_block (length calls) number results
        then (answered (map result_of (take (length calls) results)), reads)
        else recover_group provider calls (record reads { verified = false })
            (invalid_multicall unverified)
  ]

  unfoldable pub run_unique : Provider → ℕ → List RpcTransactionRequest → Reads → GroupEnd × Reads
  unfolding singles recover_group read_group encode_aggregate3
  run_unique provider number calls reads =
      let number_call : AggregateCall = record {
        target = multicall_address;
        allow_failure = false;
        call_data = block_number_selector;
      } in
      let sent : Reads = record reads {
        batches = reads.batches + 1;
        calls = reads.calls + length calls;
      } in
      let grouped : GroupEnd × Reads = elim provider.code [
        | err e ↦ recover_group provider calls reads e
        | ok code ↦
            if same_text (text_of code) no_bytes
            then singles provider calls (record reads { fallbacks = reads.fallbacks + 1 })
            else elim (encode_aggregate3 (map aggregate_call calls ++ number_call ∷ [])) [
              | err e ↦ (defect, sent)
              | ok bytes ↦
                  elim (provider.fetch (record no_request {
                    to = some (some (named multicall_address));
                    bytes = some (named bytes);
                  })) [
                    | err e ↦ recover_group provider calls sent e
                    | ok raw ↦ read_group provider number calls sent raw
                  ]
            ]
      ] in
      if length calls == 1 then singles provider calls reads else grouped

  -- How `run` ends: the answers in the order of the calls.
  abbrev pub spread : List ℕ → GroupEnd → Result GroupEnd (List Exit)
  spread indexes (answered results) = ok (map (exit_at results) indexes)
  spread indexes end = err end

  unfoldable pub run :
      Provider → ℕ → List RpcTransactionRequest → Reads → Result GroupEnd (List Exit) × Reads
  unfolding places run_unique
  run provider number calls reads =
      let (indexes, unique) = places key_of [] [] calls in
      let (end, reads') = run_unique provider number unique reads in (spread indexes end, reads')
