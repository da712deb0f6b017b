-- ===== src/Tests/MulticallTests.antt =====
-- Two calls that are read together, and a repeat, in the block 9. The texts are named by numbers.
use ether_state.Prelude.{
  ℕ, ◌≡◌, ◌⊎◌, refl, ap, true, false, Option, none, some, List, [], ◌∷◌, ◌++◌, map, length, ◌==◌,
  if◌then◌else◌, arith,
}
use ether_state.Prelude.Results.{Result, ok, err}
use ether_state.Rpc.{RpcTransactionRequest}
use ether_state.Rpc.Errors.{ClientError, contract_reverted}
use ether_state.Multicall.Abi.{
  repeat, word, hex_digits, hex_value, hex, pairs, bytes_of, encode_bytes, encode_address,
  encode_call, encode_calls, offsets_from, encode_aggregate3, read_word, read_bytes, read_result,
  read_results, decode_aggregate3, no_bytes,
}
use ether_state.Multicall.Abi.Words.{word_lem}
use ether_state.Multicall.{
  Reads, exits, Provider, answered, no_request, places, is_of_block, singles, recover_group,
  read_group, run_unique, run,
}
use ether_state.Multicall.Shared.{run_lem}
use ether_state.Multicall.Verified.{FromContract, run_unique_lem}

-- Two results and the block's number, as the contract returns them.
abbrev returned : List ℕ
returned =
    (48 ∷ 120 ∷ [])
    ++ (repeat 62 48
        ++ ((50 ∷ [])
            ++ (repeat 64 48
                ++ ((51 ∷ [])
                    ++ (repeat 62 48
                        ++ ((54 ∷ [])
                            ++ (repeat 63 48
                                ++ ((101 ∷ [])
                                    ++ (repeat 62 48
                                        ++ ((49 ∷ 52 ∷ [])
                                            ++ (repeat 64 48
                                                ++ ((49 ∷ [])
                                                    ++ (repeat 62 48
                                                        ++ ((52 ∷ [])
                                                            ++ (repeat 64 48
                                                            ++ ((50 ∷ 48 ∷ 49 ∷ 48 ∷ 50 ∷ [])
                                                            ++ (repeat 186 48
                                                            ++ ((52 ∷ [])
                                                            ++ (repeat 128 48
                                                            ++ ((49 ∷ [])
                                                            ++ (repeat 62 48
                                                            ++ ((52 ∷ [])
                                                            ++ (repeat 63 48
                                                            ++ ((50 ∷ [])
                                                            ++ (repeat 64 48
                                                            ++ ((57 ∷ [])))))))))))))))))))))))))))

-- "0x" and 40 digits
abbrev contract : List ℕ
contract = 48 ∷ 120 ∷ repeat 40 49

abbrev selector : List ℕ
selector = 48 ∷ 120 ∷ 97 ∷ 98 ∷ 99 ∷ 100 ∷ []

-- "0x0102"
abbrev output : List ℕ
output = 48 ∷ 120 ∷ 48 ∷ 49 ∷ 48 ∷ 50 ∷ []

abbrev text_of : ℕ → List ℕ
text_of n =
    if n == 0
    then no_bytes
    else if n == 1
    then contract
    else if n == 2
    then selector
    else if n == 3
    then returned
    else output

-- The names that are met: of the bytes returned, by their length.
abbrev named : List ℕ → ℕ
named t = if length t == 2 then 0 else if length t == 6 then 4 else 5

abbrev or_zero : Option ℕ → ℕ
or_zero none = 0
or_zero (some n) = n

abbrev key_of : RpcTransactionRequest → List ℕ
key_of call = or_zero call.bytes ∷ []

abbrev first : RpcTransactionRequest
first = record no_request { to = some (some 1); bytes = some 2 }

abbrev second : RpcTransactionRequest
second = record no_request { to = some (some 1); bytes = some 0 }

abbrev answer_to : RpcTransactionRequest → Result ClientError ℕ
answer_to call =
    if or_zero call.bytes == 5
    then ok 3
    else if or_zero call.bytes == 2
    then ok 4
    else err (contract_reverted 0)

-- The answer by the key of a call.
abbrev by_key : List ℕ → Result ClientError ℕ
by_key [] = ok 0
by_key (n ∷ rest) = if n == 5 then ok 3 else if n == 2 then ok 4 else err (contract_reverted 0)

abbrev provider : Provider
provider = record { fetch = answer_to; code = ok 2 }

abbrev new_reads : Reads
new_reads = record { verified = true; batches = 0; calls = 0; singles = 0; fallbacks = 0 }

abbrev results : List (Result ClientError ℕ)
results = ok 4 ∷ err (contract_reverted 0) ∷ []

reads_together :
    run_unique text_of named key_of
      (λ message. false)
      (λ t. t)
      0
      1
      provider
      9
      (first ∷ second ∷ [])
      new_reads
    ≡ (answered results, record new_reads { batches = 1; calls = 2 })
unfolding run_unique read_group recover_group singles is_of_block encode_aggregate3 encode_calls
    encode_call encode_address encode_bytes hex word hex_digits offsets_from decode_aggregate3
    bytes_of pairs read_results read_result read_word read_bytes
reads_together = refl

run_unique_lem_example :
    (results ≡ map provider.fetch (first ∷ second ∷ []))
    ⊎ FromContract text_of named key_of
        (λ message. false)
        (λ t. t)
        0
        1
        provider
        9
        (first ∷ second ∷ [])
        results
run_unique_lem_example =
    run_unique_lem text_of named key_of (λ message. false) (λ t. t) 0 1 provider 9
      (first ∷ second ∷ []) new_reads results (ap (λ p. p.0) reads_together)

without_repeats : (places key_of [] [] (first ∷ second ∷ first ∷ [])).1 ≡ first ∷ second ∷ []
unfolding places
without_repeats = refl

group_answers :
    (run_unique text_of named key_of
      (λ message. false)
      (λ t. t)
      0
      1
      provider
      9
      (places key_of [] [] (first ∷ second ∷ first ∷ [])).1
      new_reads).0
    ≡ answered (map answer_to (places key_of [] [] (first ∷ second ∷ first ∷ [])).1)
group_answers = rw without_repeats (ap (λ p. p.0) reads_together)

run_lem_example :
    (run text_of named key_of
      (λ message. false)
      (λ t. t)
      0
      1
      provider
      9
      (first ∷ second ∷ first ∷ [])
      new_reads).0
    ≡ ok (exits (ok 4) ∷ exits (err (contract_reverted 0)) ∷ exits (ok 4) ∷ [])
run_lem_example =
    run_lem text_of named key_of (λ message. false) (λ t. t) 0 1 provider 9
      (first ∷ second ∷ first ∷ []) new_reads answer_to (λ a b e. ap (λ k. by_key k) e)
      group_answers

word_lem_example : (t : List ℕ) × (word 258 ≡ ok t) × (length t ≡ 64) × (hex_value 0 t ≡ 258)
word_lem_example = word_lem 258 (omega arith)
