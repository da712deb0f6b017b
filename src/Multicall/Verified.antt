-- ===== src/Multicall/Verified.antt =====
-- Where the answers of a group come from.
use ether_state.Prelude.{
  ℕ, ◌+◌, ◌≡◌, sym, Bool, true, false, ◌⊎◌, inl, inr, some, List, [], ◌∷◌, ◌++◌, map, length, take,
  all, get_elem?, Option, none, refl, ap, ◌∙◌, arith, ◌==◌, Bool-cases,
}
use ether_state.Prelude.Texts.{same_text}
use ether_state.Prelude.Results.{Result, ok, Result-cases}
use ether_state.Rpc.{RpcTransactionRequest}
use ether_state.Rpc.Errors.{ClientError, invalid_multicall}
use ether_state.Multicall.Abi.{
  AggregateCall, encode_aggregate3, decode_aggregate3, multicall_address, block_number_selector,
  no_bytes, is_word, is_hex, hex_value,
}
use ether_state.Multicall.{
  Reads, Provider, GroupEnd, answered, falls_back, no_request, aggregate_call, result_of,
  is_of_block, singles, recover_group, read_group, run_unique,
}

answered_eq :
    {a b : List (Result ClientError ℕ)} → ◌≡◌ {A = GroupEnd} (answered a) (answered b) → a ≡ b
answered_eq e = cc e

-- After so many results comes one more, the last: a call that succeeded with a text of "0x" and 64
-- hexadecimal digits, whose value is the number.
pub record EndsWithNumber (count number : ℕ) (results : List (Bool × List ℕ)) : Type 0 where
  pub counted : length results ≡ count + 1
  pub x : ℕ
  pub digits : List ℕ
  pub last : get_elem? results count ≡ some (true, 48 ∷ x ∷ digits)
  pub prefix : (x ≡ 120) ⊎ (x ≡ 88)
  pub long : length digits ≡ 64
  pub hexadecimal : all is_hex digits ≡ true
  pub value : hex_value 0 digits ≡ number

-- What a text of a word is.
is_word-digits :
    (t : List ℕ)
    → is_word t ≡ true
    → (x : ℕ) × (digits : List ℕ) × (t ≡ 48 ∷ x ∷ digits)
      × ((x ≡ 120) ⊎ (x ≡ 88))
      × (length digits ≡ 64)
      × (all is_hex digits ≡ true)
is_word-digits [] h = absurd (cc h)
is_word-digits (c ∷ []) h = absurd (cc h)
is_word-digits (c ∷ x ∷ digits) h =
    let zero_char : c ≡ 48 = ground (arith, h) in
    (
      x,
      digits,
      ap (λ d. d ∷ x ∷ digits) zero_char,
      ground (arith, h),
      ground (arith, h),
      ground (arith, h),
    )

module _ (text_of : ℕ → List ℕ) (named : List ℕ → ℕ) (key_of : RpcTransactionRequest → List ℕ)
    (execution_reverted : ℕ → Bool) (to_lower_case : List ℕ → List ℕ)
    (invalid_data unverified : ℕ) where
  -- Answers of the contract: those to the calls, with the number of the block they were made in.
  pub record FromContract (provider : Provider) (number : ℕ) (calls : List RpcTransactionRequest)
      (results : List (Result ClientError ℕ)) : Type 0 where
    pub bytes : List ℕ
    pub raw : ℕ
    pub decoded : List (Bool × List ℕ)
    pub encoded :
        encode_aggregate3 (
          map
            (aggregate_call text_of named key_of execution_reverted to_lower_case invalid_data
              unverified)
            calls
          ++ (record {
            target = multicall_address;
            allow_failure = false;
            call_data = block_number_selector;
          })
            ∷ [])
        ≡ ok bytes
    pub asked :
        provider.fetch (record no_request {
          to = some (some (named multicall_address));
          bytes = some (named bytes);
        })
        ≡ ok raw
    pub read : decode_aggregate3 (text_of raw) ≡ ok decoded
    pub verified : EndsWithNumber (length calls) number decoded
    pub same :
        results
        ≡ map
            (result_of text_of named key_of execution_reverted to_lower_case invalid_data
              unverified)
            (take (length calls) decoded)

  is_of_block-EndsWithNumber :
      (count number : ℕ) (results : List (Bool × List ℕ))
      → is_of_block text_of named key_of execution_reverted to_lower_case invalid_data unverified
          count number results
        ≡ true
      → EndsWithNumber count number results
  unfolding is_of_block
  is_of_block-EndsWithNumber count number results h = go (get_elem? results count) refl
    where
      go :
          (o : Option (Bool × List ℕ))
          → get_elem? results count ≡ o
          → EndsWithNumber count number results
      go none e = absurd (ground (arith, h, e))
      go (some (success, text)) e =
          let h' = rw (e, is_of_block) at h in
          let (x, digits, spelled, prefix, long, hexadecimal) =
            is_word-digits text (ground (arith, h')) in
          record {
            counted = ground (arith, h');
            x = x;
            digits = digits;
            last =
                e
                ∙ ap (λ s. some (s, text)) (ground (arith, h'))
                ∙ ap (λ u. some (true, u)) spelled;
            prefix = prefix;
            long = long;
            hexadecimal = hexadecimal;
            value = ground (arith, rw spelled at h');
          }

  singles-answered :
      (provider : Provider) (calls : List RpcTransactionRequest) (reads : Reads)
      (results : List (Result ClientError ℕ))
      → (singles text_of named key_of execution_reverted to_lower_case invalid_data unverified
          provider calls reads).0
        ≡ answered results
      → results ≡ map provider.fetch calls
  unfolding singles
  singles-answered provider calls reads results h = sym (answered_eq h)

  recover_group-answered :
      (provider : Provider) (calls : List RpcTransactionRequest) (reads : Reads)
      (error : ClientError) (results : List (Result ClientError ℕ))
      → (recover_group text_of named key_of execution_reverted to_lower_case invalid_data unverified
          provider calls reads error).0
        ≡ answered results
      → results ≡ map provider.fetch calls
  unfolding recover_group
  recover_group-answered provider calls reads error results h =
      elim (Bool-cases (falls_back execution_reverted error)) [
        | inl yes_back ↦
            singles-answered provider calls (record reads { fallbacks = reads.fallbacks + 1 })
              results (rw (yes_back, recover_group) at h)
        | inr fails ↦ absurd (cc (rw (fails, recover_group) at h))
      ]

  -- Where a group of calls is answered, each call was made by itself, or the answers are those that
  -- the contract gave to these calls in order, decoded from one text. In that text one more result
  -- follows, and no other: it is of a call that succeeded, and is a word whose value is the number of
  -- the block that was asked for.
  pub run_unique_lem :
      (provider : Provider) (number : ℕ) (calls : List RpcTransactionRequest) (reads : Reads)
      (results : List (Result ClientError ℕ))
      → (run_unique text_of named key_of execution_reverted to_lower_case invalid_data unverified
          provider number calls reads).0
        ≡ answered results
      → (results ≡ map provider.fetch calls) ⊎ FromContract provider number calls results
  unfolding run_unique read_group
  run_unique_lem provider number calls reads results h =
      let number_call : AggregateCall = record {
        target = multicall_address;
        allow_failure = false;
        call_data = block_number_selector;
      } in
      let sent : Reads = record reads {
        batches = reads.batches + 1;
        calls = reads.calls + length calls;
      } in
      let encoder : List AggregateCall =
        map
          (aggregate_call text_of named key_of execution_reverted to_lower_case invalid_data
            unverified)
          calls
        ++ number_call ∷ [] in
      elim (Bool-cases (length calls == 1)) [
        | inl one ↦ inl (singles-answered provider calls reads results (rw (one, run_unique) at h))
        | inr several ↦ elim (Result-cases provider.code) [
          | inl (e, failed) ↦ inl (
              recover_group-answered provider calls reads e results
                (rw (several, failed, run_unique) at h))
          | inr (code, coded) ↦ elim (Bool-cases (same_text (text_of code) no_bytes)) [
            | inl missing ↦ inl (
                singles-answered provider calls (record reads { fallbacks = reads.fallbacks + 1 })
                  results (rw (several, coded, missing, run_unique) at h))
            | inr there ↦ elim (Result-cases (encode_aggregate3 encoder)) [
              | inl (e, failed) ↦ absurd (cc (rw (several, coded, there, failed, run_unique) at h))
              | inr (bytes, encodes) ↦
                  elim (Result-cases (
                    provider.fetch (record no_request {
                      to = some (some (named multicall_address));
                      bytes = some (named bytes);
                    }))) [
                      | inl (e, failed) ↦ inl (
                          recover_group-answered provider calls sent e results
                            (rw (several, coded, there, encodes, failed, run_unique) at h))
                      | inr (raw, asks) ↦
                          let h' = rw (several, coded, there, encodes, asks, run_unique) at h in
                          elim (Result-cases (decode_aggregate3 (text_of raw))) [
                            | inl (e, failed) ↦ inl (
                                recover_group-answered provider calls sent
                                  (invalid_multicall invalid_data) results
                                  (rw (failed, read_group) at h'))
                            | inr (decoded, reads_as) ↦
                                elim (Bool-cases (
                                  is_of_block text_of named key_of execution_reverted to_lower_case
                                    invalid_data unverified (length calls) number decoded)) [
                                      | inl right ↦ inr (record {
                                        bytes = bytes;
                                        raw = raw;
                                        decoded = decoded;
                                        encoded = encodes;
                                        asked = asks;
                                        read = reads_as;
                                        verified =
                                            is_of_block-EndsWithNumber (length calls) number decoded
                                              right;
                                        same =
                                            sym (
                                              answered_eq (rw (reads_as, right, read_group) at h'));
                                      })
                                      | inr wrong ↦ inl (
                                          recover_group-answered provider calls
                                            (record sent { verified = false })
                                            (invalid_multicall unverified) results
                                            (rw (reads_as, wrong, read_group) at h'))
                                    ]
                          ]
                    ]
            ]
          ]
        ]
      ]
