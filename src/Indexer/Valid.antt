-- ===== src/Indexer/Valid.antt =====
-- What `Indexer.make` accepts.
use ether_state.Prelude.{
  ℕ, ◌+◌, ◌≤◌, ◌≡◌, refl, Bool, true, false, not, ◌||◌, ◌↔◌, Option, List, [], ◌∷◌, map, ltb, ◌==◌,
  ==_iff, any, length, arith, IsDistinct, Bool-cases, inl, inr, or_default,
}
use ether_state.Prelude.Texts.{same_text, text_eq}
use ether_state.Prelude.Results.{ok, ◌>>◌, fail_if}
use ether_state.Indexer.Keys.{same_as, AllNew, AllNew-IsDistinct, IsDistinct-AllNew}
use ether_state.Indexer.{
  IndexDefinition, IndexerError, invalid_index_definition, empty_id, bad_version, bad_calls,
  bad_limits, is_empty, distinct_size, is_safe_integer, validate_definition, Indexer, make,
}

distinct_size_le : (seen keys : List (List ℕ)) → distinct_size seen keys ≤ length seen + length keys
unfolding distinct_size
distinct_size_le seen [] = omega arith
distinct_size_le seen (k ∷ keys) =
    ground (arith, distinct_size_le seen keys, distinct_size_le (k ∷ seen) keys)

distinct_size-AllNew :
    (seen keys : List (List ℕ))
    → distinct_size seen keys ≡ length seen + length keys
    → AllNew seen keys
unfolding distinct_size
distinct_size-AllNew seen [] h = tt
distinct_size-AllNew seen (k ∷ keys) h = elim (Bool-cases (any (same_text k) seen)) [
  | inl twice ↦ absurd (ground (arith, twice, h, distinct_size_le seen keys))
  | inr new ↦ (new, distinct_size-AllNew (k ∷ seen) keys (ground (arith, new, h)))
]

AllNew-size :
    (seen keys : List (List ℕ))
    → AllNew seen keys
    → distinct_size seen keys ≡ length seen + length keys
unfolding distinct_size
AllNew-size seen [] a = omega arith
AllNew-size seen (k ∷ keys) a = ground (arith, a.0, AllNew-size (k ∷ seen) keys a.1)

abbrev pub max_safe : ℕ
max_safe = 9007199254740991

abbrev pub call_keys : IndexDefinition → List (List ℕ)
call_keys index = map (λ call. call.key) index.source.calls

-- An index that can be followed, within limits.
pub record IsValid (index : IndexDefinition) (depth concurrency : ℕ) : Type 0 where
  pub id : is_empty index.id ≡ false
  pub version : (1 ≤ index.version) × (index.version ≤ max_safe)
  pub calls : (any is_empty (call_keys index) ≡ false) × IsDistinct same_as (call_keys index)
  pub depth_bounds : (1 ≤ depth) × (depth ≤ max_safe)
  pub concurrency_bounds : (1 ≤ concurrency) × (concurrency ≤ max_safe)

checks_passed :
    {A : Type 0} (a b c d : Bool) (e f g i : IndexerError) (x y : A)
    → ((fail_if a e >> (fail_if b f >> (fail_if c g >> ok tt))) >> (fail_if d i >> ok x)) ≡ ok y
    → (a ≡ false) × (b ≡ false) × (c ≡ false) × (d ≡ false)
checks_passed true b c d e f g i x y h = absurd (cc h)
checks_passed false true c d e f g i x y h = absurd (cc h)
checks_passed false false true d e f g i x y h = absurd (cc h)
checks_passed false false false true e f g i x y h = absurd (cc h)
checks_passed false false false false e f g i x y h = (refl, refl, refl, refl)

-- `Indexer.make` accepts an index exactly when its id is not empty, its version and the limits, where
-- they are left out 128 and 4, are positive safe integers, and its calls have keys that are not
-- empty and of which no two are the same.
pub make_iff :
    (index : IndexDefinition) (reorg_depth bootstrap_concurrency : Option ℕ)
    → let depth = or_default 128 reorg_depth in
      let concurrency = or_default 4 bootstrap_concurrency in
      (make index reorg_depth bootstrap_concurrency
        ≡ ok (record { index = index; reorg_depth = depth; bootstrap_concurrency = concurrency }))
      ↔ IsValid index depth concurrency
unfolding make validate_definition
make_iff index reorg_depth bootstrap_concurrency = (accepted, accepts)
  where
    depth : ℕ
    depth = or_default 128 reorg_depth

    concurrency : ℕ
    concurrency = or_default 4 bootstrap_concurrency

    made : Indexer
    made = record { index = index; reorg_depth = depth; bootstrap_concurrency = concurrency }

    keys : List (List ℕ)
    keys = call_keys index

    bad_keys : Bool
    bad_keys = any is_empty keys || not (distinct_size [] keys == length keys)

    over_limits : Bool
    over_limits =
        not (is_safe_integer concurrency)
        || ltb concurrency 1
        || not (is_safe_integer depth)
        || ltb depth 1

    bad_number : Bool
    bad_number = not (is_safe_integer index.version) || ltb index.version 1

    accepted :
        make index reorg_depth bootstrap_concurrency ≡ ok made → IsValid index depth concurrency
    accepted h =
        let c =
          checks_passed (is_empty index.id) bad_number bad_keys over_limits
            (invalid_index_definition empty_id) (invalid_index_definition bad_version)
            (invalid_index_definition bad_calls) (invalid_index_definition bad_limits) made made
            h in
        record {
          id = c.0;
          version = (ground (arith, c.1), ground (arith, c.1));
          calls = (
            ground (arith, c.2),
            AllNew-IsDistinct [] keys (
                distinct_size-AllNew [] keys
                  (ground (arith, c.2, ==_iff (distinct_size [] keys) (length keys)))),
          );
          depth_bounds = (ground (arith, c.3), ground (arith, c.3));
          concurrency_bounds = (ground (arith, c.3), ground (arith, c.3));
        }

    accepts :
        IsValid index depth concurrency → make index reorg_depth bootstrap_concurrency ≡ ok made
    accepts v =
        let number : bad_number ≡ false = ground (arith, v.version.0, v.version.1) in
        let all_new = AllNew-size [] keys (IsDistinct-AllNew keys v.calls.1) in
        let calls : bad_keys ≡ false =
          ground (arith, v.calls.0, all_new, ==_iff (distinct_size [] keys) (length keys)) in
        let limits : over_limits ≡ false = ground (
          arith, v.depth_bounds.0, v.depth_bounds.1, v.concurrency_bounds.0, v.concurrency_bounds.1,
        ) in
        rw (v.id, number, calls, limits, make, validate_definition)
