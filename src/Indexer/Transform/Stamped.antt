-- ===== src/Indexer/Transform/Stamped.antt =====
-- What `transformBlock` returns: rows of one block, with different keys.
use ether_state.Prelude.{
  ℕ, ◌≡◌, refl, ap, subst, ◌∙◌, Bool, true, ◌||◌, some, List, [], ◌∷◌, map, ◌==◌, ==_iff, any, all,
  Bool-cases, inl, inr, arith, IsDistinct,
}
use ether_state.Prelude.Texts.{same_text, text_eq}
use ether_state.Prelude.Results.{Result, ok, Result-cases}
use ether_state.Rpc.{RpcBlock}
use ether_state.Indexer.{IndexValue, IndexRow, IndexDefinition, IndexerError}
use ether_state.Indexer.Keys.{same_as, AllNew, AllNew-IsDistinct}
use ether_state.Indexer.Bundle.{Client, fetch_bundle}
use ether_state.Indexer.Bundle.Consistent.{IsConsistent, fetch_bundle_lem}
use ether_state.Indexer.Transform.{encode_rows, Transformed, transform_block}

-- A row of the block, for the value that it stands in place of.
pub record Encodes (index : IndexDefinition) (block : RpcBlock) (v : IndexValue) (row : IndexRow)
    : Type 0 where
  pub key : row.key ≡ v.key
  pub value : index.encode v.value ≡ ok row.value
  pub block_number : row.block_number ≡ block.number
  pub block_hash : row.block_hash ≡ block.hash
  pub block_timestamp : row.block_timestamp ≡ block.timestamp

-- One row for each value, in order.
pub data AllEncoded (index : IndexDefinition) (block : RpcBlock)
    : List IndexValue → List IndexRow → Type 0 where
  none_encoded : AllEncoded index block [] []
  encoded :
      (v : IndexValue) (values : List IndexValue) (row : IndexRow) (rows : List IndexRow)
      → Encodes index block v row
      → AllEncoded index block values rows
      → AllEncoded index block (v ∷ values) (row ∷ rows)

encode_rows-AllEncoded :
    (index : IndexDefinition) (block : RpcBlock) (seen : List (List ℕ)) (values : List IndexValue)
    (rows : List IndexRow)
    → encode_rows index block seen values ≡ ok rows
    → AllEncoded index block values rows × AllNew seen (map (λ v. v.key) values)
unfolding encode_rows
encode_rows-AllEncoded index block seen [] rows h =
    (subst (AllEncoded index block []) (same_rows h) none_encoded, tt)
  where
    same_rows :
        {a b : List IndexRow} → ◌≡◌ {A = Result IndexerError (List IndexRow)} (ok a) (ok b) → a ≡ b
    same_rows e = cc e
encode_rows-AllEncoded index block seen (v ∷ values) rows h =
    elim (Bool-cases (any (same_text v.key) seen)) [
      | inl twice ↦ absurd (cc (rw (twice, encode_rows) at h))
      | inr new ↦ elim (Result-cases (index.encode v.value)) [
        | inl (e, failed) ↦ absurd (cc (rw (new, failed, encode_rows) at h))
        | inr (value, done) ↦ elim (Result-cases (encode_rows index block (v.key ∷ seen) values)) [
          | inl (e, failed) ↦ absurd (cc (rw (new, done, failed, encode_rows) at h))
          | inr (rest, more) ↦
              let step = encode_rows-AllEncoded index block (v.key ∷ seen) values rest more in
              (
                subst (AllEncoded index block (v ∷ values))
                    (same_rows (rw (new, done, more, encode_rows) at h))
                    (encoded v values
                      (record {
                        key = v.key;
                        value = value;
                        block_number = block.number;
                        block_hash = block.hash;
                        block_timestamp = block.timestamp;
                      })
                      rest
                      (record {
                        key = refl;
                        value = done;
                        block_number = refl;
                        block_hash = refl;
                        block_timestamp = refl;
                      })
                      step.0),
                (new, step.1),
              )
        ]
      ]
    ]
  where
    same_rows :
        {a b : List IndexRow} → ◌≡◌ {A = Result IndexerError (List IndexRow)} (ok a) (ok b) → a ≡ b
    same_rows e = cc e

pub record IsTransformed (client : Client) (index : IndexDefinition) (number : ℕ) (t : Transformed)
    : Type 0 where
  pub block : RpcBlock
  pub answered :
      client.by_number number (index.source.transactions || index.source.receipts) ≡ ok (some block)
  pub consistent : IsConsistent index block t.bundle
  pub values : List IndexValue
  pub transformed : index.transform t.bundle ≡ ok values
  pub rows : AllEncoded index t.bundle.block values t.rows
  pub distinct : IsDistinct same_as (map (λ v. v.key) values)

module _ (to_lower_case : ℕ → ℕ) (chain_id : ℕ) where
  -- A block that `transformBlock` returns is the one that the provider gave for the number, and its
  -- bundle is consistent. There is one row for each value of `transform`, in order, with the
  -- encoded value and the number, hash and timestamp of the block, and no two have the same key.
  pub transform_block_lem :
      (client : Client) (index : IndexDefinition) (number : ℕ) (t : Transformed)
      → transform_block to_lower_case chain_id client index number ≡ ok t
      → IsTransformed client index number t
  unfolding transform_block
  transform_block_lem client index number t h =
      elim (Result-cases (fetch_bundle to_lower_case client index number)) [
        | inl (e, failed) ↦ absurd (cc (rw (failed, transform_block) at h))
        | inr (bundle, got) ↦ elim (Result-cases (index.transform bundle)) [
          | inl (e, failed) ↦ absurd (cc (rw (got, failed, transform_block) at h))
          | inr (values, done) ↦ elim (Result-cases (encode_rows index bundle.block [] values)) [
            | inl (e, failed) ↦ absurd (cc (rw (got, done, failed, transform_block) at h))
            | inr (rows, coded) ↦
                let read = fetch_bundle_lem to_lower_case client index number bundle got in
                let parts = encode_rows-AllEncoded index bundle.block [] values rows coded in
                subst (IsTransformed client index number)
                  (same (rw (got, done, coded, transform_block) at h))
                  (record {
                    block = read.0;
                    answered = read.1;
                    consistent = read.2;
                    values = values;
                    transformed = done;
                    rows = parts.0;
                    distinct = AllNew-IsDistinct [] (map (λ v. v.key) values) parts.1;
                  })
          ]
        ]
      ]
    where
      same : {a b : Transformed} → ◌≡◌ {A = Result IndexerError Transformed} (ok a) (ok b) → a ≡ b
      same e = cc e

AllEncoded-all :
    (index : IndexDefinition) (block : RpcBlock) (values : List IndexValue) (rows : List IndexRow)
    → AllEncoded index block values rows
    → all (λ row. row.block_hash == block.hash) rows ≡ true
AllEncoded-all index block _ _ none_encoded = refl
AllEncoded-all index block _ _ (encoded v values row rows here rest) = ground (
  arith,
  ==_iff row.block_hash block.hash,
  here.block_hash,
  AllEncoded-all index block values rows rest,
)

-- What of a block that was transformed `sync` relies on.
pub record IsStamped (number_of : ℕ → ℕ) (number : ℕ) (t : Transformed) : Type 0 where
  pub at : t.bundle.block.number ≡ number
  pub hash : number_of t.bundle.block.hash ≡ number
  pub rows : all (λ row. row.block_hash == t.bundle.block.hash) t.rows ≡ true

-- A provider gives the block of the number that it is asked for, and a hash is of one number.
abbrev pub IsProvider : (ℕ → ℕ) → Client → Type 0
IsProvider number_of client =
    (number : ℕ) (full : Bool) (block : RpcBlock)
    → client.by_number number full ≡ ok (some block)
    → (block.number ≡ number) × (number_of block.hash ≡ number)

pub IsTransformed-IsStamped :
    (number_of : ℕ → ℕ) (client : Client) (index : IndexDefinition) (number : ℕ) (t : Transformed)
    → IsProvider number_of client
    → IsTransformed client index number t
    → IsStamped number_of number t
IsTransformed-IsStamped number_of client index number t provider i =
    let from =
      provider number (index.source.transactions || index.source.receipts) i.block i.answered in
    record {
      at = ap (λ b. b.number) i.consistent.same_block ∙ from.0;
      hash = ap (λ b. number_of b.hash) i.consistent.same_block ∙ from.1;
      rows = AllEncoded-all index t.bundle.block i.values t.rows i.rows;
    }
