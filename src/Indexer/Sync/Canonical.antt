-- ===== src/Indexer/Sync/Canonical.antt =====
-- The search of `recover` for the newest stored block that the provider still has.
use ether_state.Prelude.{
  ℕ, zero, suc, ◌≡◌, refl, ap, subst, true, false, none, some, List, [], ◌∷◌, ◌++◌, take, arith,
  Bool-cases, Option, Option-cases, inl, inr, ◌≢◌, ◌==◌, ==_iff, ◌∙◌,
}
use ether_state.Rpc.{RpcBlock}
use ether_state.Prelude.Texts.{text_eq}
use ether_state.Prelude.Results.{Result, ok, Result-cases}
use ether_state.ModelStore.{IndexedBlock}
use ether_state.Indexer.{at_number, IndexerError}
use ether_state.Indexer.Bundle.{Client, fetch_block}
use ether_state.Indexer.Sync.{null_if_absent, has_hash, find_canonical}

-- The provider answers a request for the block's number with a block of the same hash.
abbrev pub StillHas : Client → IndexedBlock → Type 0
StillHas client stored =
    (block : RpcBlock) × (client.by_number stored.number false ≡ ok (some block))
    × (block.hash ≡ stored.hash)

-- The provider answers such a request, and not with a block of the same hash.
abbrev pub NoLongerHas : Client → IndexedBlock → Type 0
NoLongerHas client stored =
    (answer : Option RpcBlock) × (client.by_number stored.number false ≡ ok answer)
    × ((block : RpcBlock) → answer ≡ some block → block.hash ≢ stored.hash)

abbrev pub HasNewest : Client → List IndexedBlock → Type 0
HasNewest client [] = Unit {0}
HasNewest client (b ∷ bs) = StillHas client b

abbrev pub HasNone : Client → List IndexedBlock → Type 0
HasNone client [] = Unit {0}
HasNone client (b ∷ bs) = NoLongerHas client b × HasNone client bs

pub result_eq : {A : Type 0} {a b : A} → ◌≡◌ {A = Result IndexerError A} (ok a) (ok b) → a ≡ b
result_eq e = cc e

pub fetch_block-answered :
    (client : Client) (n : ℕ) (block : RpcBlock)
    → client.by_number n false ≡ ok (some block)
    → fetch_block client (at_number n) false ≡ ok block
unfolding fetch_block
fetch_block-answered client n block h = rw (h, fetch_block) refl

-- What `recover` takes for an answer is one, and no failure.
pub null_if_absent-answers :
    (client : Client) (n : ℕ) (current : Option RpcBlock)
    → null_if_absent (fetch_block client (at_number n) false) ≡ ok current
    → client.by_number n false ≡ ok current
unfolding fetch_block
null_if_absent-answers client n current h = elim (Result-cases (client.by_number n false)) [
  | inl (e, failed) ↦ absurd (cc (rw (failed, fetch_block) at h))
  | inr (answer, got) ↦ elim (Option-cases answer) [
    | inl nothing ↦ got ∙ ap ok (nothing ∙ result_eq (rw (got, nothing, fetch_block) at h))
    | inr (block, there) ↦ got ∙ ap ok (there ∙ result_eq (rw (got, there, fetch_block) at h))
  ]
]

pub has_hash-StillHas :
    (client : Client) (stored : IndexedBlock) (current : Option RpcBlock)
    → null_if_absent (fetch_block client (at_number stored.number) false) ≡ ok current
    → has_hash stored.hash current ≡ true
    → StillHas client stored
has_hash-StillHas client stored none got h = absurd (cc h)
has_hash-StillHas client stored (some block) got h = (
  block,
  null_if_absent-answers client stored.number (some block) got,
  (==_iff block.hash stored.hash).0 h,
)

has_hash-NoLongerHas :
    (client : Client) (stored : IndexedBlock) (current : Option RpcBlock)
    → null_if_absent (fetch_block client (at_number stored.number) false) ≡ ok current
    → has_hash stored.hash current ≡ false
    → NoLongerHas client stored
has_hash-NoLongerHas client stored current got h = (
  current,
  null_if_absent-answers client stored.number current got,
  λ block there same.
      let other : (block.hash == stored.hash) ≡ false = rw there at h in
      absurd (ground (arith, other, same)),
)

-- The split of a list at its first canonical block.
pub record SplitAt (client : Client) (stored : List IndexedBlock) (ancestor : IndexedBlock)
    : Type 0 where
  pub passed : List IndexedBlock
  pub rest : List IndexedBlock
  pub whole : stored ≡ passed ++ ancestor ∷ rest
  pub orphaned : HasNone client passed
  pub canonical : StillHas client ancestor

pub some_eq : {A : Type 0} {a b : A} → some a ≡ some b → a ≡ b
some_eq e = cc e

pub find_canonical-SplitAt :
    (client : Client) (stored : List IndexedBlock) (ancestor : IndexedBlock)
    → find_canonical client stored ≡ ok (some ancestor)
    → SplitAt client stored ancestor
unfolding find_canonical
find_canonical-SplitAt client [] ancestor h = absurd (cc h)
find_canonical-SplitAt client (b ∷ stored) ancestor h =
    elim (Result-cases (null_if_absent (fetch_block client (at_number b.number) false))) [
      | inl (e, failed) ↦ absurd (cc (rw (failed, find_canonical) at h))
      | inr (canonical, got) ↦ elim (Bool-cases (has_hash b.hash canonical)) [
        | inl same ↦
            let here : b ≡ ancestor = some_eq (result_eq (rw (got, same, find_canonical) at h)) in
            record {
              passed = [];
              rest = stored;
              whole = ap (λ a. a ∷ stored) here;
              orphaned = tt;
              canonical =
                  subst (StillHas client) here (has_hash-StillHas client b canonical got same);
            }
        | inr other ↦
            let split =
              find_canonical-SplitAt client stored ancestor
                (rw (got, other, find_canonical) at h) in
            let gone = has_hash-NoLongerHas client b canonical got other in
            record {
              passed = b ∷ split.passed;
              rest = split.rest;
              whole = ap (λ bs. b ∷ bs) split.whole;
              orphaned = (gone, split.orphaned);
              canonical = split.canonical;
            }
      ]
    ]

pub find_canonical-none :
    (client : Client) (stored : List IndexedBlock)
    → find_canonical client stored ≡ ok none
    → HasNone client stored
unfolding find_canonical
find_canonical-none client [] h = tt
find_canonical-none client (b ∷ stored) h =
    elim (Result-cases (null_if_absent (fetch_block client (at_number b.number) false))) [
      | inl (e, failed) ↦ absurd (cc (rw (failed, find_canonical) at h))
      | inr (canonical, got) ↦ elim (Bool-cases (has_hash b.hash canonical)) [
        | inl same ↦ absurd (cc (rw (got, same, find_canonical) at h))
        | inr other ↦
            let gone = has_hash-NoLongerHas client b canonical got other in
            (gone, find_canonical-none client stored (rw (got, other, find_canonical) at h))
      ]
    ]

-- What a limit leaves off.
pub take-rest : {A : Type 0} (n : ℕ) (xs : List A) → (older : List A) × (xs ≡ take n xs ++ older)
take-rest zero xs = (xs, refl)
take-rest (suc n) [] = ([], refl)
take-rest (suc n) (x ∷ xs) = let rest = take-rest n xs in (rest.0, ap (λ ys. x ∷ ys) rest.1)
