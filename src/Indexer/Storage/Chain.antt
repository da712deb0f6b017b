-- ===== src/Indexer/Storage/Chain.antt =====
-- The tables of one index hold a chain of blocks: what the stores' operations do to it.
use ether_state.Prelude.{
  ℕ, ◌+◌, ◌<◌, ◌≡◌, refl, sym, ap, subst, ◌∙◌, Bool, true, false, not, none, List, [], ◌∷◌, ◌++◌,
  map, ◌==◌, ==_iff, any, all, all-append, ltb, keep, sort_by, insert_by, arith,
}
use ether_state.Prelude.JsMap
use ether_state.Prelude.JsMap.{Eq, nat_eq}
use ether_state.ModelStore.{IndexedBlock}
use ether_state.Indexer.Storage.{is_higher}

module _ {K V : Type 0} ⦃e : Eq K⦄ where
  get-append-none :
      (k j : K) (v : V) (m : List (K × V))
      → JsMap.get k m ≡ none
      → e.beq j k ≡ false
      → JsMap.get k (m ++ (j, v) ∷ []) ≡ none
  get-append-none k j v [] h d = ground (arith, d)
  get-append-none k j v ((i, w) ∷ m) h d = ground (arith, get-append-none k j v m, h)

  delete-append :
      (k : K) (v : V) (m : List (K × V))
      → JsMap.get k m ≡ none
      → JsMap.delete k (m ++ (k, v) ∷ []) ≡ m
  delete-append k v [] h = ground (arith, e.beq_iff k k)
  delete-append k v ((i, w) ∷ m) h = ground (arith, delete-append k v m, h)

  -- A test of the keys of a map.
  pub all-set :
      (test : K → Bool) (k : K) (v : V) (m : List (K × V))
      → test k ≡ true
      → all (λ entry. test entry.0) m ≡ true
      → all (λ entry. test entry.0) (JsMap.set k v m) ≡ true
  all-set test k v [] h a = ground (arith, h)
  all-set test k v ((j, w) ∷ m) h a = ground (arith, all-set test k v m, h, a)

-- The table of blocks, for blocks from the newest to the oldest.
abbrev pub stored : List IndexedBlock → List (ℕ × IndexedBlock)
stored [] = []
stored (b ∷ bs) = stored bs ++ (b.hash, b) ∷ []

abbrev pub is_stored : List IndexedBlock → ℕ → Bool
is_stored bs hash = any (λ b. b.hash == hash) bs

-- What a block needs to be committed after others.
abbrev pub Extends : ℕ → IndexedBlock → List IndexedBlock → Type 0
Extends start b [] = b.number ≡ start
Extends start b (parent ∷ bs) = (b.number ≡ parent.number + 1) × (b.parent_hash ≡ parent.hash)

-- Linked blocks from the newest to the one that the index starts at.
abbrev pub IsChain : (ℕ → ℕ) → ℕ → List IndexedBlock → Type 0
IsChain number_of start [] = Unit {0}
IsChain number_of start (b ∷ bs) =
    (number_of b.hash ≡ b.number) × Extends start b bs × IsChain number_of start bs

abbrev pub IsBelow : ℕ → List IndexedBlock → Type 0
IsBelow n [] = Unit {0}
IsBelow n (b ∷ bs) = (b.number < n) × IsBelow n bs

module _ (number_of : ℕ → ℕ) (start : ℕ) where
  IsChain-IsBelow :
      (n : ℕ) (b : IndexedBlock) (bs : List IndexedBlock)
      → b.number < n
      → IsChain number_of start (b ∷ bs)
      → IsBelow n (b ∷ bs)
  IsChain-IsBelow n b [] l c = (l, tt)
  IsChain-IsBelow n b (parent ∷ bs) l c =
      (l, IsChain-IsBelow n parent bs (omega (arith, c.1.0)) c.2)

  pub tail-IsBelow :
      (b : IndexedBlock) (bs : List IndexedBlock)
      → IsChain number_of start (b ∷ bs)
      → IsBelow b.number bs
  tail-IsBelow b [] c = tt
  tail-IsBelow b (parent ∷ bs) c = IsChain-IsBelow b.number parent bs (omega (arith, c.1.0)) c.2

  get-stored-none :
      (hash : ℕ) (bs : List IndexedBlock)
      → IsChain number_of start bs
      → IsBelow (number_of hash) bs
      → JsMap.get hash (stored bs) ≡ none
  get-stored-none hash [] c l = refl
  get-stored-none hash (b ∷ bs) c l =
      get-append-none hash b.hash b (stored bs) (get-stored-none hash bs c.2 l.1)
        (ground (arith, ==_iff b.hash hash, c.0, l.0))

  absent :
      (b : IndexedBlock) (bs : List IndexedBlock)
      → IsChain number_of start (b ∷ bs)
      → JsMap.get b.hash (stored bs) ≡ none
  absent b bs c =
      get-stored-none b.hash bs c.2 (subst (λ n. IsBelow n bs) (sym c.0) (tail-IsBelow b bs c))

  pub set-stored :
      (b : IndexedBlock) (bs : List IndexedBlock)
      → IsChain number_of start (b ∷ bs)
      → JsMap.set b.hash b (stored bs) ≡ stored (b ∷ bs)
  set-stored b bs c = JsMap.set-absent b.hash b (stored bs) (absent b bs c)

  pub delete-stored :
      (b : IndexedBlock) (bs : List IndexedBlock)
      → IsChain number_of start (b ∷ bs)
      → JsMap.delete b.hash (stored (b ∷ bs)) ≡ stored bs
  delete-stored b bs c = delete-append b.hash b (stored bs) (absent b bs c)

  values-append :
      (entries : List (ℕ × IndexedBlock)) (hash : ℕ) (b : IndexedBlock)
      → map (λ entry. entry.1) (entries ++ (hash, b) ∷ [])
        ≡ map (λ entry. entry.1) entries ++ b ∷ []
  values-append [] hash b = refl
  values-append (entry ∷ entries) hash b = ap (λ bs. entry.1 ∷ bs) (values-append entries hash b)

  insert_by_later :
      (b c : IndexedBlock) (bs : List IndexedBlock)
      → c.number < b.number
      → insert_by is_higher c (b ∷ bs) ≡ b ∷ insert_by is_higher c bs
  insert_by_later b c bs l = ground (arith, l)

  -- A block that is higher than all others comes first.
  sort_by-highest :
      (b : IndexedBlock) (bs : List IndexedBlock)
      → all (λ c. ltb c.number b.number) bs ≡ true
      → sort_by is_higher (bs ++ b ∷ []) ≡ b ∷ sort_by is_higher bs
  sort_by-highest b [] l = refl
  sort_by-highest b (c ∷ bs) l =
      ap (insert_by is_higher c) (sort_by-highest b bs (ground (arith, l)))
      ∙ insert_by_later b c (sort_by is_higher bs) (ground (arith, l))

  all-values :
      (test : IndexedBlock → Bool) (bs : List IndexedBlock)
      → all test (map (λ entry. entry.1) (stored bs)) ≡ all test bs
  all-values test [] = refl
  all-values test (b ∷ bs) =
      ap (all test) (values-append (stored bs) b.hash b)
      ∙ all-append test (map (λ entry. entry.1) (stored bs)) (b ∷ [])
      ∙ ground (arith, all-values test bs)

  IsBelow-all :
      (n : ℕ) (bs : List IndexedBlock) → IsBelow n bs → all (λ c. ltb c.number n) bs ≡ true
  IsBelow-all n [] l = refl
  IsBelow-all n (b ∷ bs) l = ground (arith, l.0, IsBelow-all n bs l.1)

  -- What `recent` reads, before its limit.
  pub sort_by-stored :
      (bs : List IndexedBlock)
      → IsChain number_of start bs
      → sort_by is_higher (map (λ entry. entry.1) (stored bs)) ≡ bs
  sort_by-stored [] c = refl
  sort_by-stored (b ∷ bs) c =
      ap (sort_by is_higher) (values-append (stored bs) b.hash b)
      ∙ sort_by-highest b (map (λ entry. entry.1) (stored bs)) (
          all-values (λ x. ltb x.number b.number) bs
          ∙ IsBelow-all b.number bs (tail-IsBelow b bs c))
      ∙ ap (λ xs. b ∷ xs) (sort_by-stored bs c.2)

  -- The rows of the blocks that are left.
  pub keep-is_stored :
      {R : Type 0} (b : IndexedBlock) (bs : List IndexedBlock) (rows : List ((List ℕ × ℕ) × R))
      → all (λ row. is_stored (b ∷ bs) row.0.1) rows ≡ true
      → all (λ row. is_stored bs row.0.1) (keep (λ row. not (row.0.1 == b.hash)) rows) ≡ true
  keep-is_stored b bs [] a = refl
  keep-is_stored b bs (row ∷ rows) a =
      ground (arith, a, keep-is_stored b bs rows, ==_iff row.0.1 b.hash, ==_iff b.hash row.0.1)

  pub all-is_stored :
      {R : Type 0} (b : IndexedBlock) (bs : List IndexedBlock) (rows : List ((List ℕ × ℕ) × R))
      → all (λ row. is_stored bs row.0.1) rows ≡ true
      → all (λ row. is_stored (b ∷ bs) row.0.1) rows ≡ true
  all-is_stored b bs [] a = refl
  all-is_stored b bs (row ∷ rows) a = ground (arith, a, all-is_stored b bs rows)
