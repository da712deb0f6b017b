-- ===== src/Multicall/Shared.antt =====
-- `run` asks once for calls that are the same, and gives each caller the answer to its own call.
use ether_state.Prelude.{
  ℕ, zero, suc, ◌≡◌, refl, ap, subst, ◌∙◌, Bool, true, false, some, List, [], ◌∷◌, ◌++◌, map,
  length, arith, Option-cases, Bool-cases, inl, inr, get_elem?,
}
use ether_state.Prelude.JsMap
use ether_state.Prelude.Texts.{same_text, text_eq}
use ether_state.Prelude.Results.{Result, ok}
use ether_state.Rpc.{RpcTransactionRequest}
use ether_state.Rpc.Errors.{ClientError}
use ether_state.Multicall.{
  Reads, exits, Provider, answered, places, exit_at, spread, run_unique, run,
}

module _ {A : Type 0} where
  get_elem?-append :
      (xs ys : List A) (i : ℕ) (x : A) → get_elem? xs i ≡ some x → get_elem? (xs ++ ys) i ≡ some x
  get_elem?-append [] ys i x h = absurd (cc h)
  get_elem?-append (y ∷ xs) ys zero x h = h
  get_elem?-append (y ∷ xs) ys (suc i) x h = get_elem?-append xs ys i x h

  get_elem?-length : (xs : List A) (x : A) → get_elem? (xs ++ x ∷ []) (length xs) ≡ some x
  get_elem?-length [] x = refl
  get_elem?-length (y ∷ xs) x = get_elem?-length xs x

  get_elem?-map :
      {B : Type 0} (f : A → B) (xs : List A) (i : ℕ) (x : A)
      → get_elem? xs i ≡ some x
      → get_elem? (map f xs) i ≡ some (f x)
  get_elem?-map f [] i x h = absurd (cc h)
  get_elem?-map f (y ∷ xs) zero x h = ground (arith, h)
  get_elem?-map f (y ∷ xs) (suc i) x h = get_elem?-map f xs i x h

module _ (key_of : RpcTransactionRequest → List ℕ) where
  -- Every key stands for the place of the call that has it.
  abbrev Points : List (List ℕ × ℕ) → List RpcTransactionRequest → Type 0
  Points positions unique =
      (k : List ℕ) (i : ℕ)
      → JsMap.get k positions ≡ some i
      → (c : RpcTransactionRequest) × (get_elem? unique i ≡ some c) × (key_of c ≡ k)

  -- The calls of which each place is, or calls of the same text.
  abbrev ArePlaced : List RpcTransactionRequest → List RpcTransactionRequest → List ℕ → Type 0
  ArePlaced unique [] [] = Unit {0}
  ArePlaced unique [] (i ∷ is) = true ≡ false
  ArePlaced unique (c ∷ cs) [] = true ≡ false
  ArePlaced unique (c ∷ cs) (i ∷ is) =
      ((d : RpcTransactionRequest) × (get_elem? unique i ≡ some d) × (key_of d ≡ key_of c))
      × ArePlaced unique cs is

  Points-set :
      (positions : List (List ℕ × ℕ)) (unique : List RpcTransactionRequest)
      (c : RpcTransactionRequest)
      → Points positions unique
      → Points (JsMap.set (key_of c) (length unique) positions) (unique ++ c ∷ [])
  Points-set positions unique c points k i h = elim (Bool-cases (same_text (key_of c) k)) [
    | inl same ↦
        let here : length unique ≡ i =
          ground (arith, h, same, JsMap.get-set (key_of c) k (length unique) positions) in
        (
          c,
          subst (λ j. get_elem? (unique ++ c ∷ []) j ≡ some c) here (get_elem?-length unique c),
          (text_eq.beq_iff (key_of c) k).0 same,
        )
    | inr other ↦
        let old : JsMap.get k positions ≡ some i =
          ground (arith, h, other, JsMap.get-set (key_of c) k (length unique) positions) in
        let found = points k i old in
        (found.0, get_elem?-append unique (c ∷ []) i found.0 found.1, found.2)
  ]

  -- What the loop of `run` gives for calls, after those in `unique`.
  record IsPlaced (unique calls : List RpcTransactionRequest)
      (result : List ℕ × List RpcTransactionRequest) : Type 0 where
    placed : ArePlaced result.1 calls result.0
    keeps :
        (i : ℕ) (c : RpcTransactionRequest)
        → get_elem? unique i ≡ some c
        → get_elem? result.1 i ≡ some c

  places-IsPlaced :
      (positions : List (List ℕ × ℕ)) (unique calls : List RpcTransactionRequest)
      → Points positions unique
      → IsPlaced unique calls (places key_of positions unique calls)
  unfolding places
  places-IsPlaced positions unique [] points = record { placed = tt; keeps = λ i c h. h }
  places-IsPlaced positions unique (c ∷ calls) points =
      elim (Option-cases (JsMap.get (key_of c) positions)) [
        | inl new ↦
            let rest =
              places-IsPlaced (JsMap.set (key_of c) (length unique) positions) (unique ++ c ∷ [])
                calls (Points-set positions unique c points) in
            rw (new, places)
              (record {
                placed = (
                  (c, rest.keeps (length unique) c (get_elem?-length unique c), refl),
                  rest.placed,
                );
                keeps = λ i d h. rest.keeps i d (get_elem?-append unique (c ∷ []) i d h);
              })
        | inr (i, old) ↦
            let rest = places-IsPlaced positions unique calls points in
            let found = points (key_of c) i old in
            rw (old, places)
              (record {
                placed = ((found.0, rest.keeps i found.0 found.1, found.2), rest.placed);
                keeps = rest.keeps;
              })
      ]

exit_at-exits :
    (results : List (Result ClientError ℕ)) (i : ℕ) (r : Result ClientError ℕ)
    → get_elem? results i ≡ some r
    → exit_at results i ≡ exits r
exit_at-exits results i r h = rw (h, exit_at)

exits_at :
    (key_of : RpcTransactionRequest → List ℕ) (f : RpcTransactionRequest → Result ClientError ℕ)
    (unique calls : List RpcTransactionRequest) (indexes : List ℕ)
    → ((a b : RpcTransactionRequest) → key_of a ≡ key_of b → f a ≡ f b)
    → ArePlaced key_of unique calls indexes
    → map (exit_at (map f unique)) indexes ≡ map (λ c. exits (f c)) calls
exits_at key_of f unique [] [] by_text p = refl
exits_at key_of f unique [] (i ∷ is) by_text p = absurd (cc p)
exits_at key_of f unique (c ∷ cs) [] by_text p = absurd (cc p)
exits_at key_of f unique (c ∷ cs) (i ∷ is) by_text p =
    let here = get_elem?-map f unique i p.0.0 p.0.1 ∙ ap some (by_text p.0.0 c p.0.2) in
    ap (λ e. e ∷ map (exit_at (map f unique)) is) (exit_at-exits (map f unique) i (f c) here)
    ∙ ap (λ es. exits (f c) ∷ es) (exits_at key_of f unique cs is by_text p.1)

module _ (text_of : ℕ → List ℕ) (named : List ℕ → ℕ) (key_of : RpcTransactionRequest → List ℕ)
    (execution_reverted : ℕ → Bool) (to_lower_case : List ℕ → List ℕ)
    (invalid_data unverified : ℕ) where
  -- Where the calls without repeats are answered as some function of the calls' texts says, every
  -- caller of `run` gets what the function says of its own call: the answers come in the order of the
  -- calls, none is missing, and repeats share theirs.
  pub run_lem :
      (provider : Provider) (number : ℕ) (calls : List RpcTransactionRequest) (reads : Reads)
      (f : RpcTransactionRequest → Result ClientError ℕ)
      → ((a b : RpcTransactionRequest) → key_of a ≡ key_of b → f a ≡ f b)
      → (run_unique text_of named key_of execution_reverted to_lower_case invalid_data unverified
          provider number
          (places key_of [] [] calls).1
          reads).0
        ≡ answered (map f (places key_of [] [] calls).1)
      → (run text_of named key_of execution_reverted to_lower_case invalid_data unverified provider
          number calls reads).0
        ≡ ok (map (λ call. exits (f call)) calls)
  unfolding run
  run_lem provider number calls reads f by_text h =
      let p = places-IsPlaced key_of [] [] calls (λ k i e. absurd (cc e)) in
      ap
        (spread text_of named key_of execution_reverted to_lower_case invalid_data unverified
          (places key_of [] [] calls).0)
        h
      ∙ ap ok (
          exits_at key_of f (places key_of [] [] calls).1 calls (places key_of [] [] calls).0
            by_text p.placed)
