-- ===== src/LiveChain/Follow.antt =====
-- What a consumer of the chain sees: a hash-linked chain whose last block is the cursor.
use mathlib.Core.List.{append_assoc}
use ether_state.Prelude.{
  ℕ, suc, ◌+◌, ◌≤◌, ◌<◌, ◌≡◌, refl, sym, ap, subst, ◌∙◌, Bool, true, Option, none, some, List, [],
  ◌∷◌, ◌++◌, map, ltb, length, keep, Bool-cases, inl, inr, arith,
}
use ether_state.Prelude.JsMap
use ether_state.Prelude.JsMap.{nat_eq}
use ether_state.LiveChain.{
  Update, ChainUpdate, apply, revert, State, first_conflict, same_hash, put_update, advance, trim,
  init,
}

-- A consumer keeps the applied blocks, oldest first, and drops those from a revert's height on.
abbrev pub below : ℕ → Update → Bool
below from value = ltb value.number from

unfoldable pub follow : List Update → ChainUpdate → List Update
follow chain (apply value) = chain ++ value ∷ []
follow chain (revert from ancestor) = keep (below from) chain

unfoldable pub follow_all : List Update → List ChainUpdate → List Update
unfolding follow
follow_all chain [] = chain
follow_all chain (u ∷ us) = follow_all (follow chain u) us

-- Each block has the number after, and the parent hash of, the one before it.
abbrev pub IsLinked : Option Update → List Update → Type 0
IsLinked parent [] = Unit {0}
IsLinked none (value ∷ values) = IsLinked (some value) values
IsLinked (some parent) (value ∷ values) =
    (value.number ≡ parent.number + 1)
    × (same_hash value.parent_hash parent.hash ≡ true)
    × IsLinked (some value) values

abbrev pub last_of : Option Update → List Update → Option Update
last_of parent [] = parent
last_of parent (value ∷ values) = last_of (some value) values

abbrev pub keyed : Update → ℕ × Update
keyed value = (value.number, value)

pub IsLinked-append :
    (parent : Option Update) (xs ys : List Update)
    → IsLinked parent xs
    → IsLinked (last_of parent xs) ys
    → IsLinked parent (xs ++ ys)
IsLinked-append parent [] ys a b = b
IsLinked-append none (x ∷ xs) ys a b = IsLinked-append (some x) xs ys a b
IsLinked-append (some p) (x ∷ xs) ys a b = (a.0, a.1, IsLinked-append (some x) xs ys a.2 b)

pub IsLinked-left :
    (parent : Option Update) (xs ys : List Update) → IsLinked parent (xs ++ ys) → IsLinked parent xs
IsLinked-left parent [] ys a = tt
IsLinked-left none (x ∷ xs) ys a = IsLinked-left (some x) xs ys a
IsLinked-left (some p) (x ∷ xs) ys a = (a.0, a.1, IsLinked-left (some x) xs ys a.2)

pub IsLinked-right :
    (parent : Option Update) (xs ys : List Update)
    → IsLinked parent (xs ++ ys)
    → IsLinked (last_of parent xs) ys
IsLinked-right parent [] ys a = a
IsLinked-right none (x ∷ xs) ys a = IsLinked-right (some x) xs ys a
IsLinked-right (some p) (x ∷ xs) ys a = IsLinked-right (some x) xs ys a.2

pub last_of-append :
    (parent : Option Update) (xs ys : List Update)
    → last_of parent (xs ++ ys) ≡ last_of (last_of parent xs) ys
last_of-append parent [] ys = refl
last_of-append parent (x ∷ xs) ys = last_of-append (some x) xs ys

-- The test of the code finds no conflict exactly where the updates are linked to their parent.
pub first_conflict-IsLinked :
    (parent : Option Update) (values : List Update)
    → first_conflict parent values ≡ none
    → IsLinked parent values
unfolding first_conflict
first_conflict-IsLinked parent [] e = tt
first_conflict-IsLinked none (x ∷ xs) e = first_conflict-IsLinked (some x) xs e
first_conflict-IsLinked (some p) (x ∷ xs) e = ground (arith, first_conflict-IsLinked (some x) xs)

abbrev AllBelow : ℕ → List Update → Type 0
AllBelow n [] = Unit {0}
AllBelow n (x ∷ xs) = (x.number < n) × AllBelow n xs

AllBelow-append :
    (n : ℕ) (xs ys : List Update) → AllBelow n xs → AllBelow n ys → AllBelow n (xs ++ ys)
AllBelow-append n [] ys a b = b
AllBelow-append n (x ∷ xs) ys a b = (a.0, AllBelow-append n xs ys a.1 b)

AllBelow-mono : (n m : ℕ) (xs : List Update) → n ≤ m → AllBelow n xs → AllBelow m xs
AllBelow-mono n m [] h a = tt
AllBelow-mono n m (x ∷ xs) h a = (omega arith, AllBelow-mono n m xs h a.1)

-- The blocks before a linked block have smaller numbers, and those after it larger ones.
IsLinked-AllBelow :
    (parent : Option Update) (xs : List Update) (v : Update) (ys : List Update)
    → IsLinked parent (xs ++ v ∷ ys)
    → AllBelow v.number xs × ((p : Update) → parent ≡ some p → p.number < v.number)
IsLinked-AllBelow none [] v ys a = (tt, λ p e. cc)
IsLinked-AllBelow (some q) [] v ys a = (tt, λ p e. ground arith)
IsLinked-AllBelow none (x ∷ xs) v ys a =
    let (small, head) = IsLinked-AllBelow (some x) xs v ys a in ((head x refl, small), λ p e. cc)
IsLinked-AllBelow (some q) (x ∷ xs) v ys a =
    let (small, head) = IsLinked-AllBelow (some x) xs v ys a.2 in
    let lt : x.number < v.number = head x refl in ((lt, small), λ p e. ground arith)

-- Adding a block above all retained ones puts it at the end.
set-keyed :
    (v : Update) (xs : List Update)
    → AllBelow v.number xs
    → JsMap.set v.number v (map keyed xs) ≡ map keyed (xs ++ v ∷ [])
set-keyed v [] a = refl
set-keyed v (x ∷ xs) a = ground (arith, set-keyed v xs a.1)

keep-below_all : (n : ℕ) (xs : List Update) → AllBelow n xs → keep (below n) xs ≡ xs
keep-below_all n [] a = refl
keep-below_all n (x ∷ xs) a = ground (arith, keep-below_all n xs a.1)

keep-above_all :
    (p : Update) (n : ℕ) (xs : List Update)
    → n ≤ p.number + 1
    → IsLinked (some p) xs
    → keep (below n) xs ≡ []
keep-above_all p n [] h a = refl
keep-above_all p n (x ∷ xs) h a = ground (arith, keep-above_all x n xs)

keep-append :
    {A : Type 0} (test : A → Bool) (xs ys : List A)
    → keep test (xs ++ ys) ≡ keep test xs ++ keep test ys
keep-append test [] ys = refl
keep-append test (x ∷ xs) ys = ground (arith, keep-append test xs ys)

IsLinked-tail :
    (parent : Option Update) (v : Update) (ys : List Update)
    → IsLinked parent (v ∷ ys)
    → IsLinked (some v) ys
IsLinked-tail none v ys a = a
IsLinked-tail (some p) v ys a = a.2

-- Cutting a linked chain behind one of its blocks.
pub keep-linked :
    (parent : Option Update) (xs : List Update) (v : Update) (ys : List Update)
    → IsLinked parent (xs ++ v ∷ ys)
    → keep (below (v.number + 1)) (xs ++ v ∷ ys) ≡ xs ++ v ∷ []
keep-linked parent xs v ys a =
    keep-append (below (v.number + 1)) xs (v ∷ ys)
    ∙ ap (λ l. l ++ keep (below (v.number + 1)) (v ∷ ys))
        (keep-below_all (v.number + 1) xs (
          AllBelow-mono v.number (v.number + 1) xs (omega arith)
            (IsLinked-AllBelow parent xs v ys a).0))
    ∙ ap (λ l. xs ++ l)
        (ground (
          arith,
          keep-above_all v (v.number + 1) ys (omega arith)
              (IsLinked-tail (last_of parent xs) v ys (IsLinked-right parent xs (v ∷ ys) a)),
        ))

-- The state against what the consumer has: `recent` is the end of the chain that is retained.
pub record Tracks (state : State) (chain : List Update) : Type 0 where
  pub older : List Update
  pub recent : List Update
  pub split : chain ≡ older ++ recent
  pub kept : state.retained ≡ map keyed recent
  pub cursor : state.cursor ≡ last_of none chain
  pub linked : IsLinked none chain

pub Tracks-init : Tracks init []
Tracks-init = record {
  older = [];
  recent = [];
  split = refl;
  kept = refl;
  cursor = refl;
  linked = tt;
}

pub Tracks-ready :
    (state : State) (chain : List Update) (ready : List (ℕ × Update))
    → Tracks state chain
    → Tracks (record state { ready = ready }) chain
Tracks-ready state chain ready t = record {
  older = t.older;
  recent = t.recent;
  split = t.split;
  kept = t.kept;
  cursor = t.cursor;
  linked = t.linked;
}

advance_one :
    (state : State) (chain : List Update) (v : Update)
    → Tracks state chain
    → IsLinked (last_of none chain) (v ∷ [])
    → Tracks (put_update state v) (chain ++ v ∷ [])
advance_one state chain v t l = record {
  older = t.older;
  recent = t.recent ++ v ∷ [];
  split = ap (λ c. c ++ v ∷ []) t.split ∙ append_assoc t.older t.recent (v ∷ []);
  kept =
      ap (JsMap.set v.number v) t.kept
      ∙ set-keyed v t.recent
          (IsLinked-AllBelow (last_of none t.older) t.recent v [] recent_linked).0;
  cursor = sym (last_of-append none chain (v ∷ []));
  linked = linked;
}
  where
    linked : IsLinked none (chain ++ v ∷ [])
    linked = IsLinked-append none chain (v ∷ []) t.linked l

    recent_linked : IsLinked (last_of none t.older) (t.recent ++ v ∷ [])
    recent_linked = IsLinked-right none t.older (t.recent ++ v ∷ []) (
        subst (IsLinked none)
          (ap (λ c. c ++ v ∷ []) t.split ∙ append_assoc t.older t.recent (v ∷ [])) linked)

pub IsLinked-head :
    (parent : Option Update) (v : Update) (vs : List Update)
    → IsLinked parent (v ∷ vs)
    → IsLinked parent (v ∷ [])
IsLinked-head none v vs a = tt
IsLinked-head (some p) v vs a = (a.0, a.1, tt)

pub advance-Tracks :
    (state : State) (chain values : List Update)
    → Tracks state chain
    → IsLinked (last_of none chain) values
    → Tracks (advance state values) (follow_all chain (map apply values))
unfolding advance follow_all
advance-Tracks state chain [] t l = t
advance-Tracks state chain (v ∷ vs) t l =
    advance-Tracks (put_update state v) (chain ++ v ∷ []) vs
      (advance_one state chain v t (IsLinked-head (last_of none chain) v vs l))
      (subst (λ p. IsLinked p vs) (sym (last_of-append none chain (v ∷ [])))
        (IsLinked-tail (last_of none chain) v vs l))

-- Trimming drops a front part.
trim-keyed :
    (recent : List Update)
    → (dropped : List Update) × (rest : List Update) × (recent ≡ dropped ++ rest)
      × (trim (map keyed recent) ≡ map keyed rest)
unfolding trim
trim-keyed [] = ([], [], refl, refl)
trim-keyed (x ∷ xs) = elim (Bool-cases (ltb 128 (suc (length (map keyed xs))))) [
  | inl long ↦
      let (dropped, rest, e, t) = trim-keyed xs in (x ∷ dropped, rest, ap (λ l. x ∷ l) e, rw long t)
  | inr short ↦ ([], x ∷ xs, refl, rw short)
]

pub length-trim : (entries : List (ℕ × Update)) → length (trim entries) ≤ 128
unfolding trim
length-trim [] = omega arith
length-trim (x ∷ xs) = ground (arith, length-trim xs)

pub trim-Tracks :
    (state : State) (chain : List Update)
    → Tracks state chain
    → Tracks (record state { retained = trim state.retained }) chain
trim-Tracks state chain t =
    let (dropped, rest, e, k) = trim-keyed t.recent in
    record {
      older = t.older ++ dropped;
      recent = rest;
      split = t.split ∙ ap (λ l. t.older ++ l) e ∙ sym (append_assoc t.older dropped rest);
      kept = ap trim t.kept ∙ k;
      cursor = t.cursor;
      linked = t.linked;
    }
