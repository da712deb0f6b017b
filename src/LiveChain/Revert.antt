-- ===== src/LiveChain/Revert.antt =====
-- Reverts of the chain: to the last retained block that is still canonical.
use mathlib.Core.List.{append_assoc}
use ether_state.Prelude.{
  ℕ, ◌+◌, ◌≡◌, refl, sym, ap, subst, ◌∙◌, true, false, Option, none, some, List, [], ◌∷◌, ◌++◌, map,
  reverse, reverse-reverse, reverse-append, reverse-cons, leb, keep, Bool-cases, Option-cases, inl,
  inr, arith,
}
use ether_state.LiveChain.{Update, revert, State, found, find_ancestor, same_hash}
use ether_state.LiveChain.Follow.{
  below, follow, IsLinked, IsLinked-left, IsLinked-head, IsLinked-append, IsLinked-right, last_of,
  last_of-append, keyed, keep-linked, Tracks,
}

-- None of these retained blocks is canonical.
abbrev pub AllOrphaned : (ℕ → Option (Option ℕ)) → List (ℕ × Update) → Type 0
AllOrphaned header [] = Unit {0}
AllOrphaned header ((number, old) ∷ rest) =
    ((hash : Option ℕ) × (header number ≡ some hash) × (same_hash hash old.hash ≡ false))
    × AllOrphaned header rest

-- Where the search stopped, and what it passed over.
pub record Search (header : ℕ → Option (Option ℕ)) (entries : List (ℕ × Update)) (number : ℕ)
    (old : Update) : Type 0 where
  pub passed : List (ℕ × Update)
  pub rest : List (ℕ × Update)
  pub split : entries ≡ passed ++ (number, old) ∷ rest
  pub hash : Option ℕ
  pub answer : header number ≡ some hash
  pub canonical : same_hash hash old.hash ≡ true
  pub orphaned : AllOrphaned header passed

pub find_ancestor-Search :
    (header : ℕ → Option (Option ℕ)) (entries : List (ℕ × Update)) (number : ℕ) (old : Update)
    → find_ancestor header entries ≡ found number old
    → Search header entries number old
unfolding find_ancestor
find_ancestor-Search header [] number old e = absurd (cc e)
find_ancestor-Search header ((n, u) ∷ entries) number old e = elim (Option-cases (header n)) [
  | inl failed ↦ absurd (ground (arith, failed))
  | inr (hash, answer) ↦ elim (Bool-cases (same_hash hash u.hash)) [
    | inl same ↦
        let e' : found n u ≡ found number old = rw (answer, find_ancestor, same) at e in
        let n' : n ≡ number = cc e' in
        let u' : u ≡ old = cc e' in
        record {
          passed = [];
          rest = entries;
          split = cc (n', u');
          hash = hash;
          answer = rw (← n') answer;
          canonical = rw (← u') same;
          orphaned = tt;
        }
    | inr other ↦
        let s =
          find_ancestor-Search header entries number old (rw (answer, find_ancestor, other) at e) in
        record {
          passed = (n, u) ∷ s.passed;
          rest = s.rest;
          split = ap (λ l. (n, u) ∷ l) s.split;
          hash = s.hash;
          answer = s.answer;
          canonical = s.canonical;
          orphaned = ((hash, answer, other), s.orphaned);
        }
  ]
]

map-eq-append :
    (recent : List Update) (front : List (ℕ × Update)) (number : ℕ) (old : Update)
    (back : List (ℕ × Update))
    → map keyed recent ≡ front ++ (number, old) ∷ back
    → (xs : List Update) × (ys : List Update) × (recent ≡ xs ++ old ∷ ys) × (number ≡ old.number)
map-eq-append [] [] number old back e = absurd (cc e)
map-eq-append [] (f ∷ front) number old back e = absurd (cc e)
map-eq-append (r ∷ recent) [] number old back e = ([], recent, ground arith, ground arith)
map-eq-append (r ∷ recent) (f ∷ front) number old back e =
    let (xs, ys, split, same) = map-eq-append recent front number old back (ground arith) in
    (r ∷ xs, ys, ap (λ l. r ∷ l) split, same)

keep-keyed :
    (n : ℕ) (recent : List Update)
    → keep (λ e. leb e.0 n) (map keyed recent) ≡ map keyed (keep (below (n + 1)) recent)
keep-keyed n [] = refl
keep-keyed n (r ∷ recent) = ground (arith, keep-keyed n recent)

-- The found block splits what is retained.
pub Search-split :
    (state : State) (chain : List Update) (header : ℕ → Option (Option ℕ)) (number : ℕ)
    (old : Update)
    → (t : Tracks state chain) → Search header (reverse state.retained) number old
    → (xs : List Update) × (ys : List Update) × (t.recent ≡ xs ++ old ∷ ys) × (number ≡ old.number)
Search-split state chain header number old t s =
    map-eq-append t.recent (reverse s.rest) number old (reverse s.passed) (
      sym t.kept
      ∙ sym (reverse-reverse state.retained)
      ∙ ap reverse s.split
      ∙ reverse-append s.passed ((number, old) ∷ s.rest)
      ∙ ap (λ l. l ++ reverse s.passed) (reverse-cons (number, old) s.rest)
      ∙ append_assoc (reverse s.rest) ((number, old) ∷ []) (reverse s.passed))

pub revert-Tracks :
    (state : State) (chain xs ys : List Update) (old : Update)
    → (t : Tracks state chain) → t.recent ≡ xs ++ old ∷ ys
    → Tracks
        (record {
          retained = keep (λ e. leb e.0 old.number) state.retained;
          ready = [];
          cursor = some old;
        })
        (follow chain (revert (old.number + 1) old))
unfolding follow
revert-Tracks state chain xs ys old t e = record {
  older = t.older;
  recent = xs ++ old ∷ [];
  split = cut ∙ append_assoc t.older xs (old ∷ []);
  kept =
      ap (keep (λ e. leb e.0 old.number)) t.kept
      ∙ keep-keyed old.number t.recent
      ∙ ap (λ l. map keyed (keep (below (old.number + 1)) l)) e
      ∙ ap (map keyed) (keep-linked (last_of none t.older) xs old ys recent_linked);
  cursor = sym (ap (last_of none) cut ∙ last_of-append none (t.older ++ xs) (old ∷ []));
  linked = subst (IsLinked none) (sym cut) (
      IsLinked-append none (t.older ++ xs) (old ∷ [])
        (IsLinked-left none (t.older ++ xs) (old ∷ ys) whole_linked)
        (IsLinked-head (last_of none (t.older ++ xs)) old ys
          (IsLinked-right none (t.older ++ xs) (old ∷ ys) whole_linked)));
}
  where
    whole : chain ≡ (t.older ++ xs) ++ old ∷ ys
    whole = t.split ∙ ap (λ l. t.older ++ l) e ∙ sym (append_assoc t.older xs (old ∷ ys))

    recent_linked : IsLinked (last_of none t.older) (xs ++ old ∷ ys)
    recent_linked =
        IsLinked-right none t.older (xs ++ old ∷ ys)
          (subst (IsLinked none) (t.split ∙ ap (λ l. t.older ++ l) e) t.linked)

    whole_linked : IsLinked none ((t.older ++ xs) ++ old ∷ ys)
    whole_linked = subst (IsLinked none) whole t.linked

    cut : keep (below (old.number + 1)) chain ≡ (t.older ++ xs) ++ old ∷ []
    cut =
        ap (keep (below (old.number + 1))) whole
        ∙ keep-linked none (t.older ++ xs) old ys whole_linked
