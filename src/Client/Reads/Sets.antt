-- ===== src/Client/Reads/Sets.antt =====
-- Sets of endpoints as lists, and how many different ones there are.
use mathlib.Core.List.{Memᴰ}
use mathlib.Core.List.Memᴰ
use ether_state.Prelude.{
  ℕ, ◌≤◌, ◌<◌, ◌≡◌, refl, sym, subst, Bool, true, not, ◌&&◌, ◌||◌, List, [], ◌∷◌, map, ◌==◌, ==_iff,
  keep, any-append, all, length, Bool-cases, inl, inr, arith, and_left, and_right,
}
use ether_state.Client.{EndpointState}
use ether_state.Client.Reads.{has, add, remove, count_distinct}

pub has-add : (e x : ℕ) (set : List ℕ) → has e (add x set) ≡ (x == e || has e set)
has-add e x set = ground (arith, any-append (λ y. y == e) set (x ∷ []), ==_iff x e)

pub has-remove : (e x : ℕ) (set : List ℕ) → has e (remove x set) ≡ (has e set && not (x == e))
has-remove e x [] = refl
has-remove e x (y ∷ set) = ground (arith, has-remove e x set)

length-remove : (x : ℕ) (set : List ℕ) → has x set ≡ true → length (remove x set) < length set
length-remove x [] h = absurd (cc h)
length-remove x (y ∷ set) h = ground (arith, h, length-remove x set, length-remove_le x set)
  where
    length-remove_le : (x : ℕ) (set : List ℕ) → length (remove x set) ≤ length set
    length-remove_le x [] = omega arith
    length-remove_le x (y ∷ set) = ground (arith, length-remove_le x set)

-- No more different numbers than there are numbers to choose from.
pub count_distinct-le :
    (xs universe : List ℕ)
    → ((e : ℕ) → has e xs ≡ true → has e universe ≡ true)
    → count_distinct xs ≤ length universe
count_distinct-le [] universe sub = omega arith
count_distinct-le (x ∷ xs) universe sub = elim (Bool-cases (has x xs)) [
  | inl again ↦
      rw (again, count_distinct) (count_distinct-le xs universe (λ e h. sub e (ground (arith, h))))
  | inr new ↦
      let rest = count_distinct-le xs (remove x universe) (λ e h.
        ground (arith, has-remove e x universe, sub e (ground (arith, h)), h, new, ==_iff x e)) in
      rw (new, count_distinct)
        (omega (arith, rest, length-remove x universe (sub x (ground (arith, ==_iff x x)))))
]

pub has-endpoints :
    (universe : List ℕ) (test : EndpointState → Bool) (sources : List EndpointState) (e : ℕ)
    → all (λ x. has x.endpoint universe) sources ≡ true
    → has e (map (λ x. x.endpoint) (keep test sources)) ≡ true
    → has e universe ≡ true
has-endpoints universe test [] e a h = absurd (cc h)
has-endpoints universe test (x ∷ sources) e a h =
    ground (arith, a, h, has-endpoints universe test sources e, ==_iff x.endpoint e)

pub all-Mem :
    (universe : List ℕ) (sources : List EndpointState) (x : EndpointState)
    → all (λ x. has x.endpoint universe) sources ≡ true
    → Memᴰ x sources
    → has x.endpoint universe ≡ true
all-Mem universe [] x a m = absurd (Memᴰ.not-nil m)
all-Mem universe (y ∷ sources) x a m = elim (Memᴰ.cases_cons m) [
  | inl same ↦ subst (λ z. has z.endpoint universe ≡ true) (sym same) (and_left _ _ a)
  | inr later ↦ all-Mem universe sources x (and_right _ _ a) later
]
