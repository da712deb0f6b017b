-- ===== src/Prelude/Lists.antt =====
-- Lists measured and cut by native numbers, Boolean search, and a stable sort.
use Prim.Native.Nat.{ℕ, zero, suc, ◌+◌, ◌-◌, ◌≤◌}
use mathlib.Core.Path.{◌≡◌, refl, ap, ◌∙◌}
use mathlib.Core.Bool.{Bool, true, false, ◌&&◌, ◌||◌}
use mathlib.Core.Option.{Option, none, some}
use mathlib.Core.List.{List, [], ◌∷◌, ◌++◌, map, reverse, reverse-cons}
use native.Mathlib.Omega.{arith}
use ether_state.Prelude.Tests.{if◌then◌else◌}

module _ {ℓ} {A : Type ℓ} where
  abbrev pub length : List A → ℕ
  length [] = 0
  length (x ∷ xs) = suc (length xs)

  abbrev pub take : ℕ → List A → List A
  take zero xs = []
  take (suc n) [] = []
  take (suc n) (x ∷ xs) = x ∷ take n xs

  abbrev pub drop : ℕ → List A → List A
  drop zero xs = xs
  drop (suc n) [] = []
  drop (suc n) (x ∷ xs) = drop n xs

  -- `xs.filter(test)`
  abbrev pub keep : (A → Bool) → List A → List A
  keep test [] = []
  keep test (x ∷ xs) = let rest = keep test xs in if test x then x ∷ rest else rest

  -- `xs.some(test)` and `xs.every(test)`
  abbrev pub any : (A → Bool) → List A → Bool
  any test [] = false
  any test (x ∷ xs) = test x || any test xs

  abbrev pub all : (A → Bool) → List A → Bool
  all test [] = true
  all test (x ∷ xs) = test x && all test xs

  -- `xs.sort(…)`, which is stable: `before x y` says that the comparison is negative.
  abbrev pub get_elem? : List A → ℕ → Option A
  get_elem? [] i = none
  get_elem? (x ∷ xs) zero = some x
  get_elem? (x ∷ xs) (suc i) = get_elem? xs i

  abbrev pub insert_by : (A → A → Bool) → A → List A → List A
  insert_by before x [] = x ∷ []
  insert_by before x (y ∷ ys) =
      let later = y ∷ insert_by before x ys in if before y x then later else x ∷ y ∷ ys

  abbrev pub sort_by : (A → A → Bool) → List A → List A
  sort_by before [] = []
  sort_by before (x ∷ xs) = insert_by before x (sort_by before xs)

module _ {ℓ} {A : Type ℓ} where
  pub length-append : (xs ys : List A) → length (xs ++ ys) ≡ length xs + length ys
  length-append [] ys = omega arith
  length-append (x ∷ xs) ys = omega (arith, length-append xs ys)

  pub any-append :
      (test : A → Bool) (xs ys : List A) → any test (xs ++ ys) ≡ (any test xs || any test ys)
  any-append test [] ys = refl
  any-append test (x ∷ xs) ys = ground (arith, any-append test xs ys)

  pub any-reverse : (test : A → Bool) (xs : List A) → any test (reverse xs) ≡ any test xs
  any-reverse test [] = refl
  any-reverse test (x ∷ xs) = ground (
    arith,
    ap (any test) (reverse-cons x xs),
    any-append test (reverse xs) (x ∷ []),
    any-reverse test xs,
  )

  any-insert_by :
      (test : A → Bool) (before : A → A → Bool) (x : A) (xs : List A)
      → any test (insert_by before x xs) ≡ (test x || any test xs)
  any-insert_by test before x [] = refl
  any-insert_by test before x (y ∷ ys) = ground (arith, any-insert_by test before x ys)

  pub any-sort_by :
      (test : A → Bool) (before : A → A → Bool) (xs : List A)
      → any test (sort_by before xs) ≡ any test xs
  any-sort_by test before [] = refl
  any-sort_by test before (x ∷ xs) =
      ground (arith, any-insert_by test before x (sort_by before xs), any-sort_by test before xs)

  pub length-map {κ} : {B : Type κ} (xs : List A) (f : A → B) → length (map f xs) ≡ length xs
  length-map [] f = refl
  length-map (x ∷ xs) f = ap suc (length-map xs f)

  pub length-take_le : (n : ℕ) (xs : List A) → length (take n xs) ≤ n
  length-take_le zero xs = omega arith
  length-take_le (suc n) [] = omega arith
  length-take_le (suc n) (x ∷ xs) = omega (arith, length-take_le n xs)

  pub length-drop : (n : ℕ) (xs : List A) → length (drop n xs) ≡ length xs - n
  length-drop zero xs = omega arith
  length-drop (suc n) [] = omega arith
  length-drop (suc n) (x ∷ xs) = omega (arith, length-drop n xs)

  pub all-append :
      (test : A → Bool) (xs ys : List A) → all test (xs ++ ys) ≡ (all test xs && all test ys)
  all-append test [] ys = refl
  all-append test (x ∷ xs) ys = ground (arith, all-append test xs ys)

  all-insert_by :
      (test : A → Bool) (before : A → A → Bool) (x : A) (xs : List A)
      → all test (insert_by before x xs) ≡ (test x && all test xs)
  all-insert_by test before x [] = refl
  all-insert_by test before x (y ∷ ys) = ground (arith, all-insert_by test before x ys)

  pub all-sort_by :
      (test : A → Bool) (before : A → A → Bool) (xs : List A)
      → all test (sort_by before xs) ≡ all test xs
  all-sort_by test before [] = refl
  all-sort_by test before (x ∷ xs) =
      ground (arith, all-insert_by test before x (sort_by before xs), all-sort_by test before xs)

module _ {ℓ} {A : Type ℓ} (before : A → A → Bool) where
  -- No element stands after one that it must precede.
  abbrev pub IsSortedBy : List A → Type 0
  IsSortedBy [] = Unit {0}
  IsSortedBy (x ∷ []) = Unit {0}
  IsSortedBy (x ∷ y ∷ ys) = (before y x ≡ false) × IsSortedBy (y ∷ ys)

  module _ (asym : (x y : A) → before x y ≡ true → before y x ≡ false) where
    insert_by-IsSortedBy :
        (x : A) (xs : List A) → IsSortedBy xs → IsSortedBy (insert_by before x xs)
    insert_by-IsSortedBy x [] s = tt
    insert_by-IsSortedBy x (y ∷ []) s = ground (arith, asym y x)
    insert_by-IsSortedBy x (y ∷ z ∷ zs) s =
        ground (arith, asym y x, insert_by-IsSortedBy x (z ∷ zs) s.1)

    pub sort_by-IsSortedBy : (xs : List A) → IsSortedBy (sort_by before xs)
    sort_by-IsSortedBy [] = tt
    sort_by-IsSortedBy (x ∷ xs) = insert_by-IsSortedBy x (sort_by before xs) (sort_by-IsSortedBy xs)

module _ {ℓ} {A : Type ℓ} (same : A → A → Bool) where
  -- No two elements are the same.
  abbrev pub IsDistinct : List A → Type 0
  IsDistinct [] = Unit {0}
  IsDistinct (x ∷ xs) = (any (same x) xs ≡ false) × IsDistinct xs

  module _ (before : A → A → Bool) (symm : (x y : A) → same x y ≡ same y x) where
    insert_by-IsDistinct :
        (x : A) (xs : List A)
        → any (same x) xs ≡ false
        → IsDistinct xs
        → IsDistinct (insert_by before x xs)
    insert_by-IsDistinct x [] h d = (refl, tt)
    insert_by-IsDistinct x (y ∷ ys) h d =
        ground (arith, insert_by-IsDistinct x ys, any-insert_by (same y) before x ys, symm x y)

    pub sort_by-IsDistinct : (xs : List A) → IsDistinct xs → IsDistinct (sort_by before xs)
    sort_by-IsDistinct [] d = tt
    sort_by-IsDistinct (x ∷ xs) d =
        insert_by-IsDistinct x (sort_by before xs) (any-sort_by (same x) before xs ∙ d.0)
          (sort_by-IsDistinct xs d.1)
