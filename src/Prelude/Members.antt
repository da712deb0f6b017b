-- ===== src/Prelude/Members.antt =====
-- Members of lists that are filtered or sorted.
use mathlib.Core.List.{Memᴰ}
use mathlib.Core.List.Memᴰ
use Prim.Native.Nat.{ℕ, ◌≤◌}
use mathlib.Core.Path.{◌≡◌, sym, subst}
use mathlib.Core.Logic.{◌⊎◌, inl, inr}
use mathlib.Core.Bool.{Bool, true}
use mathlib.Core.List.{List, [], ◌∷◌}
use native.Mathlib.Omega.{arith}
use ether_state.Prelude.Tests.{ltb, Bool-cases}
use ether_state.Prelude.Lists.{keep, insert_by, sort_by}

pub Mem-keep {ℓ} :
    {A : Type ℓ} (test : A → Bool) (y : A) (xs : List A)
    → Memᴰ y xs
    → test y ≡ true
    → Memᴰ y (keep test xs)
Mem-keep test y [] m t = absurd (Memᴰ.not-nil m)
Mem-keep test y (x ∷ xs) m t = elim (Memᴰ.cases_cons m) [
  | inl same ↦ rw (subst (λ z. test z ≡ true) same t, keep) (Memᴰ.head same)
  | inr later ↦ elim (Bool-cases (test x)) [
    | inl kept ↦ rw (kept, keep) (Memᴰ.tail (Mem-keep test y xs later t))
    | inr dropped ↦ rw (dropped, keep) (Mem-keep test y xs later t)
  ]
]

pub keep-Mem {ℓ} :
    {A : Type ℓ} (test : A → Bool) (y : A) (xs : List A)
    → Memᴰ y (keep test xs)
    → Memᴰ y xs × (test y ≡ true)
keep-Mem test y [] m = absurd (Memᴰ.not-nil m)
keep-Mem test y (x ∷ xs) m = elim (Bool-cases (test x)) [
  | inl kept ↦ elim (Memᴰ.cases_cons (rw (kept, keep) at m)) [
    | inl same ↦ (Memᴰ.head same, subst (λ z. test z ≡ true) (sym same) kept)
    | inr later ↦ let r = keep-Mem test y xs later in (Memᴰ.tail r.0, r.1)
  ]
  | inr dropped ↦ let r = keep-Mem test y xs (rw (dropped, keep) at m) in (Memᴰ.tail r.0, r.1)
]

insert_by-Mem {ℓ} :
    {A : Type ℓ} (before : A → A → Bool) (y x : A) (xs : List A)
    → Memᴰ y (insert_by before x xs)
    → (y ≡ x) ⊎ Memᴰ y xs
insert_by-Mem before y x [] m = Memᴰ.cases_cons m
insert_by-Mem before y x (z ∷ zs) m = elim (Bool-cases (before z x)) [
  | inl later ↦ elim (Memᴰ.cases_cons (rw (later, insert_by) at m)) [
    | inl same ↦ inr (Memᴰ.head same)
    | inr rest ↦ elim (insert_by-Mem before y x zs rest) [
      | inl same ↦ inl same
      | inr i ↦ inr (Memᴰ.tail i)
    ]
  ]
  | inr here ↦ Memᴰ.cases_cons (rw (here, insert_by) at m)
]

pub sort_by-Mem {ℓ} :
    {A : Type ℓ} (before : A → A → Bool) (y : A) (xs : List A)
    → Memᴰ y (sort_by before xs)
    → Memᴰ y xs
sort_by-Mem before y [] m = m
sort_by-Mem before y (x ∷ xs) m = elim (insert_by-Mem before y x (sort_by before xs) m) [
  | inl same ↦ Memᴰ.head same
  | inr later ↦ Memᴰ.tail (sort_by-Mem before y xs later)
]

module _ {ℓ} {A : Type ℓ} (f : A → ℕ) where
  -- `f` is no less than at the first of the list, if it has a first.
  abbrev IsAbove : ℕ → List A → Type 0
  IsAbove n [] = ⊥
  IsAbove n (x ∷ xs) = f x ≤ n

  IsAbove-insert_by :
      (n : ℕ) (x : A) (xs : List A)
      → IsAbove n xs ⊎ (f x ≤ n)
      → IsAbove n (insert_by (λ a b. ltb (f a) (f b)) x xs)
  IsAbove-insert_by n x [] (inl none_is) = absurd none_is
  IsAbove-insert_by n x [] (inr le) = le
  IsAbove-insert_by n x (y ∷ ys) h = ground (arith, h)

  IsAbove-sort_by :
      (y : A) (xs : List A) → Memᴰ y xs → IsAbove (f y) (sort_by (λ a b. ltb (f a) (f b)) xs)
  IsAbove-sort_by y [] m = absurd (Memᴰ.not-nil m)
  IsAbove-sort_by y (x ∷ xs) m =
      IsAbove-insert_by (f y) x (sort_by (λ a b. ltb (f a) (f b)) xs) (elim (Memᴰ.cases_cons m) [
        | inl same ↦ inr (subst (λ z. f z ≤ f y) same (omega arith))
        | inr later ↦ inl (IsAbove-sort_by y xs later)
      ])

  pub least-sort_by :
      (h : A) (rest xs : List A)
      → sort_by (λ a b. ltb (f a) (f b)) xs ≡ h ∷ rest
      → (y : A) → Memᴰ y xs
      → f h ≤ f y
  least-sort_by h rest xs e y m = subst (IsAbove (f y)) e (IsAbove-sort_by y xs m)

  pub none-sort_by :
      (xs : List A) → sort_by (λ a b. ltb (f a) (f b)) xs ≡ [] → (y : A) → Memᴰ y xs → ⊥
  none-sort_by xs e y m = subst (IsAbove (f y)) e (IsAbove-sort_by y xs m)
