-- ===== src/Prelude/JsMap.antt =====
-- The language's `Map`: entries in the order of insertion. `set` on a present key keeps its place.
use Prim.Native.Nat.{ℕ, suc, ◌≤◌}
use mathlib.Core.Path.{◌≡◌, refl}
use mathlib.Core.Logic.{◌↔◌}
use mathlib.Core.Bool.{Bool, true}
use mathlib.Core.Option.{Option, none, some}
use mathlib.Core.List.{List, [], ◌∷◌, ◌++◌}
use native.Mathlib.Omega.{arith}
use ether_state.Prelude.Tests.{◌==◌, ==_iff, if◌then◌else◌}
use ether_state.Prelude.Lists.{length, keep}

pub record Eq {ℓ} (K : Type ℓ) : Type ℓ where
  pub beq : K → K → Bool
  pub beq_iff : (a b : K) → (beq a b ≡ true) ↔ (a ≡ b)

instance abbrev pub nat_eq : Eq ℕ
nat_eq = record { beq = λ a b. a == b; beq_iff = ==_iff }

-- What a test leaves of a value.
abbrev pub when {κ} : {V : Type κ} → (V → Bool) → Option V → Option V
when test none = none
when test (some v) = if test v then some v else none

module _ {ℓ κ} {K : Type ℓ} {V : Type κ} ⦃e : Eq K⦄ where
  abbrev pub get : K → List (K × V) → Option V
  get k [] = none
  get k ((j, v) ∷ m) = if e.beq j k then some v else get k m

  abbrev pub set : K → V → List (K × V) → List (K × V)
  set k v [] = (k, v) ∷ []
  set k v ((j, w) ∷ m) = let rest = (j, w) ∷ set k v m in if e.beq j k then (j, v) ∷ m else rest

  -- A `Map` holds a key once, so this drops one entry at most.
  abbrev pub delete : K → List (K × V) → List (K × V)
  delete k [] = []
  delete k ((j, w) ∷ m) = let rest = delete k m in if e.beq j k then rest else (j, w) ∷ rest

  pub get-set :
      (k j : K) (v : V) (m : List (K × V))
      → get j (set k v m) ≡ (if e.beq k j then some v else get j m)
  get-set k j v [] = refl
  get-set k j v ((i, w) ∷ m) =
      ground (arith, get-set k j v m, e.beq_iff k j, e.beq_iff i k, e.beq_iff i j)

  pub length-set_le : (k : K) (v : V) (m : List (K × V)) → length (set k v m) ≤ suc (length m)
  length-set_le k v [] = omega arith
  length-set_le k v ((j, w) ∷ m) = ground (arith, length-set_le k v m)

  pub get-delete :
      (k j : K) (m : List (K × V)) → get j (delete k m) ≡ (if e.beq k j then none else get j m)
  get-delete k j [] = ground arith
  get-delete k j ((i, w) ∷ m) =
      ground (arith, get-delete k j m, e.beq_iff k j, e.beq_iff i k, e.beq_iff i j)

  pub length-delete_le : (k : K) (m : List (K × V)) → length (delete k m) ≤ length m
  length-delete_le k [] = omega arith
  length-delete_le k ((j, w) ∷ m) = ground (arith, length-delete_le k m)

  pub length-delete_lt :
      (k : K) (v : V) (m : List (K × V)) → get k m ≡ some v → suc (length (delete k m)) ≤ length m
  length-delete_lt k v [] h = cc
  length-delete_lt k v ((j, w) ∷ m) h = ground (arith, length-delete_lt k v m, length-delete_le k m)

  -- A `Map` holds each key once.
  abbrev pub IsMap : List (K × V) → Type κ
  IsMap [] = Unit
  IsMap ((k, v) ∷ m) = (get k m ≡ none) × IsMap m

  pub set-IsMap : (k : K) (v : V) (m : List (K × V)) → IsMap m → IsMap (set k v m)
  set-IsMap k v [] d = (refl, tt)
  set-IsMap k v ((j, w) ∷ m) d =
      ground (arith, set-IsMap k v m d.1, get-set k j v m, e.beq_iff k j, e.beq_iff j k)

  pub get-keep-none :
      (k : K) (test : K × V → Bool) (m : List (K × V)) → get k m ≡ none → get k (keep test m) ≡ none
  get-keep-none k test [] h = h
  get-keep-none k test ((j, w) ∷ m) h = ground (arith, get-keep-none k test m)

  pub get-keep :
      (k : K) (test : K × V → Bool) (m : List (K × V))
      → IsMap m
      → get k (keep test m) ≡ when (λ v. test (k, v)) (get k m)
  get-keep k test [] d = refl
  get-keep k test ((j, w) ∷ m) d =
      ground (arith, get-keep k test m d.1, get-keep-none j test m d.0, e.beq_iff j k)

  pub keep-IsMap : (test : K × V → Bool) (m : List (K × V)) → IsMap m → IsMap (keep test m)
  keep-IsMap test [] d = tt
  keep-IsMap test ((j, w) ∷ m) d = ground (arith, keep-IsMap test m d.1, get-keep-none j test m d.0)

  pub delete-IsMap : (k : K) (m : List (K × V)) → IsMap m → IsMap (delete k m)
  delete-IsMap k [] d = tt
  delete-IsMap k ((j, w) ∷ m) d = ground (arith, delete-IsMap k m d.1, get-delete k j m, d)

  -- A key that is absent comes last.
  pub set-absent :
      (k : K) (v : V) (m : List (K × V)) → get k m ≡ none → set k v m ≡ m ++ (k, v) ∷ []
  set-absent k v [] h = refl
  set-absent k v ((j, w) ∷ m) h = ground (arith, set-absent k v m, h)
