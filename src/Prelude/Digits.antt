-- ===== src/Prelude/Digits.antt =====
-- `toString` and `BigInt` of numbers that are not negative, on lists of characters' codes. Of the
-- numerals that `BigInt` reads, only the decimal ones, and the empty one.
use Prim.Native.Nat.{ℕ, zero, suc, ◌+◌, ◌-◌, ◌*◌, ◌/◌, ◌%◌, ◌≤◌, ◌<◌}
use mathlib.Core.Path.{◌≡◌}
use mathlib.Core.Logic.{inl, inr}
use mathlib.Core.Bool.{Bool, ◌&&◌}
use mathlib.Core.Option.{Option, none, some}
use mathlib.Core.List.{List, [], ◌∷◌, ◌++◌}
use native.Mathlib.Omega.{arith}
use ether_state.Prelude.Tests.{ltb, leb, if◌then◌else◌, Bool-cases}

-- A number has fewer digits than its successor counts.
unfoldable pub digits : ℕ → ℕ → List ℕ
digits zero n = []
digits (suc fuel) n =
    let rest = digits fuel (n / 10) in
    if ltb n 10 then (48 + n) ∷ [] else rest ++ (48 + n % 10) ∷ []

unfoldable pub to_string : ℕ → List ℕ
unfolding digits
to_string n = digits (suc n) n

abbrev is_digit : ℕ → Bool
is_digit c = leb 48 c && leb c 57

unfoldable pub from_digits : ℕ → List ℕ → Option ℕ
from_digits value [] = some value
from_digits value (c ∷ cs) =
    let rest = from_digits (value * 10 + (c - 48)) cs in if is_digit c then rest else none

unfoldable pub big_int : List ℕ → Option ℕ
unfolding from_digits
big_int cs = from_digits 0 cs

from_digits-append :
    (value m d : ℕ) (cs : List ℕ)
    → d < 10
    → from_digits value cs ≡ some m
    → from_digits value (cs ++ (48 + d) ∷ []) ≡ some (m * 10 + d)
unfolding from_digits
from_digits-append value m d [] l h = let same : value ≡ m = cc h in ground (arith, l, same)
from_digits-append value m d (c ∷ cs) l h =
    ground (arith, h, from_digits-append (value * 10 + (c - 48)) m d cs l)

from_digits-digits : (fuel n : ℕ) → n ≤ fuel → from_digits 0 (digits (suc fuel) n) ≡ some n
unfolding from_digits digits
from_digits-digits zero n l = ground (arith, l)
from_digits-digits (suc fuel) n l = elim (Bool-cases (ltb n 10)) [
  | inl small ↦ ground (arith, small)
  | inr large ↦
      let rest = from_digits-digits fuel (n / 10) (ground (arith, l, large)) in
      let whole =
        from_digits-append 0 (n / 10) (n % 10) (digits (suc fuel) (n / 10)) (omega arith) rest in
      ground (arith, large, whole)
]

pub big_int-to_string : (n : ℕ) → big_int (to_string n) ≡ some n
unfolding big_int to_string
big_int-to_string n = from_digits-digits n n (omega arith)
