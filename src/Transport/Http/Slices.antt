-- ===== src/Transport/Http/Slices.antt =====
-- A batch cut to the limit.
use native.Mathlib.Omega.{div_any}
use native.Mathlib.Nat.{mod-lt}
use ether_state.Prelude.{
  length-take_le, length-drop, ℕ, zero, suc, ◌+◌, ◌-◌, ◌*◌, ◌≤◌, ◌≡◌, refl, ap, ◌∙◌, List, [], ◌∷◌,
  ◌++◌, length, take, drop, arith,
}
use ether_state.Transport.Http.{WireRequest, slices, ceil_div}

abbrev pub concat {ℓ} : {A : Type ℓ} → List (List A) → List A
concat [] = []
concat (xs ∷ xss) = xs ++ concat xss

take-drop : {A : Type 0} (n : ℕ) (xs : List A) → take n xs ++ drop n xs ≡ xs
take-drop zero xs = refl
take-drop (suc n) [] = refl
take-drop (suc n) (x ∷ xs) = ap (λ ys. x ∷ ys) (take-drop n xs)

-- The slices are of the whole, and none is longer than `size`.
pub concat-slices :
    {A : Type 0} (count size : ℕ) (xs : List A)
    → length xs ≤ count * size
    → concat (slices count size xs) ≡ xs
concat-slices zero size [] le = refl
concat-slices zero size (x ∷ xs) le = absurd (omega (arith, le))
concat-slices (suc count) size xs le =
    let rest = concat-slices count size (drop size xs) (omega (arith, le, length-drop size xs)) in
    ap (λ ys. take size xs ++ ys) rest ∙ take-drop size xs

pub le-ceil_div : (n size : ℕ) → 1 ≤ size → n ≤ ceil_div n size * size
le-ceil_div n size pos =
    omega (arith, pos, div_any (n + size - 1) size, mod-lt (n + size - 1) {m = size} pos)

abbrev pub AllFit : ℕ → List (List WireRequest) → Type 0
AllFit size [] = Unit {0}
AllFit size (chunk ∷ chunks) = (length chunk ≤ size) × AllFit size chunks

pub slices-AllFit : (count size : ℕ) (xs : List WireRequest) → AllFit size (slices count size xs)
slices-AllFit zero size xs = tt
slices-AllFit (suc count) size xs =
    (length-take_le size xs, slices-AllFit count size (drop size xs))
