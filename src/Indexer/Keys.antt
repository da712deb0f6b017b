-- ===== src/Indexer/Keys.antt =====
-- Keys of which none comes twice, as a check that remembers those it has seen finds them.
use ether_state.Prelude.{
  ℕ, ◌≡◌, refl, ap, Bool, true, false, not, List, [], ◌∷◌, any, all, arith, IsDistinct,
}
use ether_state.Prelude.Texts.{same_text, text_eq}

abbrev pub same_as : List ℕ → List ℕ → Bool
same_as k l = same_text l k

-- No key is among those seen, and none comes twice.
abbrev pub AllNew : List (List ℕ) → List (List ℕ) → Type 0
AllNew seen [] = Unit {0}
AllNew seen (k ∷ keys) = (any (same_text k) seen ≡ false) × AllNew (k ∷ seen) keys

AllNew-apart :
    (seen : List (List ℕ)) (k : List ℕ) (keys : List (List ℕ))
    → AllNew seen keys
    → any (same_text k) seen ≡ true
    → any (same_as k) keys ≡ false
AllNew-apart seen k [] new among = refl
AllNew-apart seen k (l ∷ keys) new among = ground (
  arith,
  AllNew-apart (l ∷ seen) k keys new.1 (ground (arith, among)),
  text_eq.beq_iff l k,
  new.0,
  among,
  same k l,
)
  where
    same : (a b : List ℕ) → a ≡ b → any (same_text a) seen ≡ any (same_text b) seen
    same a b e = ap (λ k. any (same_text k) seen) e

pub AllNew-IsDistinct : (seen keys : List (List ℕ)) → AllNew seen keys → IsDistinct same_as keys
AllNew-IsDistinct seen [] new = tt
AllNew-IsDistinct seen (k ∷ keys) new = (
  AllNew-apart (k ∷ seen) k keys new.1 (ground (arith, (text_eq.beq_iff k k).1 refl)),
  AllNew-IsDistinct (k ∷ seen) keys new.1,
)

abbrev are_outside : List (List ℕ) → List (List ℕ) → Bool
are_outside seen keys = all (λ k. not (any (same_text k) seen)) keys

are_outside-cons :
    (seen : List (List ℕ)) (k : List ℕ) (keys : List (List ℕ))
    → are_outside seen keys ≡ true
    → any (same_as k) keys ≡ false
    → are_outside (k ∷ seen) keys ≡ true
are_outside-cons seen k [] out apart = refl
are_outside-cons seen k (l ∷ keys) out apart =
    ground (arith, out, apart, are_outside-cons seen k keys)

IsDistinct-AllNew_outside :
    (seen keys : List (List ℕ))
    → are_outside seen keys ≡ true
    → IsDistinct same_as keys
    → AllNew seen keys
IsDistinct-AllNew_outside seen [] out d = tt
IsDistinct-AllNew_outside seen (k ∷ keys) out d = (
  ground (arith, out),
  IsDistinct-AllNew_outside (k ∷ seen) keys (are_outside-cons seen k keys (ground (arith, out)) d.0)
      d.1,
)

are_outside-nil : (keys : List (List ℕ)) → are_outside [] keys ≡ true
are_outside-nil [] = refl
are_outside-nil (k ∷ keys) = ground (arith, are_outside-nil keys)

pub IsDistinct-AllNew : (keys : List (List ℕ)) → IsDistinct same_as keys → AllNew [] keys
IsDistinct-AllNew keys d = IsDistinct-AllNew_outside [] keys (are_outside-nil keys) d
