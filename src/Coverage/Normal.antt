-- ===== src/Coverage/Normal.antt =====
-- The normal form of coverage: ranges in order that neither overlap nor touch.
use ether_state.Prelude.{
  ℕ, ◌+◌, ◌≤◌, ◌≡◌, subst, ◌∙◌, List, [], ◌∷◌, ◌++◌, reverse, reverse-cons, append-nil,
  append_assoc, arith, ap,
}
use ether_state.Coverage.{BlockRange}

-- Ascending, from `low` on, with a gap after each range.
abbrev pub Ascends : ℕ → List BlockRange → Type 0
Ascends low [] = Unit {0}
Ascends low (range ∷ rest) =
    (low ≤ range.from) × (range.from ≤ range.through) × Ascends (range.through + 2) rest

abbrev pub IsNormal : List BlockRange → Type 0
IsNormal ranges = Ascends 0 ranges

-- The same of a list that is built last first: each range ends before `high - 1`.
abbrev pub Descends : ℕ → List BlockRange → Type 0
Descends high [] = Unit {0}
Descends high (range ∷ rest) =
    (range.through + 2 ≤ high) × (range.from ≤ range.through) × Descends range.from rest

pub Ascends-mono :
    {low low' : ℕ} (rs : List BlockRange) → low' ≤ low → Ascends low rs → Ascends low' rs
Ascends-mono [] h a = tt
Ascends-mono (r ∷ rs) h a = (omega arith, a.1, a.2)

pub Descends-mono :
    {high high' : ℕ} (rs : List BlockRange) → high ≤ high' → Descends high rs → Descends high' rs
Descends-mono [] h d = tt
Descends-mono (r ∷ rs) h d = (omega arith, d.1, d.2)

reverse-step :
    (r : BlockRange) (rs ys : List BlockRange) → reverse (r ∷ rs) ++ ys ≡ reverse rs ++ r ∷ ys
reverse-step r rs ys = ap (λ l. l ++ ys) (reverse-cons r rs) ∙ append_assoc (reverse rs) (r ∷ []) ys

reverse-Ascends_onto :
    (high : ℕ) (rs ys : List BlockRange)
    → Descends high rs
    → Ascends high ys
    → Ascends 0 (reverse rs ++ ys)
reverse-Ascends_onto high [] ys d a = Ascends-mono ys (omega arith) a
reverse-Ascends_onto high (r ∷ rs) ys d a = rw (reverse-step r rs ys) (
    reverse-Ascends_onto r.from rs (r ∷ ys) d.2 (omega arith, d.1, Ascends-mono ys (omega arith) a))

pub reverse-IsNormal : (high : ℕ) (rs : List BlockRange) → Descends high rs → IsNormal (reverse rs)
reverse-IsNormal high rs d =
    subst (Ascends 0) (append-nil (reverse rs)) (reverse-Ascends_onto high rs [] d tt)

reverse-Descends_onto :
    (low : ℕ) (rs ys : List BlockRange)
    → Ascends low rs
    → Descends low ys
    → (high : ℕ) × Descends high (reverse rs ++ ys)
reverse-Descends_onto low [] ys a d = (low, d)
reverse-Descends_onto low (r ∷ rs) ys a d = rw (reverse-step r rs ys) (
    reverse-Descends_onto (r.through + 2) rs (r ∷ ys) a.2
      (omega arith, a.1, Descends-mono ys a.0 d))

pub reverse-Descends :
    (rs : List BlockRange) → IsNormal rs → (high : ℕ) × Descends high (reverse rs)
reverse-Descends rs a =
    let (high, d) = reverse-Descends_onto 0 rs [] a tt in
    (high, subst (Descends high) (append-nil (reverse rs)) d)
