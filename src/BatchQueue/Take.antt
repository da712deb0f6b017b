-- ===== src/BatchQueue/Take.antt =====
-- What a batch holds.
use mathlib.Core.List.{append_assoc}
use ether_state.Prelude.{
  ◌≤◌, ◌<◌, ◌≡◌, refl, subst, Bool, true, false, ◌&&◌, ◌⊎◌, inl, inr, List, [], ◌∷◌, ◌++◌, ltb, leb,
  length, length-append, Bool-cases, arith,
}
use ether_state.BatchQueue.{Options, Pending, weight_of, exceeds, take_more, take_batch}

-- A batch is too heavy if its weight is over the bound.
abbrev pub is_heavy : Options → List Pending → Bool
is_heavy options entries = exceeds options.max_weight ltb (weight_of options entries)

-- Why nothing more was taken.
abbrev pub Stops : Options → List Pending → List Pending → Type 0
Stops options batch [] = Unit {0}
Stops options batch (e ∷ rest) =
    (length batch ≡ options.size) ⊎ (is_heavy options (batch ++ e ∷ []) ≡ true)

pub record IsBatch (options : Options) (pending batch : List Pending) : Type 0 where
  pub rest : List Pending
  pub is_prefix : pending ≡ batch ++ rest
  pub bounded : length batch ≤ options.size
  pub light : (length batch ≤ 1) ⊎ (is_heavy options batch ≡ false)
  pub stops : Stops options batch rest

take_more-IsBatch :
    (options : Options) (selected pending : List Pending)
    → 1 ≤ options.size
    → length selected ≤ options.size
    → (length selected ≤ 1) ⊎ (is_heavy options selected ≡ false)
    → IsBatch options (selected ++ pending) (take_more options selected pending)
unfolding take_more
take_more-IsBatch options selected [] pos h light = record {
  rest = [];
  is_prefix = refl;
  bounded = h;
  light = light;
  stops = tt;
}
take_more-IsBatch options selected (e ∷ pending) pos h light =
    elim (Bool-cases (leb options.size (length selected))) [
      | inl full ↦
          rw (full, take_more)
            (record {
              rest = e ∷ pending;
              is_prefix = refl;
              bounded = h;
              light = light;
              stops = inl (ground (arith, full, h));
            })
      | inr room ↦
          elim (Bool-cases (ltb 0 (length selected) && is_heavy options (selected ++ e ∷ []))) [
            | inl heavy ↦
                rw (room, heavy, take_more)
                  (record {
                    rest = e ∷ pending;
                    is_prefix = refl;
                    bounded = h;
                    light = light;
                    stops = inr (ground (arith, heavy));
                  })
            | inr fits ↦
                rw (room, fits, take_more)
                  (subst (λ l. IsBatch options l (take_more options (selected ++ e ∷ []) pending))
                    (append_assoc selected (e ∷ []) pending)
                    (take_more-IsBatch options (selected ++ e ∷ []) pending pos
                      (ground (arith, room, length-append selected (e ∷ [])))
                      (ground (arith, fits, length-append selected (e ∷ [])))))
          ]
    ]

take_more-le :
    (options : Options) (selected pending : List Pending)
    → length selected ≤ length (take_more options selected pending)
unfolding take_more
take_more-le options selected [] = omega arith
take_more-le options selected (e ∷ pending) =
    ground
      (arith, take_more-le options (selected ++ e ∷ []) pending, length-append selected (e ∷ []))

take_batch-le :
    (options : Options) (pending : List Pending)
    → 1 ≤ options.size
    → 0 < length pending
    → 0 < length (take_batch options pending)
unfolding take_batch take_more
take_batch-le options [] pos h = h
take_batch-le options (e ∷ pending) pos h = ground (arith, take_more-le options (e ∷ []) pending)

-- Where a batch may have at least one entry: a batch is the start of the pending entries, is empty
-- only if nothing is pending, has no more than `size` entries, and is not over the weight bound
-- unless it is one entry; and it stops only at the end, at `size` entries, or where the next entry
-- would make it too heavy.
pub take_batch_lem :
    (options : Options) (pending : List Pending)
    → 1 ≤ options.size
    → IsBatch options pending (take_batch options pending)
      × (0 < length pending → 0 < length (take_batch options pending))
unfolding take_batch take_more
take_batch_lem options pending pos = (
  take_more-IsBatch options [] pending pos (omega arith) (inl (omega arith)),
  λ h. take_batch-le options pending pos h,
)
