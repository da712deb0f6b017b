-- ===== src/History/Fetch/Split.antt =====
-- `streamRange` ends, and its pages tile the range.
use mathlib.Core.List.{map-append}
use ether_state.Prelude.{
  ℕ, zero, suc, ◌+◌, ◌/◌, ◌≤◌, ◌<◌, ◌≡◌, refl, sym, subst, Bool, not, ◌||◌, none, some, List, [],
  ◌∷◌, ◌++◌, map, ◌==◌, Bool-cases, Option-cases, ◌⊎◌, inl, inr, arith,
}
use ether_state.Coverage.{BlockRange}
use ether_state.Rpc.{RpcLog}
use ether_state.Rpc.Errors.{ClientError}
use ether_state.History.{Direction, forward, backward}
use ether_state.History.Logs.{normalize_logs}
use ether_state.History.Ranges.{Tiles, TilesDown}
use ether_state.History.Fetch.{
  Reply, answered, failed, HistoryError, Page, Run, fails_with, historical_range_unavailable,
  invalid_historical_log, concat, should_split, should_retry, fetch_retrying, page_of, join_halves,
  stream_range,
}

abbrev pub spans : List Page → List BlockRange
spans = map (λ p. p.range)

abbrev pub Each {ℓ} : {A : Type ℓ} → (A → Type 0) → List A → Type 0
Each P [] = Unit {0}
Each P (x ∷ xs) = P x × Each P xs

pub Each-append {ℓ} :
    {A : Type ℓ} (P : A → Type 0) (xs ys : List A) → Each P xs → Each P ys → Each P (xs ++ ys)
Each-append P [] ys a b = b
Each-append P (x ∷ xs) ys a b = (a.0, Each-append P xs ys a.1 b)

pub Tiles-append :
    (size a b c : ℕ) (rs ss : List BlockRange)
    → Tiles size a b rs
    → Tiles size b c ss
    → Tiles size a c (rs ++ ss)
Tiles-append size a b c [] ss t u = subst (λ s. Tiles size s c ss) (sym t) u
Tiles-append size a b c (r ∷ rs) ss t u =
    (t.0, t.1, t.2, Tiles-append size (r.through + 1) b c rs ss t.3 u)

pub TilesDown-append :
    (size a b c : ℕ) (rs ss : List BlockRange)
    → TilesDown size b c rs
    → TilesDown size a b ss
    → TilesDown size a c (rs ++ ss)
TilesDown-append size a b c [] ss t u = subst (λ s. TilesDown size a s ss) t u
TilesDown-append size a b c (r ∷ rs) ss t u =
    (t.0, t.1, t.2, TilesDown-append size a b r.from rs ss t.3 u)

-- The page is the normalised answer of the provider to a request of exactly its range.
abbrev pub IsAnswer : (BlockRange → ℕ → Reply) → Page → Type 0
IsAnswer fetch page =
    (attempt : ℕ) × (logs : List RpcLog) × (fetch page.range attempt ≡ answered logs)
    × (normalize_logs page.range logs ≡ some page.logs)

-- The pages tile the range from its first end on; up to its other end, if the run completes.
abbrev pub Fills : Direction → ℕ → BlockRange → Run → Type 0
Fills forward size range run =
    (stop : ℕ) × Tiles size range.from stop (spans run.pages)
    × (stop ≤ range.through + 1)
    × (run.ended ≡ none → stop ≡ range.through + 1)
Fills backward size range run =
    (start : ℕ) × TilesDown size start (range.through + 1) (spans run.pages)
    × (range.from ≤ start)
    × (run.ended ≡ none → start ≡ range.from)

Reply-cases :
    (r : Reply) → ((ls : List RpcLog) × (r ≡ answered ls)) ⊎ ((e : ClientError) × (r ≡ failed e))
Reply-cases (answered ls) = inl (ls, refl)
Reply-cases (failed e) = inr (e, refl)

record IsFaithful (fetch : BlockRange → ℕ → Reply) (direction : Direction) (size : ℕ)
    (range : BlockRange) (run : Run) : Type 0 where
  fills : Fills direction size range run
  answers : Each (IsAnswer fetch) run.pages

module _ (split_message : ℕ → Bool) (fetch : BlockRange → ℕ → Reply) (size : ℕ) where
  fetch_retrying_answer :
      (range : BlockRange) (times attempts : ℕ) (logs : List RpcLog)
      → fetch_retrying split_message (fetch range) times attempts ≡ answered logs
      → (attempt : ℕ) × (fetch range attempt ≡ answered logs)
  unfolding fetch_retrying
  fetch_retrying_answer range zero attempts logs e = (attempts, e)
  fetch_retrying_answer range (suc times) attempts logs e =
      elim (Reply-cases (fetch range attempts)) [
        | inl (ls, r) ↦ (attempts, ground (arith, rw (r, fetch_retrying) at e))
        | inr (error, r) ↦ elim (Bool-cases (should_retry split_message error)) [
          | inl again ↦
              fetch_retrying_answer range times (attempts + 1) logs
                (rw (r, fetch_retrying, again) at e)
          | inr give_up ↦ absurd (cc (rw (r, fetch_retrying, give_up) at e))
        ]
      ]

  fails-IsFaithful :
      (direction : Direction) (range : BlockRange) (error : HistoryError)
      → range.from ≤ range.through
      → IsFaithful fetch direction size range (fails_with error)
  fails-IsFaithful forward range error h = record {
    fills = (range.from, refl, omega arith, λ e. cc);
    answers = tt;
  }
  fails-IsFaithful backward range error h = record {
    fills = (range.through + 1, refl, omega arith, λ e. cc);
    answers = tt;
  }

  one_page-Fills :
      (direction : Direction) (page : Page)
      → page.range.from ≤ page.range.through
      → page.range.through + 1 ≤ page.range.from + size
      → Fills direction size page.range (record { pages = page ∷ []; ended = none })
  one_page-Fills forward page h k =
      (page.range.through + 1, (refl, h, k, refl), omega arith, λ e. refl)
  one_page-Fills backward page h k = (page.range.from, (refl, h, k, refl), omega arith, λ e. refl)

  page_of-IsFaithful :
      (direction : Direction) (range : BlockRange) (logs : List RpcLog) (attempt : ℕ)
      → range.from ≤ range.through
      → range.through + 1 ≤ range.from + size
      → fetch range attempt ≡ answered logs
      → IsFaithful fetch direction size range (page_of split_message range logs)
  unfolding page_of
  page_of-IsFaithful direction range logs attempt h k e =
      elim (Option-cases (normalize_logs range logs)) [
        | inl bad ↦
            rw (bad, page_of) (fails-IsFaithful direction range (invalid_historical_log range) h)
        | inr (out, good) ↦
            rw (good, page_of)
              (record {
                fills = one_page-Fills direction (record { range = range; logs = out }) h k;
                answers = ((attempt, logs, e, good), tt);
              })
      ]

  -- The runs over the two halves of a range give a run over the range.
  concat_up-IsFaithful :
      (range : BlockRange) (middle : ℕ) (a b : Run)
      → middle < range.through
      → IsFaithful fetch forward size (record { from = range.from; through = middle }) a
      → IsFaithful fetch forward size (record { from = middle + 1; through = range.through }) b
      → IsFaithful fetch forward size range (concat a b)
  unfolding concat
  concat_up-IsFaithful range middle a b lt f g = elim (Option-cases a.ended) [
    | inr (error, e) ↦
        rw (e, concat)
          (record {
            fills = (f.fills.0, f.fills.1, omega (arith, f.fills.2), λ n. cc);
            answers = f.answers;
          })
    | inl done ↦
        rw (done, concat)
          (record {
            fills = (
              g.fills.0,
              rw map-append (
                  Tiles-append size range.from (middle + 1) g.fills.0 (spans a.pages)
                    (spans b.pages)
                    (subst (λ s. Tiles size range.from s (spans a.pages)) (f.fills.3 done)
                      f.fills.1)
                    g.fills.1),
              g.fills.2,
              g.fills.3,
            );
            answers = Each-append (IsAnswer fetch) a.pages b.pages f.answers g.answers;
          })
  ]

  concat_down-IsFaithful :
      (range : BlockRange) (middle : ℕ) (a b : Run)
      → range.from ≤ middle
      → IsFaithful fetch backward size (record { from = range.from; through = middle }) a
      → IsFaithful fetch backward size (record { from = middle + 1; through = range.through }) b
      → IsFaithful fetch backward size range (concat b a)
  unfolding concat
  concat_down-IsFaithful range middle a b le f g = elim (Option-cases b.ended) [
    | inr (error, e) ↦
        rw (e, concat)
          (record {
            fills = (g.fills.0, g.fills.1, omega (arith, g.fills.2), λ n. cc);
            answers = g.answers;
          })
    | inl done ↦
        rw (done, concat)
          (record {
            fills = (
              f.fills.0,
              rw map-append (
                  TilesDown-append size f.fills.0 (middle + 1) (range.through + 1) (spans b.pages)
                    (spans a.pages)
                    (subst (λ s. TilesDown size s (range.through + 1) (spans b.pages))
                      (g.fills.3 done) g.fills.1)
                    f.fills.1),
              f.fills.2,
              f.fills.3,
            );
            answers = Each-append (IsAnswer fetch) b.pages a.pages g.answers f.answers;
          })
  ]

  join_halves-IsFaithful :
      (direction : Direction) (range : BlockRange) (middle : ℕ) (lower upper : Run)
      → range.from ≤ middle
      → middle < range.through
      → IsFaithful fetch direction size (record { from = range.from; through = middle }) lower
      → IsFaithful fetch direction size
          (record { from = middle + 1; through = range.through })
          upper
      → (run : Run) × (join_halves split_message direction (some lower) (some upper) ≡ some run)
        × IsFaithful fetch direction size range run
  unfolding join_halves
  join_halves-IsFaithful forward range middle lower upper le lt f g =
      (concat lower upper, refl, concat_up-IsFaithful range middle lower upper lt f g)
  join_halves-IsFaithful backward range middle lower upper le lt f g =
      (concat upper lower, refl, concat_down-IsFaithful range middle lower upper le f g)

  stream_range-IsFaithful :
      (direction : Direction) (fuel : ℕ) (range : BlockRange)
      → range.from ≤ range.through
      → range.through + 1 ≤ range.from + size
      → range.through < range.from + fuel
      → (run : Run) × (stream_range split_message fetch direction fuel range ≡ some run)
        × IsFaithful fetch direction size range run
  unfolding stream_range
  stream_range-IsFaithful direction zero range h k f =
      (fails_with (invalid_historical_log range), absurd (omega arith), absurd (omega arith))
  stream_range-IsFaithful direction (suc fuel) range h k f =
      elim (Reply-cases (fetch_retrying split_message (fetch range) 2 0)) [
        | inl (logs, r) ↦
            let (attempt, e) = fetch_retrying_answer range 2 0 logs r in
            (
              page_of split_message range logs,
              rw (r, stream_range),
              page_of-IsFaithful direction range logs attempt h k e,
            )
        | inr (error, r) ↦
            elim (Bool-cases
              (not (should_split split_message error) || range.from == range.through)) [
                | inl give_up ↦ (
                  fails_with (historical_range_unavailable range error),
                  rw (r, stream_range, give_up),
                  fails-IsFaithful direction range (historical_range_unavailable range error) h,
                )
                | inr split ↦
                    let middle : ℕ = (range.from + range.through) / 2 in
                    let distinct : range.from < range.through = ground arith in
                    let (lower, e, fl) =
                      stream_range-IsFaithful direction fuel
                        (record { from = range.from; through = middle }) (omega arith) (omega arith)
                        (omega arith) in
                    let (upper, e', fu) =
                      stream_range-IsFaithful direction fuel
                        (record { from = middle + 1; through = range.through }) (omega arith)
                        (omega arith) (omega arith) in
                    let (run, joined, faithful) =
                      join_halves-IsFaithful direction range middle lower upper (omega arith)
                        (omega arith) fl fu in
                    (run, rw (r, stream_range, split, e, e') joined, faithful)
              ]
      ]

-- With fuel for as many levels as the range has blocks, `streamRange` comes to an end, whatever
-- the provider answers. Its pages follow one another without gap in the given direction, from the
-- range's first end on (its last block, for `backward`); where no error ended the run they fill the
-- range. No page has more than `size` blocks where the range has no more, and each page is the
-- normalised answer of the provider to a request of exactly its blocks.
pub stream_range_lem :
    (split_message : ℕ → Bool) (fetch : BlockRange → ℕ → Reply) (direction : Direction)
    (size fuel : ℕ) (range : BlockRange)
    → range.from ≤ range.through
    → range.through + 1 ≤ range.from + size
    → range.through < range.from + fuel
    → (run : Run) × (stream_range split_message fetch direction fuel range ≡ some run)
      × Fills direction size range run
      × Each (IsAnswer fetch) run.pages
stream_range_lem split_message fetch direction size fuel range h k f =
    let (run, e, faithful) =
      stream_range-IsFaithful split_message fetch size direction fuel range h k f in
    (run, e, faithful.fills, faithful.answers)
