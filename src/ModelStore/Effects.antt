-- ===== src/ModelStore/Effects.antt =====
-- What `commit`, `invalidate` and `retain` do to each instance, block by block and row by row.
use ether_state.Prelude.{
  ℕ, ◌+◌, ◌<◌, ◌≡◌, ◌↔◌, ◌⊎◌, refl, sym, subst, ap, ◌∙◌, Bool, true, false, not, ◌&&◌, ◌||◌, Option,
  none, some, List, [], ◌∷◌, ◌++◌, leb, ◌==◌, ==_iff, if◌then◌else◌, keep, all, any-append,
  all-append, Bool-cases, Option-cases, inl, inr, arith,
}
use ether_state.Prelude.JsMap
use ether_state.Prelude.JsMap.{Eq, nat_eq, IsMap, when}
use ether_state.Coverage.{BlockRange, contains, covers}
use ether_state.Coverage.Normal.{Ascends}
use ether_state.Coverage.Merge.{is_valid, merge_block_ranges_lem}
use ether_state.Prelude.Texts.{text_eq, same_text}
use ether_state.ModelStore.{
  ModelBatch, ProjectionRow, ModelCommit, ModelRetention, Store, or_empty, coverage_of, batches_of,
  rows_of, row_key, put_batches, put_rows, proven_ranges, commit, update, cut_below, is_retained,
  retain, Period, open_period, closed, state, RowCoverage, partial, complete,
}
use ether_state.ModelStore.Sound.{IsSound, of-set, of-update-keep}

some_eq : {A : Type 0} {a b : A} → some a ≡ some b → a ≡ b
some_eq e = cc e

covers-cut_below :
    (n from : ℕ) (ranges : List BlockRange)
    → covers n (cut_below from ranges) ≡ (covers n ranges && leb from n)
covers-cut_below n from [] = refl
covers-cut_below n from (r ∷ rs) = ground (arith, covers-cut_below n from rs)

-- The last of `batches` with number `n`, or else `old`.
abbrev pub last_batch : ℕ → Option ModelBatch → List ModelBatch → Option ModelBatch
last_batch n old [] = old
last_batch n old (b ∷ rest) = last_batch n (if b.block.number == n then some b else old) rest

abbrev pub last_row : List ℕ → Option ProjectionRow → List ProjectionRow → Option ProjectionRow
last_row k old [] = old
last_row k old (r ∷ rest) = last_row k (if same_text (row_key r) k then some r else old) rest

get-put_batches :
    (n : ℕ) (batches : List ModelBatch) (m : List (ℕ × ModelBatch))
    → JsMap.get n (put_batches batches m) ≡ last_batch n (JsMap.get n m) batches
get-put_batches n [] m = refl
get-put_batches n (b ∷ rest) m =
    get-put_batches n rest (JsMap.set b.block.number b m)
    ∙ ap (λ old. last_batch n old rest) (JsMap.get-set b.block.number n b m)

get-put_rows :
    (k : List ℕ) (rows : List ProjectionRow) (m : List (List ℕ × ProjectionRow))
    → JsMap.get k (put_rows rows m) ≡ last_row k (JsMap.get k m) rows
get-put_rows k [] m = refl
get-put_rows k (r ∷ rest) m =
    get-put_rows k rest (JsMap.set (row_key r) r m)
    ∙ ap (λ old. last_row k old rest) (JsMap.get-set (row_key r) k r m)

abbrev pub Adds : ℕ → ModelCommit → Store → Store → Type 0
Adds id c s s' =
    ((j n : ℕ)
      → covers n (coverage_of j s')
        ≡ (covers n (coverage_of j s) || (id == j && covers n (proven_ranges c c.proven))))
    × ((j n : ℕ)
        → JsMap.get n (batches_of j s')
          ≡ last_batch n (JsMap.get n (batches_of j s)) (if id == j then c.batches else []))
    × ((j : ℕ) (k : List ℕ)
        → JsMap.get k (rows_of j s')
          ≡ last_row k (JsMap.get k (rows_of j s)) (if id == j then c.rows else []))

IsNormal-valid :
    (low : ℕ) (ranges : List BlockRange) → Ascends low ranges → all is_valid ranges ≡ true
IsNormal-valid low [] a = refl
IsNormal-valid low (r ∷ rs) a = ground (arith, a, IsNormal-valid (r.through + 2) rs a.2)

-- A commit fails exactly when a range of it ends before it starts. One that succeeds adds its ranges
-- to the coverage of the instance, replaces the batches and rows whose keys it has by the last it
-- has under that key, and leaves the other batches, the other rows and the other instances.
pub commit_lem :
    (id : ℕ) (c : ModelCommit) (s : Store)
    → IsSound s
    → (all is_valid (proven_ranges c c.proven) ≡ false → commit id c s ≡ none)
      × (all is_valid (proven_ranges c c.proven) ≡ true
          → (s' : Store) × (commit id c s ≡ some s') × Adds id c s s')
unfolding commit
commit_lem id c s h = (fails, succeeds)
  where
    proven : List BlockRange
    proven = proven_ranges c c.proven

    ranges : List BlockRange
    ranges = coverage_of id s ++ proven

    same : all is_valid ranges ≡ all is_valid proven
    same =
        all-append is_valid (coverage_of id s) proven
        ∙ ap (λ b. b && all is_valid proven) (IsNormal-valid 0 (coverage_of id s) (h.normal id))

    fails : all is_valid proven ≡ false → commit id c s ≡ none
    fails bad = rw ((merge_block_ranges_lem ranges).0 (same ∙ bad), commit) refl

    succeeds :
        all is_valid proven ≡ true → (s' : Store) × (commit id c s ≡ some s') × Adds id c s s'
    succeeds good =
        let (spans, e, _, cover) = (merge_block_ranges_lem ranges).1 (same ∙ good) in
        (
          record s {
            batches = JsMap.set id (put_batches c.batches (batches_of id s)) s.batches;
            rows = JsMap.set id (put_rows c.rows (rows_of id s)) s.rows;
            coverage = JsMap.set id spans s.coverage;
          },
          rw (e, commit) refl,
          (
            λ j n. ground (
              arith,
              ap (covers n) (of-set id j spans s.coverage),
              cover n,
              any-append (contains n) (coverage_of id s) proven,
              ==_iff id j,
            ),
            λ j n. ground (
              arith,
              ap (JsMap.get n) (of-set id j (put_batches c.batches (batches_of id s)) s.batches),
              get-put_batches n c.batches (batches_of id s),
              ==_iff id j,
            ),
            λ j k. ground (
              arith,
              ap (JsMap.get k) (of-set id j (put_rows c.rows (rows_of id s)) s.rows),
              get-put_rows k c.rows (rows_of id s),
              ==_iff id j,
            ),
          ),
        )

-- What passes a test stays, in one instance.
kept-at :
    {K V : Type 0} ⦃e : JsMap.Eq K⦄ (id j : ℕ) (k : K) (test : K × V → Bool)
    (m : List (ℕ × List (K × V)))
    → IsMap (or_empty (JsMap.get j m))
    → JsMap.get k (or_empty (JsMap.get j (update id (keep test) m)))
      ≡ when (λ v. not (id == j) || test (k, v)) (JsMap.get k (or_empty (JsMap.get j m)))
kept-at id j k test m d = elim (Bool-cases (id == j)) [
  | inl here ↦ ground (
    arith,
    here,
    ap (JsMap.get k) (of-update-keep id j test m),
    JsMap.get-keep k test (or_empty (JsMap.get j m)) d,
  )
  | inr other ↦ elim (Option-cases (JsMap.get k (or_empty (JsMap.get j m)))) [
    | inl missing ↦ ground (arith, other, missing, ap (JsMap.get k) (of-update-keep id j test m))
    | inr (v, there) ↦ ground (arith, other, there, ap (JsMap.get k) (of-update-keep id j test m))
  ]
]

-- What stays of the rows: a state, or what is closed and complete and does not end by `from_time`.
abbrev pub StaysFrom : ℕ → Period → RowCoverage → Option ℕ → Type 0
StaysFrom from_time period row_coverage end_time =
    (period ≡ state)
    ⊎ ((period ≡ closed)
        × (row_coverage ≡ complete)
        × ((end : ℕ) → end_time ≡ some end → from_time < end))

is_retained-StaysFrom :
    (t : ℕ) (p : Period) (c : RowCoverage) (e : Option ℕ)
    → (is_retained t p c e ≡ true) ↔ StaysFrom t p c e
is_retained-StaysFrom t state c e = (λ _. inl refl, λ _. refl)
is_retained-StaysFrom t closed complete none =
    (λ _. inr (refl, refl, λ end h. absurd (cc h)), λ _. refl)
is_retained-StaysFrom t closed complete (some end) = (
  λ h. inr (refl, refl, λ end' e. ground (arith, h, e)),
  λ h. elim h [
    | inl other ↦ absurd (cc other)
    | inr (_, _, later) ↦ ground (arith, later end refl)
  ],
)
is_retained-StaysFrom t closed partial e = (
  λ h. absurd (cc h),
  λ h. elim h [ inl other ↦ absurd (cc other) | inr (_, other, _) ↦ absurd (cc other) ],
)
is_retained-StaysFrom t open_period c e = (
  λ h. absurd (cc h),
  λ h. elim h [ inl other ↦ absurd (cc other) | inr (other, _, _) ↦ absurd (cc other) ],
)

-- What `when` lets through.
when_iff :
    {V : Type 0} (test : V → Bool) (o : Option V) (v : V)
    → (when test o ≡ some v) ↔ ((o ≡ some v) × (test v ≡ true))
when_iff test none v = (λ h. absurd (cc h), λ h. h.0)
when_iff test (some w) v = elim (Bool-cases (test w)) [
  | inl passes ↦ rw passes (λ h. (h, subst (λ x. test x ≡ true) (some_eq h) passes), λ h. h.0)
  | inr fails ↦ rw fails (
    λ h. absurd (cc h),
    λ h. absurd (cc (fails, subst (λ x. test x ≡ true) (sym (some_eq h.0)) h.1)),
  )
]

retained_row :
    (id j : ℕ) (r : ModelRetention) (row : ProjectionRow)
    → ((not (id == j) || is_retained r.from_time row.period row.row_coverage row.end_time) ≡ true)
      ↔ (id ≡ j → StaysFrom r.from_time row.period row.row_coverage row.end_time)
retained_row id j r row =
    let stays = is_retained-StaysFrom r.from_time row.period row.row_coverage row.end_time in
    elim (Bool-cases (id == j)) [
      | inl here ↦ rw here (λ h _. stays.0 h, λ h. stays.1 (h ((==_iff id j).0 here)))
      | inr other ↦ rw other (λ _ e. absurd (ground (arith, other, e)), λ _. refl)
    ]

-- `retain` takes the blocks before `from_block` out of the coverage and the batches of the instance.
-- Of its rows it keeps, as they are, the states, and those closed and complete ones that are open-ended
-- or end after `from_time`, and no others. It leaves the other instances.
pub retain_lem :
    (id : ℕ) (r : ModelRetention) (s : Store)
    → IsSound s
    → ((j n : ℕ)
        → covers n (coverage_of j (retain id r s))
          ≡ (covers n (coverage_of j s) && (not (id == j) || leb r.from_block n)))
      × ((j n : ℕ)
          → JsMap.get n (batches_of j (retain id r s))
            ≡ when (λ _. not (id == j) || leb r.from_block n) (JsMap.get n (batches_of j s)))
      × ((j : ℕ) (k : List ℕ) (row : ProjectionRow)
          → (JsMap.get k (rows_of j (retain id r s)) ≡ some row) ↔ (
              (JsMap.get k (rows_of j s) ≡ some row)
              × (id ≡ j → StaysFrom r.from_time row.period row.row_coverage row.end_time)))
unfolding retain
retain_lem id r s h = (
  λ j n. ground (
    arith,
    ap (covers n) (of-set id j (cut_below r.from_block (coverage_of id s)) s.coverage),
    covers-cut_below n r.from_block (coverage_of id s),
    ==_iff id j,
  ),
  λ j n. kept-at id j n (λ entry. leb r.from_block entry.0) s.batches (h.batch_map j),
  λ j k row.
      let is_kept : ProjectionRow → Bool =
        λ row. not (id == j) || is_retained r.from_time row.period row.row_coverage row.end_time in
      let kept =
        kept-at id j k
          (λ entry. is_retained r.from_time entry.1.period entry.1.row_coverage entry.1.end_time)
          s.rows (h.row_map j) in
      let passes = when_iff is_kept (JsMap.get k (rows_of j s)) row in
      let row_kept = retained_row id j r row in
      (
        λ there. (let p = passes.0 (sym kept ∙ there) in (p.0, row_kept.0 p.1)),
        λ there. kept ∙ passes.1 (there.0, row_kept.1 there.1),
      ),
)
