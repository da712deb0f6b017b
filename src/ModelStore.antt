-- ===== src/ModelStore.antt =====
-- `memoryModelStore` of src/indexer/model-store.ts: the store of a model, in memory. Instances,
-- hashes, sources and values are named by numbers; a text is the list of its characters' codes.
pub mod Sound
pub mod Effects
pub mod Predecessor
use ether_state.Prelude.{
  ℕ, ◌-◌, ◌≡◌, ◌↔◌, refl, ap, Bool, true, false, not, ◌&&◌, ◌||◌, Option, none, some, List, [], ◌∷◌,
  ◌++◌, map, ltb, leb, ◌==◌, ==_iff, if◌then◌else◌, keep, sort_by, take, any, arith,
}
use ether_state.Prelude.JsMap
use ether_state.Prelude.Texts.{same_text, text_eq}
use ether_state.Prelude.JsMap.{Eq, nat_eq}
use ether_state.Coverage.{BlockRange, merge_block_ranges, ranges_from_blocks}

pub record IndexedBlock : Type 0 where
  pub number : ℕ
  pub hash : ℕ
  pub parent_hash : ℕ
  pub timestamp : ℕ

pub record ModelBatch : Type 0 where
  pub block : IndexedBlock
  pub sources : List (List ℕ × List ℕ)

pub data Period : Type 0 where
  open_period : Period
  closed : Period
  state : Period

-- Whether blocks of a row's period are missing.
pub data RowCoverage : Type 0 where
  partial : RowCoverage
  complete : RowCoverage

pub record ProjectionRow : Type 0 where
  pub projection : List ℕ
  pub key : List ℕ
  pub value : ℕ
  pub block : IndexedBlock
  pub end_time : Option ℕ
  pub period : Period
  pub row_coverage : RowCoverage

pub record ModelCommit : Type 0 where
  pub proven : Option (List BlockRange)
  pub batches : List ModelBatch
  pub rows : List ProjectionRow

-- The four collections of `memoryModelStore`, by instance.
pub record Store : Type 0 where
  pub batches : List (ℕ × List (ℕ × ModelBatch))
  pub rows : List (ℕ × List (List ℕ × ProjectionRow))
  pub writers : List ℕ
  pub coverage : List (ℕ × List BlockRange)

abbrev pub memory_model_store : Store
memory_model_store = record { batches = []; rows = []; writers = []; coverage = [] }

abbrev pub or_empty {ℓ} : {A : Type ℓ} → Option (List A) → List A
or_empty none = []
or_empty (some xs) = xs

-- `none` is the failure "Instance already has a writer".
pub claim : ℕ → Store → Option Store
claim id s =
    if any (λ w. w == id) s.writers
    then none
    else some (record s { writers = s.writers ++ id ∷ [] })

-- What `claim` returns for the writer to call.
pub release : ℕ → Store → Store
release id s = record s { writers = keep (λ w. not (w == id)) s.writers }

abbrev pub coverage_of : ℕ → Store → List BlockRange
coverage_of id s = or_empty (JsMap.get id s.coverage)

abbrev pub batches_of : ℕ → Store → List (ℕ × ModelBatch)
batches_of id s = or_empty (JsMap.get id s.batches)

abbrev pub rows_of : ℕ → Store → List (List ℕ × ProjectionRow)
rows_of id s = or_empty (JsMap.get id s.rows)

pub record BatchRange : Type 0 where
  pub from : Option ℕ
  pub through : Option ℕ
  pub start_time : Option ℕ
  pub end_time : Option ℕ
  pub limit : Option ℕ
  pub backward : Bool

-- A bound that is `undefined` holds.
abbrev pub within : (ℕ → Bool) → Option ℕ → Bool
within test none = true
within test (some bound) = test bound

abbrev pub is_in : BatchRange → ModelBatch → Bool
is_in range batch =
    within (λ n. leb n batch.block.number) range.from
    && within (λ n. leb batch.block.number n) range.through
    && within (λ t. leb t batch.block.timestamp) range.start_time
    && within (λ t. ltb batch.block.timestamp t) range.end_time

abbrev pub cut {ℓ} : {A : Type ℓ} → Option ℕ → List A → List A
cut none xs = xs
cut (some n) xs = take n xs

abbrev pub block_before : Bool → ModelBatch → ModelBatch → Bool
block_before backward a b =
    if backward then leb b.block.number a.block.number else ltb a.block.number b.block.number

pub batches_in : ℕ → BatchRange → Store → List ModelBatch
batches_in id range s = cut range.limit (
    sort_by (block_before range.backward)
      (keep (is_in range) (map (λ entry. entry.1) (batches_of id s))))

pub projection_rows : ℕ → List ℕ → Store → List ProjectionRow
projection_rows id projection s =
    keep (λ row. same_text row.projection projection) (map (λ entry. entry.1) (rows_of id s))

-- `${row.projection}:${row.key}`
abbrev pub row_key : ProjectionRow → List ℕ
row_key row = row.projection ++ 58 ∷ row.key

abbrev pub put_batches : List ModelBatch → List (ℕ × ModelBatch) → List (ℕ × ModelBatch)
put_batches [] m = m
put_batches (batch ∷ rest) m = put_batches rest (JsMap.set batch.block.number batch m)

abbrev pub put_rows :
    List ProjectionRow → List (List ℕ × ProjectionRow) → List (List ℕ × ProjectionRow)
put_rows [] m = m
put_rows (row ∷ rest) m = put_rows rest (JsMap.set (row_key row) row m)

abbrev pub proven_ranges : ModelCommit → Option (List BlockRange) → List BlockRange
proven_ranges c none = ranges_from_blocks (map (λ batch. batch.block.number) c.batches)
proven_ranges c (some ranges) = ranges

-- `none` is the failure of stage "store", before anything is written.
pub commit : ℕ → ModelCommit → Store → Option Store
commit id c s = elim (merge_block_ranges (coverage_of id s ++ proven_ranges c c.proven)) [
  | none ↦ none
  | some spans ↦ some (record s {
    batches = JsMap.set id (put_batches c.batches (batches_of id s)) s.batches;
    rows = JsMap.set id (put_rows c.rows (rows_of id s)) s.rows;
    coverage = JsMap.set id spans s.coverage;
  })
]

-- `f` on the map of an instance, when it has one.
abbrev pub update {ℓ} : {A : Type ℓ} → ℕ → (A → A) → List (ℕ × A) → List (ℕ × A)
update id f m = elim (JsMap.get id m) [ none ↦ m | some v ↦ JsMap.set id (f v) m ]

abbrev pub first {ℓ} : {A : Type ℓ} → List A → Option A
first [] = none
first (x ∷ xs) = some x

-- The last stored block up to `from`.
pub predecessor : ℕ → List (ℕ × ModelBatch) → Option ModelBatch
predecessor from m = first (
    sort_by (λ a b. ltb b.block.number a.block.number)
      (keep (λ batch. leb batch.block.number from) (map (λ entry. entry.1) m)))

pub fork_time : ℕ → List (ℕ × ModelBatch) → ℕ
fork_time from m = elim (predecessor from m) [ none ↦ 0 | some batch ↦ batch.block.timestamp ]

abbrev pub end_before : ℕ → BlockRange → BlockRange
end_before from range = record range {
  through = if ltb range.through from then range.through else from - 1;
}

abbrev pub cut_at : ℕ → List BlockRange → List BlockRange
cut_at from ranges = map (end_before from) (keep (λ range. ltb range.from from) ranges)

-- Whether a row that ended at `end_time` says nothing after `time`.
abbrev pub ended_by : ℕ → Option ℕ → Bool
ended_by time none = false
ended_by time (some end) = leb end time

pub invalidate : ℕ → ℕ → Store → Store
invalidate id from s = record s {
  coverage = JsMap.set id (cut_at from (coverage_of id s)) s.coverage;
  batches = update id (keep (λ entry. ltb entry.0 from)) s.batches;
  rows =
      update id (keep (λ entry. ended_by (fork_time from (batches_of id s)) entry.1.end_time))
        s.rows;
}

pub record ModelRetention : Type 0 where
  pub from_block : ℕ
  pub from_time : ℕ

abbrev pub start_from : ℕ → BlockRange → BlockRange
start_from from range = record range { from = if ltb range.from from then from else range.from }

abbrev pub cut_below : ℕ → List BlockRange → List BlockRange
cut_below from ranges = map (start_from from) (keep (λ range. leb from range.through) ranges)

abbrev pub is_retained : ℕ → Period → RowCoverage → Option ℕ → Bool
is_retained from_time state c end_time = true
is_retained from_time closed complete end_time = not (ended_by from_time end_time)
is_retained from_time closed partial end_time = false
is_retained from_time open_period c end_time = false

pub retain : ℕ → ModelRetention → Store → Store
retain id retention s = record s {
  coverage = JsMap.set id (cut_below retention.from_block (coverage_of id s)) s.coverage;
  batches = update id (keep (λ entry. leb retention.from_block entry.0)) s.batches;
  rows =
      update id
        (keep (λ entry.
          is_retained retention.from_time entry.1.period entry.1.row_coverage entry.1.end_time))
        s.rows;
}
