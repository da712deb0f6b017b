-- ===== src/ModelStore/Sound.antt =====
-- What always holds of the memory store: the coverage of each instance is in normal form, and its
-- batches and rows stand under their own keys.
use ether_state.Prelude.{
  ℕ, ◌+◌, ◌≡◌, sym, subst, Bool, true, false, Option, none, some, List, [], ◌∷◌, ◌++◌, ltb, leb,
  ◌==◌, ==_iff, if◌then◌else◌, keep, any, all, Bool-cases, Option-cases, inl, inr, arith,
}
use ether_state.Prelude.JsMap
use ether_state.Prelude.JsMap.{Eq, nat_eq, IsMap, when}
use ether_state.Coverage.{BlockRange}
use ether_state.Coverage.Normal.{IsNormal, Ascends, Ascends-mono}
use ether_state.Coverage.Merge.{is_valid, merge_block_ranges_lem}
use ether_state.Prelude.Texts.{text_eq}
use ether_state.ModelStore.{
  ModelBatch, ProjectionRow, ModelCommit, ModelRetention, Store, memory_model_store, or_empty,
  claim, release, coverage_of, batches_of, rows_of, row_key, put_batches, put_rows, proven_ranges,
  commit, update, end_before, cut_at, fork_time, ended_by, invalidate, cut_below, is_retained,
  retain,
}

module _ {K V : Type 0} ⦃e : Eq K⦄ where
  -- Every value of a map stands under the key that it names.
  abbrev pub Names : (V → K) → List (K × V) → Type 0
  Names name m = (k : K) (v : V) → JsMap.get k m ≡ some v → name v ≡ k

pub record IsSound (s : Store) : Type 0 where
  pub normal : (id : ℕ) → IsNormal (coverage_of id s)
  pub batch_map : (id : ℕ) → IsMap (batches_of id s)
  pub row_map : (id : ℕ) → IsMap (rows_of id s)
  pub batch_names : (id : ℕ) → Names (λ batch. batch.block.number) (batches_of id s)
  pub row_names : (id : ℕ) → Names row_key (rows_of id s)

-- An operation that changes the store. One that fails leaves it as it is.
pub data Action : Type 0 where
  claims : ℕ → Action
  releases : ℕ → Action
  commits : ℕ → ModelCommit → Action
  invalidates : ℕ → ℕ → Action
  retains : ℕ → ModelRetention → Action

abbrev pub or_else : Option Store → Store → Store
or_else none s = s
or_else (some s') s = s'

abbrev pub perform : Action → Store → Store
perform (claims id) s = or_else (claim id s) s
perform (releases id) s = release id s
perform (commits id c) s = or_else (commit id c s) s
perform (invalidates id from) s = invalidate id from s
perform (retains id retention) s = retain id retention s

abbrev pub perform_all : List Action → Store → Store
perform_all [] s = s
perform_all (a ∷ actions) s = perform_all actions (perform a s)

pub of-set :
    {A : Type 0} (id j : ℕ) (xs : List A) (m : List (ℕ × List A))
    → or_empty (JsMap.get j (JsMap.set id xs m))
      ≡ (if id == j then xs else or_empty (JsMap.get j m))
of-set id j xs m = ground (arith, JsMap.get-set id j xs m)

pub of-update-keep :
    {A : Type 0} (id j : ℕ) (test : A → Bool) (m : List (ℕ × List A))
    → or_empty (JsMap.get j (update id (keep test) m))
      ≡ (if id == j then keep test (or_empty (JsMap.get j m)) else or_empty (JsMap.get j m))
of-update-keep id j test m = elim (Option-cases (JsMap.get id m)) [
  | inl missing ↦ ground (arith, missing, ==_iff id j)
  | inr (xs, there) ↦ ground (arith, there, ==_iff id j, JsMap.get-set id j (keep test xs) m)
]

cut_at-Ascends :
    (low from : ℕ) (ranges : List BlockRange)
    → Ascends low ranges
    → Ascends low (cut_at from ranges)
cut_at-Ascends low from [] a = tt
cut_at-Ascends low from (r ∷ rs) a =
    let rest = cut_at-Ascends (r.through + 2) from rs a.2 in
    ground (
      arith,
      a,
      Ascends-mono {low = r.through + 2} {low' = low} (cut_at from rs) (omega (arith, a)) rest,
      Ascends-mono {low = r.through + 2} {low' = (end_before from r).through + 2} (cut_at from rs)
          (ground arith) rest,
    )

cut_below-Ascends :
    (low from : ℕ) (ranges : List BlockRange)
    → Ascends low ranges
    → Ascends low (cut_below from ranges)
cut_below-Ascends low from [] a = tt
cut_below-Ascends low from (r ∷ rs) a =
    let rest = cut_below-Ascends (r.through + 2) from rs a.2 in
    ground (
      arith,
      a,
      rest,
      Ascends-mono {low = r.through + 2} {low' = low} (cut_below from rs) (omega (arith, a)) rest,
    )

put_batches-IsMap :
    (batches : List ModelBatch) (m : List (ℕ × ModelBatch))
    → IsMap m
    → IsMap (put_batches batches m)
put_batches-IsMap [] m d = d
put_batches-IsMap (b ∷ rest) m d =
    put_batches-IsMap rest (JsMap.set b.block.number b m) (JsMap.set-IsMap b.block.number b m d)

put_rows-IsMap :
    (rows : List ProjectionRow) (m : List (List ℕ × ProjectionRow))
    → IsMap m
    → IsMap (put_rows rows m)
put_rows-IsMap [] m d = d
put_rows-IsMap (r ∷ rest) m d =
    put_rows-IsMap rest (JsMap.set (row_key r) r m) (JsMap.set-IsMap (row_key r) r m d)

module _ {K V : Type 0} ⦃e : Eq K⦄ where
  set-Names :
      (name : V → K) (v : V) (m : List (K × V)) → Names name m → Names name (JsMap.set (name v) v m)
  set-Names name v m names k w h =
      ground (arith, JsMap.get-set (name v) k v m, names k w, e.beq_iff (name v) k, h)

  keep-Names :
      (name : V → K) (test : K × V → Bool) (m : List (K × V))
      → IsMap m
      → Names name m
      → Names name (keep test m)
  keep-Names name test m d names k v h = elim (Option-cases (JsMap.get k m)) [
    | inl missing ↦ ground (arith, JsMap.get-keep k test m d, missing, h)
    | inr (w, there) ↦ ground (arith, JsMap.get-keep k test m d, there, h, names k w there)
  ]

put_batches-Names :
    (batches : List ModelBatch) (m : List (ℕ × ModelBatch))
    → Names (λ b. b.block.number) m
    → Names (λ b. b.block.number) (put_batches batches m)
put_batches-Names [] m h = h
put_batches-Names (b ∷ rest) m h =
    put_batches-Names rest (JsMap.set b.block.number b m) (set-Names (λ b. b.block.number) b m h)

put_rows-Names :
    (rows : List ProjectionRow) (m : List (List ℕ × ProjectionRow))
    → Names row_key m
    → Names row_key (put_rows rows m)
put_rows-Names [] m h = h
put_rows-Names (r ∷ rest) m h =
    put_rows-Names rest (JsMap.set (row_key r) r m) (set-Names row_key r m h)

if-both : {A : Type 0} (P : A → Type 0) (b : Bool) {x y : A} → P x → P y → P (if b then x else y)
if-both P true p q = p
if-both P false p q = q

module _ {A : Type 0} (P : List A → Type 0) (id j : ℕ) where
  of-set-both :
      (xs : List A) (m : List (ℕ × List A))
      → P xs
      → P (or_empty (JsMap.get j m))
      → P (or_empty (JsMap.get j (JsMap.set id xs m)))
  of-set-both xs m p q = subst P (sym (of-set id j xs m)) (if-both P (id == j) p q)

  of-keep-both :
      (test : A → Bool) (m : List (ℕ × List A))
      → P (keep test (or_empty (JsMap.get j m)))
      → P (or_empty (JsMap.get j m))
      → P (or_empty (JsMap.get j (update id (keep test) m)))
  of-keep-both test m p q = subst P (sym (of-update-keep id j test m)) (if-both P (id == j) p q)

commit-IsSound :
    (id : ℕ) (c : ModelCommit) (s : Store) → IsSound s → IsSound (or_else (commit id c s) s)
unfolding commit
commit-IsSound id c s h = elim (Bool-cases (all is_valid ranges)) [
  | inl good ↦
      let (spans, e, normal, _) = (merge_block_ranges_lem ranges).1 good in
      rw (e, commit)
        (record {
          normal = λ j. of-set-both IsNormal id j spans s.coverage normal (h.normal j);
          batch_map = λ j.
              of-set-both IsMap id j (put_batches c.batches (batches_of id s)) s.batches
                (put_batches-IsMap c.batches (batches_of id s) (h.batch_map id)) (h.batch_map j);
          row_map = λ j.
              of-set-both IsMap id j (put_rows c.rows (rows_of id s)) s.rows
                (put_rows-IsMap c.rows (rows_of id s) (h.row_map id)) (h.row_map j);
          batch_names = λ j.
              of-set-both (Names (λ batch. batch.block.number)) id j
                (put_batches c.batches (batches_of id s)) s.batches
                (put_batches-Names c.batches (batches_of id s) (h.batch_names id))
                (h.batch_names j);
          row_names = λ j.
              of-set-both (Names row_key) id j (put_rows c.rows (rows_of id s)) s.rows
                (put_rows-Names c.rows (rows_of id s) (h.row_names id)) (h.row_names j);
        })
  | inr bad ↦ rw ((merge_block_ranges_lem ranges).0 bad, commit) h
]
  where
    ranges : List BlockRange
    ranges = coverage_of id s ++ proven_ranges c c.proven

-- `invalidate` and `retain` cut the coverage and keep the batches and rows that pass a test.
pruned-IsSound :
    (id : ℕ) (cut : List BlockRange → List BlockRange) (kept_batch : ℕ × ModelBatch → Bool)
    (kept_row : List ℕ × ProjectionRow → Bool) (s : Store)
    → ((ranges : List BlockRange) → IsNormal ranges → IsNormal (cut ranges))
    → IsSound s
    → IsSound (record s {
      coverage = JsMap.set id (cut (coverage_of id s)) s.coverage;
      batches = update id (keep kept_batch) s.batches;
      rows = update id (keep kept_row) s.rows;
    })
pruned-IsSound id cut kept_batch kept_row s cut-IsNormal h = record {
  normal = λ j.
      of-set-both IsNormal id j (cut (coverage_of id s)) s.coverage
        (cut-IsNormal (coverage_of id s) (h.normal id)) (h.normal j);
  batch_map = λ j.
      of-keep-both IsMap id j kept_batch s.batches
        (JsMap.keep-IsMap kept_batch (batches_of j s) (h.batch_map j)) (h.batch_map j);
  row_map = λ j.
      of-keep-both IsMap id j kept_row s.rows
        (JsMap.keep-IsMap kept_row (rows_of j s) (h.row_map j)) (h.row_map j);
  batch_names = λ j.
      of-keep-both (Names (λ batch. batch.block.number)) id j kept_batch s.batches
        (keep-Names (λ batch. batch.block.number) kept_batch (batches_of j s) (h.batch_map j)
          (h.batch_names j))
        (h.batch_names j);
  row_names = λ j.
      of-keep-both (Names row_key) id j kept_row s.rows
        (keep-Names row_key kept_row (rows_of j s) (h.row_map j) (h.row_names j)) (h.row_names j);
}

perform-IsSound : (a : Action) (s : Store) → IsSound s → IsSound (perform a s)
unfolding claim release invalidate retain
perform-IsSound (claims id) s h = elim (Bool-cases (any (λ w. w == id) s.writers)) [
  | inl taken ↦ rw (taken, claim) h
  | inr free ↦ rw (free, claim) (same_but_writers h)
]
  where
    same_but_writers : {ws : List ℕ} → IsSound s → IsSound (record s { writers = ws })
    same_but_writers h = record {
      normal = h.normal;
      batch_map = h.batch_map;
      row_map = h.row_map;
      batch_names = h.batch_names;
      row_names = h.row_names;
    }
perform-IsSound (releases id) s h = record {
  normal = h.normal;
  batch_map = h.batch_map;
  row_map = h.row_map;
  batch_names = h.batch_names;
  row_names = h.row_names;
}
perform-IsSound (commits id c) s h = commit-IsSound id c s h
perform-IsSound (invalidates id from) s h =
    pruned-IsSound id (cut_at from) (λ entry. ltb entry.0 from)
      (λ entry. ended_by (fork_time from (batches_of id s)) entry.1.end_time) s
      (λ ranges. cut_at-Ascends 0 from ranges) h
perform-IsSound (retains id r) s h =
    pruned-IsSound id (cut_below r.from_block) (λ entry. leb r.from_block entry.0)
      (λ entry. is_retained r.from_time entry.1.period entry.1.row_coverage entry.1.end_time) s
      (λ ranges. cut_below-Ascends 0 r.from_block ranges) h

perform_all-IsSound :
    (actions : List Action) (s : Store) → IsSound s → IsSound (perform_all actions s)
perform_all-IsSound [] s h = h
perform_all-IsSound (a ∷ actions) s h =
    perform_all-IsSound actions (perform a s) (perform-IsSound a s h)

-- After any sequence of operations on a new store, failed commits and claims included, the coverage
-- of every instance is in order, without ranges that overlap or touch, and every batch and row is
-- stored once and under its own key.
pub memory_model_store-IsSound :
    (actions : List Action) → IsSound (perform_all actions memory_model_store)
memory_model_store-IsSound actions = perform_all-IsSound actions memory_model_store (record {
  normal = λ _. tt;
  batch_map = λ _. tt;
  row_map = λ _. tt;
  batch_names = λ _ _ _ h. ground (arith, h);
  row_names = λ _ _ _ h. ground (arith, h);
})
