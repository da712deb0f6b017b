-- ===== src/History/Logs.antt =====
-- `normalizeLogs` of src/rpc/history.ts: the logs of a page are checked, freed of repetitions and
-- put in order. The key `${blockHash}:${transactionHash}:${logIndex}` is the triple of its parts,
-- none of which holds a colon.
use ether_state.Prelude.{
  ℕ, ◌≡◌, refl, ◌∙◌, Bool, true, false, ◌&&◌, ◌||◌, Option, none, some, List, [], ◌∷◌, ltb, leb,
  ◌==◌, if◌then◌else◌, sort_by, any, all, any-sort_by, all-sort_by, IsSortedBy, sort_by-IsSortedBy,
  IsDistinct, sort_by-IsDistinct, arith, Bool-cases, inl, inr, and_left, and_right,
}
use ether_state.Coverage.{BlockRange}
use ether_state.History.{prepend}
use ether_state.Rpc.{RpcLog}

pub record HistoricalLog : Type 0 where
  pub log : RpcLog
  pub block_hash : ℕ
  pub block_number : ℕ
  pub transaction_index : ℕ
  pub log_index : ℕ

check_fields :
    BlockRange → RpcLog → Option ℕ → Option ℕ → Option ℕ → Option ℕ → Option HistoricalLog
check_fields range log (some hash) (some number) (some transaction) (some index) =
    if ltb number range.from || ltb range.through number
    then none
    else some (record {
      log = log;
      block_hash = hash;
      block_number = number;
      transaction_index = transaction;
      log_index = index;
    })
check_fields range log _ _ _ _ = none

pub check_log : BlockRange → RpcLog → Option HistoricalLog
unfolding check_fields
check_log range log =
    check_fields range log log.block_hash log.block_number log.transaction_index log.log_index

-- The first loop: one log that fails the check fails the page.
pub check_logs : BlockRange → List RpcLog → Option (List HistoricalLog)
check_logs range [] = some []
check_logs range (log ∷ logs) = elim (check_log range log) [
  | none ↦ none
  | some checked ↦ prepend checked (check_logs range logs)
]

abbrev pub same_log : HistoricalLog → HistoricalLog → Bool
same_log a b =
    a.block_hash == b.block_hash
    && (a.log.transaction_hash == b.log.transaction_hash && a.log_index == b.log_index)

-- `unique.set(…)`: a repetition takes the place of the first.
pub put_log : HistoricalLog → List HistoricalLog → List HistoricalLog
put_log log [] = log ∷ []
put_log log (x ∷ xs) = let later = x ∷ put_log log xs in if same_log x log then log ∷ xs else later

pub unique_logs : List HistoricalLog → List HistoricalLog → List HistoricalLog
unique_logs unique [] = unique
unique_logs unique (log ∷ logs) = unique_logs (put_log log unique) logs

-- The comparison is negative.
abbrev pub comes_before : HistoricalLog → HistoricalLog → Bool
comes_before left right =
    if left.block_number == right.block_number
    then (if left.transaction_index == right.transaction_index
        then ltb left.log_index right.log_index
        else ltb left.transaction_index right.transaction_index)
    else ltb left.block_number right.block_number

-- `none` is the error `InvalidHistoricalLog`.
pub normalize_logs : BlockRange → List RpcLog → Option (List HistoricalLog)
normalize_logs range logs = elim (check_logs range logs) [
  | none ↦ none
  | some checked ↦ some (sort_by comes_before (unique_logs [] checked))
]

comes_before_asym : (x y : HistoricalLog) → comes_before x y ≡ true → comes_before y x ≡ false
comes_before_asym x y h = ground arith

same_log_symm : (x y : HistoricalLog) → same_log x y ≡ same_log y x
same_log_symm x y = ground arith

same_log_trans : (x y z : HistoricalLog) → same_log x y ≡ true → same_log x z ≡ same_log y z
same_log_trans x y z h = ground arith

any-put_log :
    (k log : HistoricalLog) (xs : List HistoricalLog)
    → any (same_log k) (put_log log xs) ≡ (same_log k log || any (same_log k) xs)
unfolding put_log
any-put_log k log [] = refl
any-put_log k log (x ∷ xs) =
    ground
      (arith, any-put_log k log xs, same_log_trans x log k, same_log_symm k x, same_log_symm k log)

put_log-IsDistinct :
    (log : HistoricalLog) (xs : List HistoricalLog)
    → IsDistinct same_log xs
    → IsDistinct same_log (put_log log xs)
unfolding put_log
put_log-IsDistinct log [] d = (refl, tt)
put_log-IsDistinct log (x ∷ xs) d =
    ground (arith, put_log-IsDistinct log xs, any-put_log x log xs, any_same_log log x xs)
  where
    any_same_log :
        (a b : HistoricalLog) (ys : List HistoricalLog)
        → same_log b a ≡ true
        → any (same_log a) ys ≡ any (same_log b) ys
    any_same_log a b [] h = refl
    any_same_log a b (y ∷ ys) h = ground (arith, any_same_log a b ys h, same_log_trans b a y h)

unique_logs-IsDistinct :
    (unique logs : List HistoricalLog)
    → IsDistinct same_log unique
    → IsDistinct same_log (unique_logs unique logs)
unfolding unique_logs
unique_logs-IsDistinct unique [] d = d
unique_logs-IsDistinct unique (log ∷ logs) d =
    unique_logs-IsDistinct (put_log log unique) logs (put_log-IsDistinct log unique d)

any-unique_logs :
    (k : HistoricalLog) (unique logs : List HistoricalLog)
    → any (same_log k) (unique_logs unique logs)
      ≡ (any (same_log k) unique || any (same_log k) logs)
unfolding unique_logs
any-unique_logs k unique [] = ground arith
any-unique_logs k unique (log ∷ logs) =
    ground (arith, any-unique_logs k (put_log log unique) logs, any-put_log k log unique)

abbrev pub is_within : BlockRange → HistoricalLog → Bool
is_within range log = leb range.from log.block_number && leb log.block_number range.through

all-put_log :
    (range : BlockRange) (log : HistoricalLog) (xs : List HistoricalLog)
    → is_within range log ≡ true
    → all (is_within range) xs ≡ true
    → all (is_within range) (put_log log xs) ≡ true
unfolding put_log
all-put_log range log [] h a = ground arith
all-put_log range log (x ∷ xs) h a = ground (arith, all-put_log range log xs)

all-unique_logs :
    (range : BlockRange) (unique logs : List HistoricalLog)
    → all (is_within range) unique ≡ true
    → all (is_within range) logs ≡ true
    → all (is_within range) (unique_logs unique logs) ≡ true
unfolding unique_logs
all-unique_logs range unique [] a b = a
all-unique_logs range unique (log ∷ logs) a b =
    ground (arith, all-unique_logs range (put_log log unique) logs, all-put_log range log unique)

abbrev holds : ℕ → Option ℕ → Bool
holds n none = false
holds n (some m) = n == m

abbrev lies_in : BlockRange → Option ℕ → Bool
lies_in range none = false
lies_in range (some n) = leb range.from n && leb n range.through

abbrev is_some : Option ℕ → Bool
is_some none = false
is_some (some n) = true

-- The provider's log has all its places, and its block is in the range.
abbrev pub is_usable : BlockRange → RpcLog → Bool
is_usable range log =
    is_some log.block_hash
    && (lies_in range log.block_number && (is_some log.transaction_index && is_some log.log_index))

-- The provider's log is the one that `k` stands for.
abbrev pub is_entry : HistoricalLog → RpcLog → Bool
is_entry k log =
    holds k.block_hash log.block_hash
    && (k.log.transaction_hash == log.transaction_hash && holds k.log_index log.log_index)

check_log_lem :
    (range : BlockRange) (log : RpcLog)
    → (is_usable range log ≡ false → check_log range log ≡ none)
      × (is_usable range log ≡ true
          → (h : HistoricalLog) × (check_log range log ≡ some h)
            × (is_within range h ≡ true)
            × ((k : HistoricalLog) → same_log k h ≡ is_entry k log))
unfolding check_log
check_log_lem range log =
    by_fields log.block_hash log.block_number log.transaction_index log.log_index
  where
    by_fields :
        (a b c d : Option ℕ)
        → ((is_some a && (lies_in range b && (is_some c && is_some d))) ≡ false
            → check_fields range log a b c d ≡ none)
          × ((is_some a && (lies_in range b && (is_some c && is_some d))) ≡ true
              → (h : HistoricalLog) × (check_fields range log a b c d ≡ some h)
                × (is_within range h ≡ true)
                × ((k : HistoricalLog)
                    → same_log k h ≡ (
                        holds k.block_hash a
                        && (k.log.transaction_hash == log.transaction_hash
                            && holds k.log_index d))))
    by_fields (some a) (some b) (some c) (some d) = (
      λ h. ground arith,
      λ h. (
        record {
          log = log;
          block_hash = a;
          block_number = b;
          transaction_index = c;
          log_index = d;
        },
        ground arith,
        ground arith,
        λ k. refl,
      ),
    )
    by_fields none b c d = (λ h. refl, λ h. absurd (ground arith))
    by_fields (some a) none c d = (λ h. refl, λ h. absurd (ground arith))
    by_fields (some a) (some b) none d = (λ h. refl, λ h. absurd (ground arith))
    by_fields (some a) (some b) (some c) none = (λ h. refl, λ h. absurd (ground arith))

check_logs_lem :
    (range : BlockRange) (logs : List RpcLog)
    → (all (is_usable range) logs ≡ false → check_logs range logs ≡ none)
      × (all (is_usable range) logs ≡ true
          → (hs : List HistoricalLog) × (check_logs range logs ≡ some hs)
            × (all (is_within range) hs ≡ true)
            × ((k : HistoricalLog) → any (same_log k) hs ≡ any (is_entry k) logs))
unfolding check_logs
check_logs_lem range [] = (λ h. cc, λ h. ([], refl, refl, λ k. refl))
check_logs_lem range (log ∷ logs) = (
  λ h. elim (Bool-cases (is_usable range log)) [
    | inr bad ↦ rw ((check_log_lem range log).0 bad, check_logs)
    | inl good ↦
        let (x, e, _, _) = (check_log_lem range log).1 good in
        rw (e, check_logs, (check_logs_lem range logs).0 (ground arith))
  ],
  λ h.
      let (x, e, within, same) = (check_log_lem range log).1 (and_left _ _ h) in
      let (hs, es, withins, sames) =
        (check_logs_lem range logs).1 (and_right (is_usable range log) _ h) in
      (x ∷ hs, rw (e, es, check_logs), ground arith, λ k. ground (arith, same k, sames k)),
)

-- `normalizeLogs` fails exactly if some log lacks one of its places or lies outside the range.
-- Otherwise its logs are in order of block, transaction and log index, no two have the same block
-- hash, transaction hash and log index, all lie in the range, and they stand for the logs of the
-- provider and for no others.
pub normalize_logs_lem :
    (range : BlockRange) (logs : List RpcLog)
    → (all (is_usable range) logs ≡ false → normalize_logs range logs ≡ none)
      × (all (is_usable range) logs ≡ true
          → (out : List HistoricalLog) × (normalize_logs range logs ≡ some out)
            × IsSortedBy comes_before out
            × IsDistinct same_log out
            × (all (is_within range) out ≡ true)
            × ((k : HistoricalLog) → any (same_log k) out ≡ any (is_entry k) logs))
unfolding normalize_logs
normalize_logs_lem range logs = (
  λ h. rw ((check_logs_lem range logs).0 h, normalize_logs),
  λ h.
      let (hs, e, within, same) = (check_logs_lem range logs).1 h in
      let unique = unique_logs [] hs in
      (
        sort_by comes_before unique,
        rw (e, normalize_logs),
        sort_by-IsSortedBy comes_before comes_before_asym unique,
        sort_by-IsDistinct same_log comes_before same_log_symm unique
            (unique_logs-IsDistinct [] hs tt),
        all-sort_by (is_within range) comes_before unique ∙ all-unique_logs range [] hs refl within,
        λ k. any-sort_by (same_log k) comes_before unique ∙ any-unique_logs k [] hs ∙ same k,
      ),
)
