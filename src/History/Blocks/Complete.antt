-- ===== src/History/Blocks/Complete.antt =====
-- What `getBlocks` and `getReceipts` return is complete and in order.
use ether_state.Prelude.{
  ℕ, ◌+◌, ◌≤◌, ◌<◌, ◌≡◌, sym, ap, subst, ◌∙◌, Bool, true, false, Option, none, some, List, [], ◌∷◌,
  ◌==◌, ==_iff, Bool-cases, Option-cases, inl, inr, arith, or_default,
}
use ether_state.Prelude.Results.{Result, ok, err, Result-cases}
use ether_state.Coverage.{BlockRange}
use ether_state.Rpc.{RpcBlock}
use ether_state.History.{forward}
use ether_state.History.Ranges.{Tiles, ranges_tile}
use ether_state.History.Fetch.{HistoryError, invalid_historical_range}
use ether_state.History.Blocks.{
  BlocksRequest, Source, is_valid_request, read_block, Streamed, read_blocks, stream_blocks,
}

-- The blocks that the provider gives from one number up to, and without, another.
abbrev pub IsRun : Source → Bool → ℕ → ℕ → List RpcBlock → Type 0
IsRun source full start stop [] = start ≡ stop
IsRun source full start stop (block ∷ blocks) =
    (source.by_number start full ≡ ok (some block))
    × (block.number ≡ start)
    × IsRun source full (start + 1) stop blocks

read_block-ok :
    (source : Source) (full : Bool) (range : BlockRange) (block : RpcBlock)
    → read_block source full range ≡ ok block
    → (source.by_number range.from full ≡ ok (some block)) × (block.number ≡ range.from)
unfolding read_block
read_block-ok source full range block h = elim (Result-cases (source.by_number range.from full)) [
  | inl (e, failed) ↦ absurd (cc (rw (failed, read_block) at h))
  | inr (answer, got) ↦ elim (Option-cases answer) [
    | inl null ↦ absurd (cc (rw (got, null, read_block) at h))
    | inr (b, there) ↦ elim (Bool-cases (b.number == range.from)) [
      | inr other ↦ absurd (cc (rw (got, there, other, read_block) at h))
      | inl same ↦
          let whole : b ≡ block = result_eq (rw (got, there, same, read_block) at h) in
          (
            got ∙ ap ok (there ∙ ap some whole),
            sym (ap (λ x. x.number) whole) ∙ (==_iff b.number range.from).0 same,
          )
    ]
  ]
]
  where
    result_eq : {a b : RpcBlock} → ◌≡◌ {A = Result HistoryError RpcBlock} (ok a) (ok b) → a ≡ b
    result_eq e = cc e

read_blocks-IsRun :
    (source : Source) (full : Bool) (start stop : ℕ) (rs : List BlockRange)
    → Tiles 1 start stop rs
    → (read_blocks source full rs).1 ≡ none
    → IsRun source full start stop (read_blocks source full rs).0
unfolding read_blocks
read_blocks-IsRun source full start stop [] tiles h = tiles
read_blocks-IsRun source full start stop (r ∷ rs) tiles h =
    elim (Result-cases (read_block source full r)) [
      | inl (e, failed) ↦ absurd (cc (rw (failed, read_blocks) at h))
      | inr (block, got) ↦
          let read = read_block-ok source full r block got in
          let next : r.through + 1 ≡ start + 1 = omega (arith, tiles.0, tiles.1, tiles.2) in
          let rest =
            read_blocks-IsRun source full (start + 1) stop rs
              (subst (λ s. Tiles 1 s stop rs) next tiles.3) (rw (got, read_blocks) at h) in
          rw (got, read_blocks)
            (
              subst (λ n. source.by_number n full ≡ ok (some block)) tiles.0 read.0,
              read.1 ∙ tiles.0,
              rest,
            )
    ]

-- The request for one of the blocks fails so.
abbrev pub Refuses : Source → Bool → ℕ → ℕ → HistoryError → Type 0
Refuses source full start stop error =
    (n : ℕ) × (start ≤ n)
    × (n < stop)
    × (read_block source full (record { from = n; through = n }) ≡ err error)

read_blocks-Refuses :
    (source : Source) (full : Bool) (start stop : ℕ) (rs : List BlockRange) (error : HistoryError)
    → Tiles 1 start stop rs
    → (read_blocks source full rs).1 ≡ some error
    → Refuses source full start stop error
unfolding read_blocks
read_blocks-Refuses source full start stop [] error tiles h = absurd (cc h)
read_blocks-Refuses source full start stop (r ∷ rs) error tiles h =
    let one : r.through ≡ r.from = omega (arith, tiles.1, tiles.2) in
    let next : r.through + 1 ≡ start + 1 = omega (arith, tiles.0, one) in
    let rest = subst (λ s. Tiles 1 s stop rs) next tiles.3 in
    elim (Result-cases (read_block source full r)) [
      | inl (e, failed) ↦
          let same : e ≡ error = some_eq (rw (failed, read_blocks) at h) in
          (
            r.from,
            omega (arith, tiles.0),
            omega (arith, tiles.0, Tiles-le (start + 1) stop rs rest),
            subst (λ t. read_block source full (record { from = r.from; through = t }) ≡ err error)
                one (failed ∙ ap err same),
          )
      | inr (block, got) ↦
          let later =
            read_blocks-Refuses source full (start + 1) stop rs error rest
              (rw (got, read_blocks) at h) in
          (later.0, omega (arith, later.1), later.2, later.3)
    ]
  where
    some_eq : {a b : HistoryError} → some a ≡ some b → a ≡ b
    some_eq e = cc e

    Tiles-le : (start stop : ℕ) (rs : List BlockRange) → Tiles 1 start stop rs → start ≤ stop
    Tiles-le start stop [] t = omega (arith, t)
    Tiles-le start stop (r ∷ rs) t = omega (arith, t.0, t.1, Tiles-le (r.through + 1) stop rs t.3)

-- How `streamBlocks` and what collects it end: with all that was asked for, or for a reason.
pub data BlocksEnd (source : Source) (request : BlocksRequest)
    : Option (Streamed RpcBlock) → Type 0 where
  refused_request :
      (error : HistoryError)
      → is_valid_request request ≡ false
      → BlocksEnd source request (some ([], some error))
  refused_block :
      (blocks : List RpcBlock) (error : HistoryError)
      → Refuses source
          (or_default false request.full)
          request.from_block
          (request.to_block + 1)
          error
      → BlocksEnd source request (some (blocks, some error))
  all_blocks :
      (blocks : List RpcBlock)
      → is_valid_request request ≡ true
      → IsRun source
          (or_default false request.full)
          request.from_block
          (request.to_block + 1)
          blocks
      → BlocksEnd source request (some (blocks, none))

-- `streamBlocks` always comes to an end. A request of which the bounds are not in order or the
-- concurrency is not a positive safe integer is refused. Any other gives the blocks from the
-- first to the last that were asked for, each once, in order, as the provider gave them for their
-- numbers; or else it ends with the error of the request for one of these blocks.
pub stream_blocks_lem :
    (source : Source) (request : BlocksRequest)
    → BlocksEnd source request (stream_blocks source request)
unfolding stream_blocks
stream_blocks_lem source request = elim (Bool-cases (is_valid_request request)) [
  | inr bad ↦
      rw (bad, stream_blocks)
        (refused_request (invalid_historical_range request.from_block request.to_block) bad)
  | inl good ↦
      let (rs, e, tiles) =
        ranges_tile forward request.from_block request.to_block 1 (omega arith)
          (ground (arith, good)) in
      let full = or_default false request.full in
      elim (Option-cases (read_blocks source full rs).1) [
        | inl whole ↦
            rw (good, e, stream_blocks)
              (subst (λ end. BlocksEnd source request (some ((read_blocks source full rs).0, end)))
                (sym whole)
                (all_blocks (read_blocks source full rs).0 good (
                  read_blocks-IsRun source full request.from_block (request.to_block + 1) rs tiles
                    whole)))
        | inr (error, failed) ↦
            rw (good, e, stream_blocks)
              (subst (λ end. BlocksEnd source request (some ((read_blocks source full rs).0, end)))
                (sym failed)
                (refused_block (read_blocks source full rs).0 error (
                  read_blocks-Refuses source full request.from_block (request.to_block + 1) rs error
                    tiles failed)))
      ]
]
