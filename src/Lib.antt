-- ===== src/Lib.antt =====
-- ether-state: an Ethereum client and indexer in TypeScript, modelled from the sources under src/.
--
-- The client sends requests to several endpoints (src/rpc/client.ts) within limits that
-- src/rpc/transport/queue.ts keeps. On it stand fetching of history by chunks
-- (src/rpc/history.ts), the live chain that turns observed heads into blocks to apply and reverts
-- (src/rpc/live-chain.ts), and an indexer whose models fetch the ranges that their coverage lacks
-- and keep batches and rows in a store (src/indexer/model.ts, src/indexer/model-store.ts).
--
-- Files:
-- - Coverage and below: src/indexer/model-store.ts (rangesFromBlocks, mergeBlockRanges,
--   missingRange, missingForwardRange) and mergeCoverage of src/indexer/model.ts. Normal has the
--   normal form of coverage, Merge and Blocks the merging, Missing the next range to fetch,
--   Canonical the uniqueness of the normal form.
-- - ModelStore and below: memoryModelStore of src/indexer/model-store.ts. `Store` holds its four
--   collections, by instance; claim, commit, invalidate, retain, batches_in (batches) and
--   projection_rows (rows) are its operations.
-- - History and below: src/rpc/history.ts. Ranges has the chunks, Logs normalizeLogs, Fetch
--   streamRange, Reassembly the window of streamLogPages, Blocks the streams of blocks and of what
--   is read of them.
-- - LiveChain and below: src/rpc/live-chain.ts. `acquire` is one round of its unfold, on the
--   maps `retained` and `ready` and the cursor; Follow has a consumer of the updates, Revert the
--   search for the ancestor, Rounds sequences of rounds.
-- - Scheduler and below: RequestScheduler of src/rpc/transport/queue.ts. Rate has the limit on
--   requests per second, Counters the numbers that `stats` and `load` give.
-- - BatchQueue and below: BatchQueue of src/rpc/transport/queue.ts. Take has the choice of a
--   batch, Drain the queue over time, with both ends of its fiber, Sound what always holds of it,
--   Counts how often an entry stands in it.
-- - Query and below: RpcQueryCoordinator of src/rpc/query.ts. Cache has its store of results,
--   Sound what always holds of it, Events sequences of its operations and the callers that wait,
--   Tracked what always holds of these; Joining, Leaving and Removal are on single operations.
-- - Live and below: src/rpc/live.ts. orderedReceipts checks the receipts of a block; BlockTime
--   has estimateBlockTime.
-- - Multicall and below: src/rpc/multicall.ts. Abi has the encoding of calls and the decoding of
--   results, with Words on words of 256 bits; Shared is on `run`, which asks once for calls that
--   are the same, Verified on where the answers of `runUnique` come from.
-- - ChainList: src/rpc/chainList.ts, on a list of chains that was downloaded.
-- - Watch and below: matchesLog of src/rpc/watch.ts, which the indexer takes over.
-- - Indexer and below: src/indexer/index.ts. Valid has Indexer.make, Bundle fetchBundle,
--   Transform transformBlock and indexChanges, Sync `sync` and `recover`. Indexer.Storage has the
--   tables of the stores (src/indexer/storage.ts, d1.ts, libsql.ts, pglite.ts of that directory)
--   and their operations; Json has the texts that checkpoints and blocks are stored as. Under
--   Sync, Canonical is the search for the ancestor, Synced the invariant, Rollback and Recover
--   what a recovery leaves, Steps the loop over the blocks, Runs whole runs, Steady runs with a
--   chain that does not change. Keys has keys of which none comes twice.
-- - Rpc and Rpc.Errors: what of src/rpc/schema.ts the other parts read, and the classification
--   of failures of src/rpc/recovery.ts, with Resume on what a watch goes on after.
-- - Transport and below: src/rpc/transport. Ws has makeWsState of ws.ts, whose requests wait for the
--   answer with their id; Sound has what always holds of it, Refinement what it is for one request.
--   Http has HttpBatcher of http.ts; Answers and Slices are on the answers and the cutting of a
--   batch, Verdicts on what an answer leads to, Sending on `send`.
-- - Client and below: src/rpc/client.ts. Reads has fetchPhysical, in which two lanes ask one endpoint
--   after another; Chosen is on the endpoint that a lane asks, Turns and Safe on the state that the
--   lanes share, Sets on its sets, and Lanes on reads over time. Endpoints has the probes of endpoints
--   and what they change, Selected which are in use after, Marks how they are marked,
--   Remainder the probing of all that are left.
-- - Model and below: src/indexer/model.ts. Retention has retentionBoundary, Search its search
--   by time, Kept and Wide what it keeps. With both of `blocks` and `seconds` the source takes the
--   later of the two boundaries.
-- - Prelude: Boolean tests, list functions, results of code that may fail, texts, decimal
--   numerals, and the language's `Map` as an association list in the order of insertion.
-- - Tests: runs at concrete inputs.
--
-- Block numbers and times are non-negative bigints and native numbers here; a cursor that may
-- reach -1 is carried plus one. Hashes, instances and messages are only compared and are named by
-- numbers; texts that form a key are lists of character codes. Regular expressions, the provider's
-- answers, the clock and the order of arrivals are parameters. `Math.floor(n * 0.8)` is
-- `n * 4 / 5`, and `Math.floor(n * 0.75)` is `n * 3 / 4`.
--
-- Fuel: `ranges` takes the last block plus two, which a step of at least one block does not use
-- up; `stream_range` halves its range, so a level for each of its blocks is enough; `collect` takes
-- the number of waiting pages, one of which leaves in each round. The loop of `sync` ends only with a
-- provider that comes to rest, so that its fuel is a bound on the rounds: with a chain that does not
-- change the number of blocks plus two is enough. `send` sends a batch again only with a lower limit
-- or one by one, and takes twice the number of requests plus two. The search for the boundary of
-- retention halves the blocks before the given one, whose number plus one it takes; `probe_remainder`
-- takes one more than there are endpoints.
--
-- The provider's answers in `sync` are those of the round in which they are read; requests that
-- are made at once are made in order, so that of several failures the first is the one reported.
--
-- Not modelled: what the client keeps of heads and completed blocks, the keys of queries, the queues
-- of multicalls, subscriptions over a socket, watched calls, the indexer's `run`, which repeats
-- `sync`, the rest of the model engine and its SQL stores, schemas and the adapter for viem; delays,
-- semaphores and fibers of the library effect. Checks for negative bigints say nothing of natural
-- numbers and are left out, and so is what a database does on an error of its own.
pub mod Prelude
pub mod Rpc
pub mod Coverage
pub mod ModelStore
pub mod History
pub mod Watch
pub mod Indexer
pub mod LiveChain
pub mod Live
pub mod Scheduler
pub mod BatchQueue
pub mod Query
pub mod Multicall
pub mod ChainList
pub mod Transport
pub mod Client
pub mod Model
mod Tests
