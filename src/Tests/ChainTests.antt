-- ===== src/Tests/ChainTests.antt =====
-- src/rpc/live-chain.ts on a chain of three blocks, the last two of which are replaced.
use ether_state.Prelude.{
  ℕ, ◌+◌, ◌-◌, ◌*◌, leb, ◌≡◌, refl, none, some, List, [], ◌∷◌, ◌++◌, reverse, if◌then◌else◌,
}
use ether_state.LiveChain.{
  Update, revert, loaded, Environment, emits, acquire, init, first_news, wanted, count_up, load_all,
  settle, first_conflict, find_ancestor, resolve, advance, trim,
}
use ether_state.LiveChain.Follow.{IsLinked, last_of, follow, follow_all}
use ether_state.LiveChain.Revert.{AllOrphaned}
use ether_state.LiveChain.Rounds.{run_rounds, run_rounds_lem, run_rounds_revert, IsCanonical}

-- Both branches have block 5.
abbrev hash_on : ℕ → ℕ → ℕ
hash_on branch n = if leb n 5 then n * 100 else n * 100 + branch

abbrev block_on : ℕ → ℕ → Update
block_on branch n = record {
  number = n;
  hash = some (hash_on branch n);
  parent_hash = some (hash_on branch (n - 1));
  content = 0;
}

abbrev provider : ℕ → ℕ → Environment
provider branch n = record {
  heads = record { number = n; hash = (block_on branch n).hash } ∷ [];
  load = λ k. loaded (block_on branch k);
  header = λ k. some (block_on branch k).hash;
}

abbrev two_rounds : List Environment
two_rounds = provider 0 5 ∷ provider 0 6 ∷ []

run_rounds_lem_example :
    let (state, chain) = run_rounds init [] two_rounds in
    IsLinked none chain × (state.cursor ≡ last_of none chain)
run_rounds_lem_example = run_rounds_lem two_rounds

follows_two : (run_rounds init [] two_rounds).1 ≡ block_on 0 5 ∷ block_on 0 6 ∷ []
unfolding run_rounds acquire first_news wanted count_up load_all settle first_conflict find_ancestor
    resolve advance trim follow follow_all
follows_two = refl

reverts_to_5 :
    (acquire (provider 1 7) (run_rounds init [] two_rounds).0).1
    ≡ emits (revert 6 (block_on 0 5) ∷ [])
unfolding run_rounds acquire first_news wanted count_up load_all settle first_conflict find_ancestor
    resolve advance trim follow follow_all
reverts_to_5 = refl

run_rounds_revert_example :
    (6 ≡ 5 + 1)
    × IsCanonical (provider 1 7).header (block_on 0 5)
    × (passed : List (ℕ × Update)) × (rest : List (ℕ × Update)) × (reverse
          (run_rounds init [] two_rounds).0.retained
        ≡ passed ++ (5, block_on 0 5) ∷ rest)
    × AllOrphaned (provider 1 7).header passed
run_rounds_revert_example =
    run_rounds_revert two_rounds (provider 1 7) 6 (block_on 0 5) reverts_to_5
