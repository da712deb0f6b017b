-- ===== src/ChainList.antt =====
-- src/rpc/chainList.ts: what is read of the downloaded list of chains. Texts are named by numbers;
-- the pattern for templates and the parsing of URLs are parameters.
use ether_state.Prelude.{
  ℕ, Bool, ◌||◌, Option, none, some, List, [], ◌∷◌, ◌++◌, map, any, ◌==◌, if◌then◌else◌, or_default,
  length,
}
use ether_state.Prelude.Results.{Result, ok, err, ◌>>=◌}

-- A text, or an object with a URL.
pub data RpcEntry : Type 0 where
  url_only with_url : ℕ → RpcEntry

pub record ChainListExplorer : Type 0 where
  pub name : Option ℕ
  pub url : ℕ
  pub standard : Option ℕ

pub data ExplorerEntry : Type 0 where
  explorer_url : ℕ → ExplorerEntry
  explorer : ChainListExplorer → ExplorerEntry

pub record ChainListChain : Type 0 where
  pub chain_id : ℕ
  pub name : ℕ
  pub rpc : List RpcEntry
  pub explorers : Option (List ExplorerEntry)

pub data Protocol : Type 0 where
  http_protocol https_protocol ws_protocol wss_protocol other_protocol : Protocol

-- `new URL(value)`, as far as it is read.
pub record Url : Type 0 where
  pub username : Bool
  pub password : Bool
  pub protocol : Protocol
  pub href : ℕ

pub record RpcEndpoints : Type 0 where
  pub http : List ℕ
  pub ws : List ℕ

pub data ChainListError : Type 0 where
  chain_list_unavailable : ℕ → ChainListError
  chain_not_found no_rpc_endpoints : ℕ → ChainListError

abbrev find_chain : ℕ → List ChainListChain → Option ChainListChain
find_chain chain_id [] = none
find_chain chain_id (chain ∷ chains) =
    let rest = find_chain chain_id chains in if chain.chain_id == chain_id then some chain else rest

-- The first argument is the list, or the failure to get it.
unfoldable pub get_chain :
    Result ChainListError (List ChainListChain) → ℕ → Result ChainListError ChainListChain
get_chain chain_list chain_id = do
  chains ← chain_list
  elim (find_chain chain_id chains) [
    | none ↦ err (chain_not_found chain_id)
    | some chain ↦ ok chain
  ]

abbrev to_explorer : ExplorerEntry → ChainListExplorer
to_explorer (explorer_url url) = record { name = none; url = url; standard = none }
to_explorer (explorer e) = e

unfoldable pub get_explorers :
    Result ChainListError (List ChainListChain) → ℕ → Result ChainListError (List ChainListExplorer)
unfolding get_chain
get_explorers chain_list chain_id = do
  chain ← get_chain chain_list chain_id
  ok (map to_explorer (or_default [] chain.explorers))

abbrev value_of_entry : RpcEntry → ℕ
value_of_entry (url_only value) = value
value_of_entry (with_url value) = value

-- `Set.add`
abbrev add_to : ℕ → List ℕ → List ℕ
add_to x xs = if any (λ y. y == x) xs then xs else xs ++ x ∷ []

abbrev add_url : Url → RpcEndpoints → RpcEndpoints
add_url url found = elim url.protocol [
  | http_protocol ↦ record found { http = add_to url.href found.http }
  | https_protocol ↦ record found { http = add_to url.href found.http }
  | ws_protocol ↦ record found { ws = add_to url.href found.ws }
  | wss_protocol ↦ record found { ws = add_to url.href found.ws }
  | other_protocol ↦ found
]

module _ (is_template : ℕ → Bool) (parse_url : ℕ → Option Url) where
  -- A round of the loop over the entries.
  unfoldable pub add_entry : RpcEntry → RpcEndpoints → RpcEndpoints
  add_entry entry found =
      let value = value_of_entry entry in
      let parsed : RpcEndpoints = elim (parse_url value) [
        | none ↦ found
        | some url ↦ if url.username || url.password then found else add_url url found
      ] in
      if is_template value then found else parsed

  unfoldable pub add_entries : List RpcEntry → RpcEndpoints → RpcEndpoints
  unfolding add_entry
  add_entries [] found = found
  add_entries (entry ∷ entries) found = add_entries entries (add_entry entry found)

  unfoldable pub get_rpc_endpoints :
      Result ChainListError (List ChainListChain) → ℕ → Result ChainListError RpcEndpoints
  unfolding get_chain add_entries
  get_rpc_endpoints chain_list chain_id = do
    chain ← get_chain chain_list chain_id
    let found = add_entries chain.rpc (record { http = []; ws = [] })
    if length (found.http ++ found.ws) == 0 then err (no_rpc_endpoints chain_id) else ok found
