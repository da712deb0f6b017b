-- ===== src/Tests/ChainListTests.antt =====
-- A chain with a template, an address with a password, one that is listed twice, and a socket.
use ether_state.Prelude.{
  ℕ, ◌≡◌, refl, Bool, true, false, Option, none, some, [], ◌∷◌, ◌==◌, if◌then◌else◌,
}
use ether_state.Prelude.Results.{ok, err}
use ether_state.ChainList.{
  url_only, with_url, ChainListChain, Url, http_protocol, https_protocol, wss_protocol,
  chain_not_found, get_rpc_endpoints, get_explorers, no_rpc_endpoints,
}

abbrev parse_url : ℕ → Option Url
parse_url n =
    if n == 3
    then some (record { username = false; password = true; protocol = http_protocol; href = 3 })
    else if n == 5
    then some (record { username = false; password = false; protocol = wss_protocol; href = 50 })
    else if n == 6
    then none
    else some (record { username = false; password = false; protocol = https_protocol; href = 40 })

abbrev is_template : ℕ → Bool
is_template n = n == 2

abbrev chain : ChainListChain
chain = record {
  chain_id = 1;
  name = 9;
  rpc = url_only 2 ∷ with_url 3 ∷ url_only 4 ∷ with_url 4 ∷ url_only 5 ∷ url_only 6 ∷ [];
  explorers = none;
}

endpoints_of_one :
    get_rpc_endpoints is_template parse_url (ok (chain ∷ [])) 1
    ≡ ok (record { http = 40 ∷ []; ws = 50 ∷ [] })
unfolding get_rpc_endpoints
endpoints_of_one = refl

no_other_chain :
    get_rpc_endpoints is_template parse_url (ok (chain ∷ [])) 2 ≡ err (chain_not_found 2)
unfolding get_rpc_endpoints
no_other_chain = refl

all_templates :
    get_rpc_endpoints (λ n. true) parse_url (ok (chain ∷ [])) 1 ≡ err (no_rpc_endpoints 1)
unfolding get_rpc_endpoints
all_templates = refl

no_explorers : get_explorers (ok (chain ∷ [])) 1 ≡ ok []
unfolding get_explorers
no_explorers = refl
