-- ===== src/Client.antt =====
-- src/rpc/client.ts: what a client knows of its endpoints, and the reads that it sends to them (Reads).
-- Endpoints, methods and errors' texts are named by numbers, and times are in milliseconds.
pub mod Reads
pub mod Endpoints
use ether_state.Prelude.{ℕ, ◌*◌, ◌-◌, Bool, true, false, Option, List, leb, if◌then◌else◌}
use ether_state.Rpc.{ℤ, pos, minus}

pub data RpcTransport : Type 0 where
  http ws : RpcTransport

pub data EndpointStatus : Type 0 where
  selected standby : EndpointStatus
  failed : ℕ → EndpointStatus
  wrong_chain : ℕ → EndpointStatus

-- The number and the age of the block that an answer is about.
pub record BlockDetails : Type 0 where
  pub block_number : Option ℕ
  pub block_age : Option ℤ

pub data Observed : Type 0 where
  success : BlockDetails → Observed
  failure : ℕ → Observed
  cancelled : Observed

-- `elapsed` is `responseMs` or `elapsedMs`.
pub record EndpointObservation : Type 0 where
  pub method : ℕ
  pub observed_at : ℕ
  pub elapsed : ℕ
  pub observed : Observed

pub record EndpointState : Type 0 where
  pub endpoint : ℕ
  pub transport : RpcTransport
  pub status : EndpointStatus
  pub observations : List EndpointObservation
  pub unsupported_methods : Option (List ℕ)
  pub unsupported_log_ranges : Option Bool

abbrev pub is_selected : EndpointStatus → Bool
is_selected selected = true
is_selected _ = false

abbrev pub is_standby : EndpointStatus → Bool
is_standby standby = true
is_standby _ = false

abbrev pub is_http : RpcTransport → Bool
is_http http = true
is_http ws = false
