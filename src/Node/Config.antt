-- ===== src/Node/Config.antt =====
-- The part of `sc_service::Configuration` that node/src/service.rs and command.rs read themselves.
-- The rest, which only the crates read, is of a type `S`.
use Prim.Native.String.{String}
use ghost_blockchain.Base.{ℕ, Bool, true, false, Option, List}

pub data Role : Type 0 where
  full authority : Role

abbrev pub is_authority : Role → Bool
is_authority Role.full = false
is_authority Role.authority = true

-- `sc_network::config::NetworkBackendType`
pub data NetworkBackendType : Type 0 where
  libp2p litep2p : NetworkBackendType

pub record Configuration (S : Type 0) : Type 0 where
  pub role : Role
  pub telemetry_endpoints : Option (List (String × ℕ))
  pub offchain_worker_enabled : Bool
  pub force_authoring : Bool
  pub disable_grandpa : Bool
  pub network_backend : NetworkBackendType
  pub node_name : String
  pub settings : S
