-- ===== src/Node/Crates.antt =====
-- The types and the calls of the substrate crates that node/src/service.rs uses, as parameters. The
-- records are the crates' parameter structs, with the fields that the node sets to a value of its
-- own.
use Prim.Native.String.{String}
use ghost_blockchain.Base.{ℕ, Bool, Option, List, ◌⊎◌}
use ghost_blockchain.Node.Config.{Configuration, Role}
use ghost_blockchain.Node.Extensions.{RpcModule, RpcLibrary}
use ghost_blockchain.Node.Startup.{Inside, Startup}

-- The types of the crates.
pub record Crates : Type 1 where
  pub Settings : Type 0
  pub ServiceError : Type 0
  pub Future : Type 0
  pub Worker : Type 0
  pub Telemetry : Type 0
  pub Executor : Type 0
  pub Client : Type 0
  pub Backend : Type 0
  pub Keystore : Type 0
  pub SelectChain : Type 0
  pub Pool : Type 0
  pub BlockImport : Type 0
  pub Link : Type 0
  pub ImportQueue : Type 0
  pub Hash : Type 0
  pub Metrics : Type 0
  pub NetConfig : Type 0
  pub Notifications : Type 0
  pub ProtocolName : Type 0
  pub WarpSync : Type 0
  pub Network : Type 0
  pub Channels : Type 0
  pub Sync : Type 0
  pub ProposerFactory : Type 0
  pub DenyUnsafe : Type 0
  pub Method : Type 0
  pub RpcError : Type 0

module _ (c : Crates) where
  abbrev pub Starting : Type 0 → Type 0
  Starting A = Startup c.ServiceError c.Future A

  abbrev pub Config : Type 0
  Config = Configuration c.Settings

  -- An inherent: the slot and the timestamp, from the parent and the time of the system.
  abbrev pub Providers : Type 0
  Providers = c.Hash → (now : ℕ) → c.ServiceError ⊎ (ℕ × ℕ)

  -- `sc_consensus_aura::ImportQueueParams`.
  pub record ImportQueueParams : Type 0 where
    pub block_import : c.BlockImport
    pub justification_import : Option c.BlockImport
    pub client : c.Client
    pub create_inherent_data_providers : Providers
    pub telemetry : Option c.Telemetry

  -- `sc_service::BuildNetworkParams`
  pub record BuildNetworkParams : Type 0 where
    pub config : Config
    pub net_config : c.NetConfig
    pub client : c.Client
    pub transaction_pool : c.Pool
    pub import_queue : c.ImportQueue
    pub warp_sync_params : Option c.WarpSync
    pub metrics : c.Metrics

  -- `sc_offchain::OffchainWorkerOptions`
  pub record OffchainWorkerOptions : Type 0 where
    pub runtime_api_provider : c.Client
    pub is_validator : Bool
    pub keystore : Option c.Keystore
    pub offchain_db : c.Backend
    pub transaction_pool : Option c.Pool
    pub network_provider : c.Network
    pub enable_http_requests : Bool

  -- `sc_service::SpawnTasksParams`
  pub record SpawnTasksParams : Type 0 where
    pub network : c.Network
    pub client : c.Client
    pub keystore : c.Keystore
    pub transaction_pool : c.Pool
    pub rpc_builder : c.DenyUnsafe → c.RpcError ⊎ RpcModule c.Method
    pub backend : c.Backend
    pub channels : c.Channels
    pub sync_service : c.Sync
    pub config : Config
    pub telemetry : Option c.Telemetry

  -- `StartAuraParams`. The slot portion is a fraction, and `create_inherent_data_providers` takes
  -- no parent.
  pub record StartAuraParams : Type 0 where
    pub slot_duration : ℕ
    pub client : c.Client
    pub select_chain : c.SelectChain
    pub block_import : c.BlockImport
    pub proposer_factory : c.ProposerFactory
    pub create_inherent_data_providers : (now : ℕ) → c.ServiceError ⊎ (ℕ × ℕ)
    pub force_authoring : Bool
    pub backoff_authoring_blocks : Option (Unit {0})
    pub keystore : c.Keystore
    pub sync_oracle : c.Sync
    pub justification_sync_link : c.Sync
    pub block_proposal_slot_portion : ℕ × ℕ
    pub max_block_proposal_slot_portion : Option (ℕ × ℕ)
    pub telemetry : Option c.Telemetry

  -- `sc_consensus_grandpa::Config`. The gossip duration is in milliseconds.
  pub record GrandpaConfig : Type 0 where
    pub gossip_duration : ℕ
    pub justification_generation_period : ℕ
    pub name : Option String
    pub observer_enabled : Bool
    pub keystore : Option c.Keystore
    pub local_role : Role
    pub telemetry : Option c.Telemetry
    pub protocol_name : c.ProtocolName

  -- `GrandpaParams`
  pub record GrandpaParams : Type 0 where
    pub config : GrandpaConfig
    pub link : c.Link
    pub network : c.Network
    pub sync : c.Sync
    pub notification_service : c.Notifications
    pub offchain_pool : c.Pool
    pub telemetry : Option c.Telemetry

  -- The calls of the crates. `Inside` is the tasks that a call spawns itself.
  pub record Library : Type 0 where
    pub worker_new : (buffer : ℕ) → c.ServiceError ⊎ c.Worker
    pub new_telemetry : c.Worker → List (String × ℕ) → c.Telemetry
    pub worker_run : c.Worker → c.Future
    pub new_wasm_executor : Config → c.Executor
    pub new_full_parts :
        Config
        → Option c.Telemetry
        → c.Executor
        → c.ServiceError ⊎ (c.Client × c.Backend × c.Keystore)
    pub longest_chain : c.Backend → c.SelectChain
    pub new_pool : c.Settings → (is_validator : Bool) → c.Client → c.Pool × Inside c.Future
    pub block_import :
        c.Client
        → (justification_period : ℕ) → c.SelectChain
        → Option c.Telemetry
        → c.ServiceError ⊎ (c.BlockImport × c.Link)
    pub slot_duration_at : c.Client → c.Hash → c.ServiceError ⊎ ℕ
    pub from_timestamp_and_slot_duration : (timestamp slot_duration : ℕ) → ℕ
    pub import_queue : ImportQueueParams → (c.ServiceError ⊎ c.ImportQueue) × Inside c.Future
    pub net_config_new : c.Settings → c.NetConfig
    pub register_notification_metrics : c.Settings → c.Metrics
    pub block_hash : c.Client → ℕ → c.ServiceError ⊎ Option c.Hash
    pub protocol_standard_name : c.Hash → c.Settings → c.ProtocolName
    -- With the network configuration that has the protocol added.
    pub grandpa_peers_set_config :
        c.ProtocolName → c.Metrics → c.NetConfig → c.NetConfig × c.Notifications
    pub warp_proof_provider : c.Backend → c.Link → c.WarpSync
    pub build_network :
        BuildNetworkParams → (c.ServiceError ⊎ (c.Network × c.Channels × c.Sync)) × Inside c.Future
    pub offchain_run : OffchainWorkerOptions → c.Client → c.Future
    pub spawn_tasks : SpawnTasksParams → (c.ServiceError ⊎ Unit {0}) × Inside c.Future
    pub proposer_factory_new : c.Client → c.Pool → Option c.Telemetry → c.ProposerFactory
    pub slot_duration : c.Client → c.ServiceError ⊎ ℕ
    pub start_aura : StartAuraParams → c.ServiceError ⊎ c.Future
    pub run_grandpa_voter : GrandpaParams → c.ServiceError ⊎ c.Future
    pub rpc : RpcLibrary c.Client c.Pool c.DenyUnsafe c.Method c.RpcError
