-- ===== src/Node/Service.antt =====
-- `new_full` of node/src/service.rs: how a full node starts. The network, the offchain workers,
-- Aura and GRANDPA are calls of the substrate crates (`Library`).
pub mod Tasks
use ghost_blockchain.Base.{Bool, true, false, not, Option, none, some, inr}
use ghost_blockchain.Node.Config.{Configuration, is_authority}
use ghost_blockchain.Node.Extensions.{create_full}
use ghost_blockchain.Node.Startup.{
  spawned, network_started, Startup, ◌>>=◌, ◌>>◌, pure, try, expect, spawning, happens,
}
use ghost_blockchain.Node.Crates.{Crates, Starting, Config, Library, GrandpaParams}
use ghost_blockchain.Node.Partial.{
  Service, grandpa_justification_period, offchain_task, aura_task, grandpa_task, inherents,
  new_partial,
}

module _ {c : Crates} (lib : Library c) where
  -- What the network's start leaves for the authoring and the voter.
  pub record Networked : Type 0 where
    pub network : c.Network
    pub channels : c.Channels
    pub sync_service : c.Sync
    pub grandpa_protocol_name : c.ProtocolName
    pub grandpa_notification_service : c.Notifications

  -- `new_full` up to `build_network`.
  unfoldable pub build : Config c → Service lib → Starting c Networked
  build config service = do
    genesis ← expect (lib.block_hash service.client 0) "Genesis block exists; qed"
    let metrics = lib.register_notification_metrics config.settings
    let protocol_name = lib.protocol_standard_name genesis config.settings
    let peers =
        lib.grandpa_peers_set_config protocol_name metrics (lib.net_config_new config.settings)
    let warp_sync = lib.warp_proof_provider service.backend service.grandpa_link
    let built = lib.build_network (record {
      config = config;
      net_config = peers.0;
      client = service.client;
      transaction_pool = service.transaction_pool;
      import_queue = service.import_queue;
      warp_sync_params = some warp_sync;
      metrics = metrics;
    })
    spawning built.1
    parts ← try built.0
    pure (record {
      network = parts.0;
      channels = parts.1;
      sync_service = parts.2;
      grandpa_protocol_name = protocol_name;
      grandpa_notification_service = peers.1;
    })

  -- The offchain workers, where they are enabled.
  abbrev pub spawn_offchain :
      (enabled : Bool) → Config c → Service lib → Networked → Starting c (Unit {0})
  spawn_offchain false config service net = pure tt
  spawn_offchain true config service net = happens (
      spawned offchain_task (
        lib.offchain_run
          (record {
            runtime_api_provider = service.client;
            is_validator = is_authority config.role;
            keystore = some service.keystore_container;
            offchain_db = service.backend;
            transaction_pool = some service.transaction_pool;
            network_provider = net.network;
            enable_http_requests = true;
          })
          service.client))

  -- The tasks of the node's services and RPC.
  unfoldable pub spawn_services : Config c → Service lib → Networked → Starting c (Unit {0})
  spawn_services config service net = do
    let spawn = lib.spawn_tasks (record {
      network = net.network;
      client = service.client;
      keystore = service.keystore_container;
      transaction_pool = service.transaction_pool;
      rpc_builder = λ deny_unsafe. create_full lib.rpc (record {
        client = service.client;
        pool = service.transaction_pool;
        deny_unsafe = deny_unsafe;
      });
      backend = service.backend;
      channels = net.channels;
      sync_service = net.sync_service;
      config = config;
      telemetry = service.telemetry;
    })
    spawning spawn.1
    try spawn.0

  -- Aura, for an authority.
  abbrev pub author :
      (authority : Bool) → Config c → Service lib → Networked → Starting c (Unit {0})
  author false config service net = pure tt
  author true config service net = do
    let proposer_factory =
        lib.proposer_factory_new service.client service.transaction_pool service.telemetry
    slot_duration ← try (lib.slot_duration service.client)
    aura ← try (
        lib.start_aura (record {
          slot_duration = slot_duration;
          client = service.client;
          select_chain = service.select_chain;
          block_import = service.grandpa_block_import;
          proposer_factory = proposer_factory;
          create_inherent_data_providers = λ now. inr (inherents lib now slot_duration);
          force_authoring = config.force_authoring;
          backoff_authoring_blocks = none;
          keystore = service.keystore_container;
          sync_oracle = net.sync_service;
          justification_sync_link = net.sync_service;
          block_proposal_slot_portion = (2, 3);
          max_block_proposal_slot_portion = none;
          telemetry = service.telemetry;
        }))
    happens (spawned aura_task aura)

  -- `GrandpaParams`: the voter has a keystore only for an authority.
  abbrev pub voter_keystore : (authority : Bool) → Service lib → Option c.Keystore
  voter_keystore false service = none
  voter_keystore true service = some service.keystore_container

  abbrev pub grandpa_params : Config c → Service lib → Networked → GrandpaParams c
  grandpa_params config service net = record {
    config = record {
      gossip_duration = 333;
      justification_generation_period = grandpa_justification_period;
      name = some config.node_name;
      observer_enabled = false;
      keystore = voter_keystore (is_authority config.role) service;
      local_role = config.role;
      telemetry = service.telemetry;
      protocol_name = net.grandpa_protocol_name;
    };
    link = service.grandpa_link;
    network = net.network;
    sync = net.sync_service;
    notification_service = net.grandpa_notification_service;
    offchain_pool = service.transaction_pool;
    telemetry = service.telemetry;
  }

  -- The GRANDPA voter, where GRANDPA is not disabled.
  abbrev pub vote : (enabled : Bool) → Config c → Service lib → Networked → Starting c (Unit {0})
  vote false config service net = pure tt
  vote true config service net = do
    voter ← try (lib.run_grandpa_voter (grandpa_params config service net))
    happens (spawned grandpa_task voter)

  unfoldable pub new_full : Config c → Starting c (Unit {0})
  unfolding new_partial build spawn_services
  new_full config = do
    service ← new_partial lib config
    net ← build config service
    spawn_offchain config.offchain_worker_enabled config service net
    spawn_services config service net
    happens network_started
    author (is_authority config.role) config service net
    vote (not config.disable_grandpa) config service net
