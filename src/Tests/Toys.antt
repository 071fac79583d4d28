-- ===== src/Tests/Toys.antt =====
-- Toy crates to start a node with.
use Prim.Native.String.{String}
use ghost_blockchain.Base.{ℕ, ◌/◌, inr, true, false, none, some, [], ◌∷◌}
use ghost_blockchain.Node.Config.{Role, NetworkBackendType}
use ghost_blockchain.Node.Startup.{Kind}
use ghost_blockchain.Tests.Methods.{toy_rpc}
use ghost_blockchain.Node.Crates.{Crates, Config, Library}
use ghost_blockchain.Node.Run.{CommandLibrary}

-- Crates whose values say nothing, but for the texts of errors and tasks.
abbrev pub toy_crates : Crates
toy_crates = record {
  Settings = Unit {0};
  ServiceError = String;
  Future = String;
  Worker = Unit {0};
  Telemetry = Unit {0};
  Executor = Unit {0};
  Client = Unit {0};
  Backend = Unit {0};
  Keystore = Unit {0};
  SelectChain = Unit {0};
  Pool = Unit {0};
  BlockImport = Unit {0};
  Link = Unit {0};
  ImportQueue = Unit {0};
  Hash = Unit {0};
  Metrics = Unit {0};
  NetConfig = Unit {0};
  Notifications = Unit {0};
  ProtocolName = Unit {0};
  WarpSync = Unit {0};
  Network = Unit {0};
  Channels = Unit {0};
  Sync = Unit {0};
  ProposerFactory = Unit {0};
  DenyUnsafe = Unit {0};
  Method = ℕ;
  RpcError = String;
}

abbrev pub pool_task : Kind
pool_task = record { name = "txpool-background"; group = none; essential = true; blocking = false }

-- Every call succeeds, and the pool spawns a task of its own.
abbrev pub toy_library : Library toy_crates
toy_library = record {
  worker_new = λ buffer. inr tt;
  new_telemetry = λ worker endpoints. tt;
  worker_run = λ worker. "telemetry";
  new_wasm_executor = λ config. tt;
  new_full_parts = λ config telemetry executor. inr (tt, tt, tt);
  longest_chain = λ backend. tt;
  new_pool = λ settings is_validator client. (tt, (pool_task, "pool") ∷ []);
  block_import = λ client period chain telemetry. inr (tt, tt);
  slot_duration_at = λ client parent. inr 5000;
  from_timestamp_and_slot_duration = λ timestamp duration. timestamp / duration;
  import_queue = λ params. (inr tt, []);
  net_config_new = λ settings. tt;
  register_notification_metrics = λ settings. tt;
  block_hash = λ client n. inr (some tt);
  protocol_standard_name = λ genesis settings. tt;
  grandpa_peers_set_config = λ name metrics config. (tt, tt);
  warp_proof_provider = λ backend link. tt;
  build_network = λ params. (inr (tt, tt, tt), []);
  offchain_run = λ options client. "offchain";
  spawn_tasks = λ params. (inr tt, []);
  proposer_factory_new = λ client pool telemetry. tt;
  slot_duration = λ client. inr 5000;
  start_aura = λ params. inr "aura";
  run_grandpa_voter = λ params. inr "voter";
  rpc = toy_rpc;
}

abbrev pub validator_config : Config toy_crates
validator_config = record {
  role = Role.authority;
  telemetry_endpoints = some (("/dns/telemetry", 0) ∷ []);
  offchain_worker_enabled = false;
  force_authoring = false;
  disable_grandpa = false;
  network_backend = NetworkBackendType.libp2p;
  node_name = "alice";
  settings = tt;
}

-- Commands that succeed, with their names as arguments.
abbrev pub toy_commands : CommandLibrary toy_crates String String (Unit {0}) (Unit {0})
toy_commands = record {
  create_runner = λ args. inr validator_config;
  from_service_error = λ e. e;
  from_text = λ t. t;
  run_key = λ args. inr tt;
  run_build_spec = λ args settings. inr tt;
  run_check_block = λ args client queue. inr tt;
  run_export_blocks = λ args client settings. inr tt;
  run_export_state = λ args client settings. inr tt;
  run_import_blocks = λ args client queue. inr tt;
  run_purge_chain = λ args settings. inr tt;
  grandpa_revert = λ client blocks. inr tt;
  run_revert = λ args client backend aux. inr tt;
  run_chain_info = λ args config. inr tt;
  run_pallet = λ args settings. inr tt;
  run_block = λ args client. inr tt;
  run_storage = λ args config client backend. inr tt;
  run_overhead = λ args config client inherents builder. inr tt;
  run_extrinsic = λ args client inherents builders. inr tt;
  run_machine = λ args config. inr tt;
  inherent_benchmark_data = inr tt;
  remark_builder = λ client. tt;
  transfer_keep_alive_builder = λ client dest value. tt;
}
