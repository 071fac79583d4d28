-- ===== src/Node/Partial.antt =====
-- `new_partial` of node/src/service.rs: what every command of the node that needs its client
-- builds.
use Prim.Native.String.{String}
use ghost_blockchain.Base.{ℕ, true, false, Option, none, some, List, [], ◌∷◌, ◌⊎◌, inl, inr}
use ghost_blockchain.Node.Config.{is_authority}
use ghost_blockchain.Node.Startup.{Kind, spawned, ◌>>=◌, ◌>>◌, pure, try, spawning, happens}
use ghost_blockchain.Node.Crates.{Crates, Starting, Config, Library}

abbrev pub grandpa_justification_period : ℕ
grandpa_justification_period = 512

-- The four tasks that the node spawns itself.
abbrev pub telemetry_task : Kind
telemetry_task = record { name = "telemetry"; group = none; essential = false; blocking = false }

abbrev pub offchain_task : Kind
offchain_task = record {
  name = "offchain-workers-runner";
  group = some "offchain-worker";
  essential = false;
  blocking = false;
}

abbrev pub aura_task : Kind
aura_task = record {
  name = "aura";
  group = some "block-authoring";
  essential = true;
  blocking = true;
}

abbrev pub grandpa_task : Kind
grandpa_task = record { name = "grandpa-voter"; group = none; essential = true; blocking = true }

-- `telemetry_endpoints.clone().filter(|x| !x.is_empty())`
abbrev pub some_endpoints : Option (List (String × ℕ)) → Option (List (String × ℕ))
some_endpoints none = none
some_endpoints (some []) = none
some_endpoints (some (e ∷ es)) = some (e ∷ es)

module _ {c : Crates} (lib : Library c) where
  -- `sc_service::PartialComponents`, less the task manager, which is the record of what happened.
  pub record Service : Type 0 where
    pub client : c.Client
    pub backend : c.Backend
    pub keystore_container : c.Keystore
    pub select_chain : c.SelectChain
    pub import_queue : c.ImportQueue
    pub transaction_pool : c.Pool
    pub grandpa_block_import : c.BlockImport
    pub grandpa_link : c.Link
    pub telemetry : Option c.Telemetry

  -- The slot of a timestamp, with the timestamp.
  abbrev pub inherents : (now slot_duration : ℕ) → ℕ × ℕ
  inherents now slot_duration = (lib.from_timestamp_and_slot_duration now slot_duration, now)

  abbrev pub providers_of : (now : ℕ) → c.ServiceError ⊎ ℕ → c.ServiceError ⊎ (ℕ × ℕ)
  providers_of now (inl e) = inl e
  providers_of now (inr slot_duration) = inr (inherents now slot_duration)

  -- The telemetry worker, where there are endpoints.
  abbrev pub start_telemetry :
      Option (List (String × ℕ)) → Starting c (Option (c.Worker × c.Telemetry))
  start_telemetry none = pure none
  start_telemetry (some endpoints) = do
    worker ← try (lib.worker_new 16)
    pure (some (worker, lib.new_telemetry worker endpoints))

  abbrev pub telemetry_of : Option (c.Worker × c.Telemetry) → Option c.Telemetry
  telemetry_of none = none
  telemetry_of (some (worker, telemetry)) = some telemetry

  abbrev pub spawn_telemetry : Option (c.Worker × c.Telemetry) → Starting c (Unit {0})
  spawn_telemetry none = pure tt
  spawn_telemetry (some (worker, telemetry)) =
      happens (spawned telemetry_task (lib.worker_run worker))

  -- `new_partial` from the client on.
  unfoldable pub client_parts : Config c → Option (c.Worker × c.Telemetry) → Starting c Service
  client_parts config started = do
    let telemetry = telemetry_of started
    parts ← try (lib.new_full_parts config telemetry (lib.new_wasm_executor config))
    let client = parts.0
    let backend = parts.1
    spawn_telemetry started
    let select_chain = lib.longest_chain backend
    let pool = lib.new_pool config.settings (is_authority config.role) client
    spawning pool.1
    grandpa ← try (lib.block_import client grandpa_justification_period select_chain telemetry)
    let queue = lib.import_queue (record {
      block_import = grandpa.0;
      justification_import = some grandpa.0;
      client = client;
      create_inherent_data_providers =
          λ parent_hash now. providers_of now (lib.slot_duration_at client parent_hash);
      telemetry = telemetry;
    })
    spawning queue.1
    import_queue ← try queue.0
    pure (record {
      client = client;
      backend = backend;
      keystore_container = parts.2;
      select_chain = select_chain;
      import_queue = import_queue;
      transaction_pool = pool.0;
      grandpa_block_import = grandpa.0;
      grandpa_link = grandpa.1;
      telemetry = telemetry;
    })

  unfoldable pub new_partial : Config c → Starting c Service
  unfolding client_parts
  new_partial config =
      start_telemetry (some_endpoints config.telemetry_endpoints) >>= client_parts config
