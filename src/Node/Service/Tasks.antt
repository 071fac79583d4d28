-- ===== src/Node/Service/Tasks.antt =====
-- What a full node runs.
use Prim.Native.String.{String}
use ghost_blockchain.Base.{
  ℕ, ◌≡◌, Bool, true, false, not, Option, none, some, List, [], ◌∷◌, ◌++◌, ◌⊎◌,
}
use ghost_blockchain.Node.Config.{Configuration, is_authority}
use ghost_blockchain.Node.Startup.{Kind, network_started, ◌>>=◌}
use ghost_blockchain.Node.Crates.{Crates, Config, Library}
use ghost_blockchain.Node.Partial.{
  Service, telemetry_task, offchain_task, aura_task, grandpa_task, some_endpoints, start_telemetry,
  client_parts, spawn_telemetry, new_partial,
}
use ghost_blockchain.Node.Marks.{
  Mark, task, start, marks, Does, pure-Does, try-Does, expect-Does, spawning-Does, happens-Does,
  pure_then-Does, try_then-Does, bind-Does, Ends, IsPrefix, Leaves-cases,
}
use ghost_blockchain.Node.Service.{
  Networked, build, spawn_offchain, spawn_services, author, vote, new_full,
}

abbrev pub only_if : Bool → Kind → List Mark
only_if false kind = []
only_if true kind = task kind ∷ []

abbrev pub has_endpoints : Option (List (String × ℕ)) → Bool
has_endpoints none = false
has_endpoints (some []) = false
has_endpoints (some (e ∷ es)) = true

-- What a node does on its own: the telemetry and the offchain workers, the start of the network,
-- and only then the author and the voter.
abbrev pub expected_marks : {S : Type 0} → Configuration S → List Mark
expected_marks config =
    only_if (has_endpoints config.telemetry_endpoints) telemetry_task
    ++ (only_if config.offchain_worker_enabled offchain_task
        ++ (start
            ∷ (only_if (is_authority config.role) aura_task
                ++ only_if (not config.disable_grandpa) grandpa_task)))

module _ {c : Crates} (lib : Library c) where
  abbrev spawned_if : Option (c.Worker × c.Telemetry) → List Mark
  spawned_if none = []
  spawned_if (some started) = task telemetry_task ∷ []

  spawn_telemetry-Does :
      (started : Option (c.Worker × c.Telemetry))
      → Does (spawn_telemetry lib started) (spawned_if started)
  spawn_telemetry-Does none = pure-Does c.ServiceError tt
  spawn_telemetry-Does (some (worker, telemetry)) = happens-Does c.ServiceError _

  client_parts-Does :
      (config : Config c) (started : Option (c.Worker × c.Telemetry))
      → Does (client_parts lib config started) (spawned_if started ++ [])
  unfolding client_parts
  client_parts-Does config started = bind-Does _ _ [] _ (try-Does _) (λ parts.
      bind-Does _ _ (spawned_if started) [] (spawn_telemetry-Does started) (λ _.
        bind-Does _ _ [] [] (spawning-Does c.ServiceError _) (λ _.
          bind-Does _ _ [] [] (try-Does _) (λ grandpa.
            bind-Does _ _ [] [] (spawning-Does c.ServiceError _) (λ _.
              bind-Does _ _ [] [] (try-Does _) (λ import_queue. pure-Does c.ServiceError _))))))

  pub new_partial-Does :
      (config : Config c)
      → Does
          (new_partial lib config)
          (only_if (has_endpoints config.telemetry_endpoints) telemetry_task)
  unfolding new_partial ◌>>=◌
  new_partial-Does config = go config.telemetry_endpoints
    where
      go :
          (endpoints : Option (List (String × ℕ)))
          → Does
              (start_telemetry lib (some_endpoints endpoints) >>= client_parts lib config)
              (only_if (has_endpoints endpoints) telemetry_task)
      go none = pure_then-Does none _ [] (client_parts-Does config none)
      go (some []) = pure_then-Does none _ [] (client_parts-Does config none)
      go (some (e ∷ es)) =
          try_then-Does (lib.worker_new 16) _ _ _ (λ worker. client_parts-Does config (some _))

  build-Does : (config : Config c) (service : Service lib) → Does (build lib config service) []
  unfolding build
  build-Does config service = bind-Does _ _ [] [] (expect-Does _ _) (λ genesis.
      bind-Does _ _ [] [] (spawning-Does c.ServiceError _)
        (λ _. bind-Does _ _ [] [] (try-Does _) (λ parts. pure-Does c.ServiceError _)))

  spawn_offchain-Does :
      (enabled : Bool) (config : Config c) (service : Service lib) (net : Networked lib)
      → Does (spawn_offchain lib enabled config service net) (only_if enabled offchain_task)
  spawn_offchain-Does false config service net = pure-Does c.ServiceError tt
  spawn_offchain-Does true config service net = happens-Does c.ServiceError _

  spawn_services-Does :
      (config : Config c) (service : Service lib) (net : Networked lib)
      → Does (spawn_services lib config service net) []
  unfolding spawn_services
  spawn_services-Does config service net =
      bind-Does _ _ [] [] (spawning-Does c.ServiceError _) (λ _. try-Does _)

  author-Does :
      (authority : Bool) (config : Config c) (service : Service lib) (net : Networked lib)
      → Does (author lib authority config service net) (only_if authority aura_task)
  author-Does false config service net = pure-Does c.ServiceError tt
  author-Does true config service net =
      bind-Does _ _ [] _ (try-Does _)
        (λ slot_duration. bind-Does _ _ [] _ (try-Does _) (λ aura. happens-Does c.ServiceError _))

  vote-Does :
      (enabled : Bool) (config : Config c) (service : Service lib) (net : Networked lib)
      → Does (vote lib enabled config service net) (only_if enabled grandpa_task)
  vote-Does false config service net = pure-Does c.ServiceError tt
  vote-Does true config service net =
      bind-Does _ _ [] _ (try-Does _) (λ voter. happens-Does c.ServiceError _)

  pub new_full-Does : (config : Config c) → Does (new_full lib config) (expected_marks config)
  unfolding new_full
  new_full-Does config = bind-Does _ _ _ _ (new_partial-Does config) (λ service.
      bind-Does _ _ [] _ (build-Does config service) (λ net.
        bind-Does _ _ _ _ (spawn_offchain-Does config.offchain_worker_enabled config service net)
          (λ _. bind-Does _ _ [] _ (spawn_services-Does config service net) (λ _.
            bind-Does _ _ (start ∷ []) _ (happens-Does c.ServiceError network_started) (λ _.
              bind-Does _ _ _ _ (author-Does (is_authority config.role) config service net)
                (λ _. vote-Does (not config.disable_grandpa) config service net))))))

  -- A node that starts has run its own tasks in this order: the telemetry worker if there are
  -- endpoints, the offchain workers if they are enabled, the start of the network, the author if it
  -- is an authority and the voter if GRANDPA is not disabled, with their groups and kinds. A start
  -- that fails or panics has done a beginning of these and no more.
  pub new_full-marks :
      (config : Config c)
      → let r = new_full lib config [] in
        (Ends r.0 × (marks r.1 ≡ expected_marks config))
        ⊎ ((¬ Ends r.0) × IsPrefix (marks r.1) (expected_marks config))
  new_full-marks config =
      Leaves-cases (new_full lib config []) (expected_marks config)
        ((new_full-Does config).leaves [])
