-- ===== src/Node/Startup.antt =====
-- What node/src/service.rs is built over: the types and the calls of the substrate crates, as
-- parameters, and a start-up as a run that can fail or panic and that records, in order, the tasks
-- that are spawned and the start of the network. A crate's call that is given a handle to spawn
-- with returns the tasks that it spawns itself.
use Prim.Native.String.{String}
use ghost_blockchain.Base.{Bool, Option, none, some, List, [], ◌∷◌, ◌++◌, ◌⊎◌, inl, inr}

pub data Outcome (E A : Type 0) : Type 0 where
  ok : A → Outcome E A
  err : E → Outcome E A
  panicked : String → Outcome E A

-- What the node asks of a task: its name and group, whether the node ends with it, and whether it
-- blocks its thread.
pub record Kind : Type 0 where
  pub name : String
  pub group : Option String
  pub essential : Bool
  pub blocking : Bool

pub data Happening (F : Type 0) : Type 0 where
  spawned : Kind → F → Happening F
  spawned_inside : Kind → F → Happening F
  network_started : Happening F

-- The types of the crates.
pub record Crates : Type 1 where
  pub Settings : Type 0
  pub ServiceError : Type 0
  pub Future : Type 0
  pub Worker : Type 0
  pub Telemetry : Type 0
  pub Executor : Type 0
  pub Client : Type 0
  pub Backend : Type 0
  pub Keystore : Type 0
  pub SelectChain : Type 0
  pub Pool : Type 0
  pub BlockImport : Type 0
  pub Link : Type 0
  pub ImportQueue : Type 0
  pub Hash : Type 0
  pub Peers : Type 0
  pub Notifications : Type 0
  pub ProtocolName : Type 0
  pub Network : Type 0
  pub Channels : Type 0
  pub Sync : Type 0
  pub ProposerFactory : Type 0
  pub RpcModule : Type 0

-- The tasks that a call spawns inside.
abbrev pub Inside : Type 0 → Type 0
Inside F = List (Kind × F)

abbrev pub inside : {F : Type 0} → Inside F → List (Happening F)
inside [] = []
inside ((kind, future) ∷ ts) = spawned_inside kind future ∷ inside ts

abbrev pub Startup : (E F A : Type 0) → Type 0
Startup E F A = List (Happening F) → Outcome E A × List (Happening F)

module _ {E F : Type 0} where
  abbrev pub then_do :
      {A B : Type 0}
      → Outcome E A × List (Happening F)
      → (A → Startup E F B)
      → Outcome E B × List (Happening F)
  then_do (ok a, log) f = f a log
  then_do (err e, log) f = (err e, log)
  then_do (panicked why, log) f = (panicked why, log)

  infixl 5 ◌>>=◌ ◌>>◌
  unfoldable pub ◌>>=◌ : {A B : Type 0} → Startup E F A → (A → Startup E F B) → Startup E F B
  ◌>>=◌ m f log = then_do (m log) f

  abbrev pub ◌>>◌ : {A B : Type 0} → Startup E F A → Startup E F B → Startup E F B
  m >> k = m >>= λ _. k

  unfoldable pub pure : {A : Type 0} → A → Startup E F A
  pure a log = (ok a, log)

  -- A call with `?`.
  unfoldable pub try : {A : Type 0} → E ⊎ A → Startup E F A
  try (inl e) log = (err e, log)
  try (inr a) log = (ok a, log)

  -- `expect`, on what `ok().flatten()` gives.
  unfoldable pub expect : {A : Type 0} → E ⊎ Option A → String → Startup E F A
  expect (inl e) why log = (panicked why, log)
  expect (inr none) why log = (panicked why, log)
  expect (inr (some a)) why log = (ok a, log)

  -- The tasks of a call, which are spawned also where it fails.
  unfoldable pub spawning : Inside F → Startup E F (Unit {0})
  spawning ts log = (ok tt, log ++ inside ts)

  unfoldable pub happens : Happening F → Startup E F (Unit {0})
  happens h log = (ok tt, log ++ h ∷ [])
