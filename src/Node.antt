-- ===== src/Node.antt =====
-- The node: its own RPC methods, node/src/rpc.rs, and, in child modules, its start, its commands
-- and its chain specifications.
pub mod Commands
pub mod Config
pub mod Startup
pub mod Extensions
pub mod Crates
pub mod Marks
pub mod Partial
pub mod Service
pub mod Run
pub mod ChainSpec
pub mod Benchmarking
use Prim.Native.String.{String}
use ghost_blockchain.Base.{◌⊎◌, inr}
use ghost_blockchain.Rpc.{RpcResult}

-- `GhostNodeRpc`: each method answers a fixed text.
pub get_node_status : RpcResult String
get_node_status = inr "Ghost node uses Aura for authoring and GRANDPA for finality in this build."

pub get_consensus_mode : RpcResult String
get_consensus_mode =
    inr "Aura + GRANDPA live; Ghost hybrid PoW + PoS remains informational/prototype code."

pub get_pqc_status : RpcResult String
get_pqc_status = inr "Dilithium5 support is not wired into the live node RPC surface yet."
