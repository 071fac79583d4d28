-- ===== src/Node/Extensions.antt =====
-- `create_full` of node/src/rpc.rs: the RPC methods of a full node. A module is the list of its
-- methods by name; `RpcModule::merge` is a parameter, as are the two modules of the substrate
-- crates.
use Prim.Native.String.{String}
use ghost_blockchain.Base.{List, [], ◌∷◌, ◌++◌, ◌≡◌, ◌⊎◌, inl, inr, refl, Sum-cases}
use ghost_blockchain.Node.{get_node_status, get_consensus_mode, get_pqc_status}
use ghost_blockchain.Rpc.{RpcResult}

-- The methods of a module, where `M` is what answers a call.
abbrev pub RpcModule : Type 0 → Type 0
RpcModule M = List (String × M)

-- `struct FullDeps`
pub record FullDeps (Client Pool DenyUnsafe : Type 0) : Type 0 where
  pub client : Client
  pub pool : Pool
  pub deny_unsafe : DenyUnsafe

-- The RPC crates: `answer` makes a method of a fixed answer.
pub record RpcLibrary (Client Pool DenyUnsafe M E : Type 0) : Type 0 where
  pub answer : RpcResult String → M
  pub merge : RpcModule M → RpcModule M → E ⊎ RpcModule M
  pub system : FullDeps Client Pool DenyUnsafe → RpcModule M
  pub transaction_payment : Client → RpcModule M

module _ {Client Pool DenyUnsafe M E : Type 0} (rpc : RpcLibrary Client Pool DenyUnsafe M E) where
  -- `GhostNodeRpc::into_rpc`
  abbrev pub ghost_node_rpc : RpcModule M
  ghost_node_rpc =
      ("ghost_getNodeStatus", rpc.answer get_node_status)
      ∷ ("ghost_getConsensusMode", rpc.answer get_consensus_mode)
      ∷ ("ghost_getPqcStatus", rpc.answer get_pqc_status)
      ∷ []

  -- `module.merge(other)?`
  abbrev pub merge_into : E ⊎ RpcModule M → RpcModule M → E ⊎ RpcModule M
  merge_into (inl e) other = inl e
  merge_into (inr m) other = rpc.merge m other

  unfoldable pub create_full : FullDeps Client Pool DenyUnsafe → E ⊎ RpcModule M
  create_full deps =
      merge_into (merge_into (rpc.merge [] (rpc.system deps)) (rpc.transaction_payment deps.client))
        ghost_node_rpc

-- The answer of a method, if the module has it.
abbrev pub HasMethod : {M : Type 0} → RpcModule M → String → Type 0
HasMethod [] name = ⊥
HasMethod ((n, m) ∷ ms) name = (n ≡ name) ⊎ HasMethod ms name

-- The modules have a method name in common.
abbrev pub Collide : {M : Type 0} → RpcModule M → RpcModule M → Type 0
Collide a b = (name : String) × HasMethod a name × HasMethod b name

-- What the documentation of `RpcModule::merge` promises: it fails if a method name is in both
-- modules, and else adds the methods of the other module.
pub record MergeLaws {Client Pool DenyUnsafe M E : Type 0}
    (rpc : RpcLibrary Client Pool DenyUnsafe M E) : Type 0 where
  pub merge_apart : (a b : RpcModule M) → ¬ Collide a b → rpc.merge a b ≡ inr (a ++ b)
  pub merge_collides : (a b : RpcModule M) → Collide a b → (e : E) × (rpc.merge a b ≡ inl e)

module _ {Client Pool DenyUnsafe M E : Type 0} (rpc : RpcLibrary Client Pool DenyUnsafe M E)
    (laws : MergeLaws rpc) where
  merge_cases :
      (a b : RpcModule M)
      → ((¬ Collide a b) × (rpc.merge a b ≡ inr (a ++ b)))
        ⊎ ((¬ ¬ Collide a b) × ((e : E) × (rpc.merge a b ≡ inl e)))
  merge_cases a b = elim (Sum-cases (rpc.merge a b)) [
    | inl (e, fails) ↦ inr (λ apart. cc (laws.merge_apart a b apart, fails), (e, fails))
    | inr (m, merged) ↦
        let apart : ¬ Collide a b = λ c. cc ((laws.merge_collides a b c).1, merged) in
        inl (apart, laws.merge_apart a b apart)
  ]

  -- The three modules have no method name in common.
  abbrev pub Apart : FullDeps Client Pool DenyUnsafe → Type 0
  Apart deps =
      let system = rpc.system deps in
      let payment = rpc.transaction_payment deps.client in
      (¬ Collide system payment) × (¬ Collide (system ++ payment) (ghost_node_rpc rpc))

  -- With a `merge` that fails exactly on a common method name and else adds the methods, the node's
  -- RPC module has the methods of the system module, of the payment module and the three of the
  -- node, in this order, if no two of those share a name; and else the start of the RPC fails.
  pub create_full_outcome :
      (deps : FullDeps Client Pool DenyUnsafe)
      → (Apart deps
          × (create_full rpc deps
              ≡ inr
                  ((rpc.system deps ++ rpc.transaction_payment deps.client) ++ ghost_node_rpc rpc)))
        ⊎ ((¬ Apart deps) × ((e : E) × (create_full rpc deps ≡ inl e)))
  unfolding create_full
  create_full_outcome deps =
      let system = rpc.system deps in
      let payment = rpc.transaction_payment deps.client in
      let first : rpc.merge [] system ≡ inr system = laws.merge_apart [] system (λ c. absurd c.1) in
      elim (merge_cases system payment) [
        | inr (collide, (e, fails)) ↦ inr (λ apart. collide apart.0, (e, rw (first, fails) refl))
        | inl (apart, merged) ↦ elim (merge_cases (system ++ payment) (ghost_node_rpc rpc)) [
          | inr (collide, (e, fails)) ↦
              inr (λ apart'. collide apart'.1, (e, rw (first, merged, fails) refl))
          | inl (apart', merged') ↦ inl ((apart, apart'), rw (first, merged, merged') refl)
        ]
      ]
