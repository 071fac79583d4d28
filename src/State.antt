-- ===== src/State.antt =====
-- The storage of the consensus pallet (the `#[pallet::storage]` items of
-- pallets/pallet-ghost-consensus/src/lib.rs), with the block number and the events of frame_system
-- and the ledger of the balances pallet; and the calls on it. The body of a call is an action that
-- keeps what it wrote before an error, and the storage layer around it undoes that.
use ghost_blockchain.Base.{
  ℕ, ◌≡◌, ◌≢◌, Bool, true, false, Option, none, some, List, [], ◌∷◌, ◌++◌, StorageMap, ◌⊎◌, inl,
  inr,
}
use ghost_blockchain.Types.{
  GhostBlockHeader, ConsensusPhase, SlashingRecord, Event, Error, DispatchError, Origin,
}

pub record State (L : Type 0) : Type 0 where
  pub difficulty : ℕ
  pub current_phase : ConsensusPhase
  pub block_headers : StorageMap GhostBlockHeader
  pub block_producers : StorageMap ℕ
  pub validator_stakes : StorageMap ℕ
  pub last_active_block : StorageMap ℕ
  pub double_sign_reports : StorageMap Bool
  pub invalid_block_reports : StorageMap Bool
  pub slashing_records : List SlashingRecord
  pub validator_pqc_public_keys : StorageMap (List ℕ)
  pub recent_block_producers : List ℕ
  pub current_entropy : ℕ
  pub block_number : ℕ
  pub events : List Event
  pub ledger : L

pub data Result (A : Type 0) : Type 0 where
  ok : A → Result A
  err : DispatchError → Result A

abbrev pub Action : Type 0 → Type 0 → Type 0
Action L A = State L → Result A × State L

module _ {L : Type 0} where
  -- `?`: what follows a call that has ended.
  abbrev pub and_then : {A B : Type 0} → Result A × State L → (A → Action L B) → Result B × State L
  and_then (ok a, s) f = f a s
  and_then (err e, s) f = (err e, s)

  infixl 5 ◌>>=◌ ◌>>◌
  abbrev pub ◌>>=◌ : {A B : Type 0} → Action L A → (A → Action L B) → Action L B
  ◌>>=◌ m f s = and_then (m s) f

  abbrev pub ◌>>◌ : {A B : Type 0} → Action L A → Action L B → Action L B
  m >> k = m >>= λ _. k

  abbrev pub gets : {A : Type 0} → (State L → A) → Action L A
  gets f s = (ok (f s), s)

  abbrev pub modify : (State L → State L) → Action L (Unit {0})
  modify f s = (ok tt, f s)

  -- `ensure!(c, Error::<T>::E)`
  abbrev pub ensure : Bool → Error → Action L (Unit {0})
  ensure true e s = (ok tt, s)
  ensure false e s = (err (DispatchError.module_error e), s)

  -- `.ok_or(Error::<T>::E)?`
  abbrev pub ok_or : {A : Type 0} → Option A → Error → Action L A
  ok_or none e s = (err (DispatchError.module_error e), s)
  ok_or (some a) e s = (ok a, s)

  -- `ensure_signed(origin)?`
  abbrev pub ensure_signed : Origin → Action L ℕ
  ensure_signed Origin.root s = (err DispatchError.bad_origin, s)
  ensure_signed Origin.none_origin s = (err DispatchError.bad_origin, s)
  ensure_signed (Origin.signed who) s = (ok who, s)

  -- The outcome of a call on the ledger.
  abbrev pub set_ledger : DispatchError ⊎ L → Action L (Unit {0})
  set_ledger (inl e) s = (err e, s)
  set_ledger (inr l) s = (ok tt, record s { ledger = l })

  abbrev pub deposit_event : Event → Action L (Unit {0})
  deposit_event e s = (ok tt, record s { events = s.events ++ e ∷ [] })

  -- The end of a storage layer that was opened in `s`.
  abbrev pub layered : {A : Type 0} → State L → Result A × State L → Result A × State L
  layered s (ok a, t) = (ok a, t)
  layered s (err e, t) = (err e, s)

  -- What `#[pallet::call]` wraps around the body of each call: if it fails, its writes are undone.
  abbrev pub with_storage_layer : {A : Type 0} → Action L A → Action L A
  with_storage_layer m s = layered s (m s)

  -- A call that fails and writes nothing.
  abbrev pub Refused : Result (Unit {0}) × State L → State L → Type 0
  Refused r s = (r.0 ≢ ok tt) × (r.1 ≡ s)
