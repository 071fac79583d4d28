-- ===== src/Pallet/Invariant/Genesis.antt =====
-- A chain that starts without a header. No code under pallets/ or runtime/ stores the header of
-- block 0: the pallet has no genesis configuration, and `submit_block` asks for a stored parent.
use ghost_blockchain.Base.{ℕ, ◌≡◌, ◌∙◌, List, [], none, inl, inr, arith, ap, lookup}
use ghost_blockchain.Types.{GhostBlockHeader, ConsensusPhase, Origin}
use ghost_blockchain.Environment.{Environment}
use ghost_blockchain.State.{State, Refused}
use ghost_blockchain.Pallet.Stake.{register_pqc_key}
use ghost_blockchain.Pallet.Report.Slash.{report_misbehavior_outcome}
use ghost_blockchain.Pallet.Submit.{submit_block}
use ghost_blockchain.Pallet.Submit.Outcome.{submit_block_outcome}
use ghost_blockchain.Pallet.Hooks.{on_finalize}
use ghost_blockchain.Pallet.Hooks.Phases.{on_initialize-Untouched}
use ghost_blockchain.Pallet.Transitions.{
  Step, submits, stakes, unstakes, validates, reports, registers, begins, ends, elsewhere, Reach,
  here, next, submit_block-ok, stake-ok, unstake-ok, validate_block-ok,
}

module _ {L : Type 0} (env : Environment L) where
  -- The genesis state of the pallet: no header, and the default phase.
  pub record IsBare (s : State L) : Type 0 where
    pub no_headers : s.block_headers ≡ []
    pub mining : s.current_phase ≡ ConsensusPhase.pow_mining

  empty-lookup : (k : ℕ) (m : List (ℕ × GhostBlockHeader)) → m ≡ [] → lookup k m ≡ none
  empty-lookup k m h = ap (lookup k) h

  Step-IsBare : (s t : State L) → Step env s t → IsBare s → IsBare t
  unfolding on_finalize register_pqc_key
  Step-IsBare s t (submits miner header e) h =
      let ((parent, phase, pos, found, v), done) = submit_block-ok env miner header s t e in
      absurd (cc (found, empty-lookup _ s.block_headers h.no_headers))
  Step-IsBare s t (stakes who amount other e) h =
      let (l, moved, done) = stake-ok env who amount s t e in
      record {
        no_headers = ap (λ u. u.block_headers) done ∙ h.no_headers;
        mining = ap (λ u. u.current_phase) done ∙ h.mining;
      }
  Step-IsBare s t (unstakes who amount other e) h =
      let (l, covered, moved, done) = unstake-ok env who amount s t e in
      record {
        no_headers = ap (λ u. u.block_headers) done ∙ h.no_headers;
        mining = ap (λ u. u.current_phase) done ∙ h.mining;
      }
  Step-IsBare s t (validates validator block_number sig e) h =
      let (header, selection, miner, v, found, done) =
        validate_block-ok env validator block_number sig s t e in
      absurd (cc (v.stored, empty-lookup block_number s.block_headers h.no_headers))
  Step-IsBare s t (reports reporter validator reason e) h =
      ground (arith, report_misbehavior_outcome env reporter validator reason s)
  Step-IsBare s t (registers validator public_key e) h = ground arith
  Step-IsBare s t (begins n e) h =
      ground (arith, on_initialize-Untouched env n (record s { block_number = n }))
  Step-IsBare s t (ends n e) h = ground arith
  Step-IsBare s t (elsewhere l k e) h = ground arith

  Reach-IsBare : (s t : State L) → Reach env s t → IsBare s → IsBare t
  Reach-IsBare s _ here h = h
  Reach-IsBare s t (next {t = u} r st) h = Step-IsBare u t st (Reach-IsBare s u r h)

  -- From a state without headers in the mining phase, such as the genesis state, no sequence of
  -- steps leads to one where a header can be submitted: each signed `submit_block` is refused for
  -- ever.
  pub Reach-submit_block :
      (s t : State L)
      → Reach env s t
      → IsBare s
      → (miner : ℕ) (header : GhostBlockHeader)
      → Refused (submit_block env (Origin.signed miner) header t) t
  Reach-submit_block s t r h miner header =
      let bare = Reach-IsBare s t r h in
      elim (submit_block_outcome env miner header t) [
        | inl ((parent, phase, pos, found, v), done) ↦
            absurd (cc (found, empty-lookup _ t.block_headers bare.no_headers))
        | inr (cannot, refused) ↦ refused
      ]
