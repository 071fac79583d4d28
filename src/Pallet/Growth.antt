-- ===== src/Pallet/Growth.antt =====
-- Round after round, over the calls and the end of the block of
-- pallets/pallet-ghost-consensus/src/lib.rs: from the number of the last block to higher ones.
use ghost_blockchain.Base.{
  ℕ, zero, suc, ◌+◌, ◌-◌, ◌<◌, ◌≤◌, ◌≡◌, refl, sym, ap, ◌∙◌, subst, inl, inr, some, arith, lookup,
  contains_key, u32_max, u64_max,
}
use ghost_blockchain.Types.{GhostBlockHeader, PqcSignature, ConsensusPhase, Origin}
use ghost_blockchain.Environment.{Environment, Hashing}
use ghost_blockchain.State.{State, ok}
use ghost_blockchain.Header.Checks.{IsValidChild}
use ghost_blockchain.Selection.Weighted.{weight_of}
use ghost_blockchain.Pallet.Submit.Outcome.{CanSubmit}
use ghost_blockchain.Pallet.Validate.{stakers, sign_header, validate_block}
use ghost_blockchain.Pallet.Submit.{submit_block}
use ghost_blockchain.Pallet.Hooks.{on_finalize}
use ghost_blockchain.Pallet.Round.{round_completes, CanSign}
use ghost_blockchain.Pallet.Transitions.{
  Reach, here, next, submits, validates, ends, submit_block-ok, validate_block-ok,
}

-- The work of miners: every header has a valid child at a difficulty.
abbrev pub IsMinable : Hashing → (difficulty : ℕ) → Type 0
IsMinable hs difficulty =
    (parent : GhostBlockHeader)
    → (header : GhostBlockHeader) × IsValidChild hs difficulty header parent

module _ {L : Type 0} (env : Environment L) where
  -- The mining phase over a stored header of a number, with stakes that weigh.
  -- Its stakers can sign for any block, by `sign`, where signatures are required.
  pub record CanExtend (sign : (block_number validator : ℕ) → PqcSignature) (number : ℕ)
      (s : State L) : Type 0 where
    pub mining : s.current_phase ≡ ConsensusPhase.pow_mining
    pub head : GhostBlockHeader
    pub stored : lookup number s.block_headers ≡ some head
    pub numbered : head.number ≡ number
    pub minable : IsMinable env.hashing s.difficulty
    pub signable : (block_number : ℕ) → CanSign env (sign block_number) block_number s
    pub heavy : 0 < weight_of (stakers s.validator_stakes)
    pub fits : weight_of (stakers s.validator_stakes) ≤ u64_max

  on_finalize-same :
      (n : ℕ) (u : State L)
      → ((on_finalize env n u).validator_stakes ≡ u.validator_stakes)
        × ((on_finalize env n u).difficulty ≡ u.difficulty)
        × ((on_finalize env n u).validator_pqc_public_keys ≡ u.validator_pqc_public_keys)
  unfolding on_finalize
  on_finalize-same n u = ground arith

  -- What a round leaves alone.
  round-same :
      (miner validator n : ℕ) (header : GhostBlockHeader) (sig : PqcSignature) (s t u : State L)
      → submit_block env (Origin.signed miner) header s ≡ (ok tt, t)
      → validate_block env (Origin.signed validator) header.number sig t ≡ (ok tt, u)
      → ((on_finalize env n u).validator_stakes ≡ s.validator_stakes)
        × ((on_finalize env n u).difficulty ≡ s.difficulty)
        × ((on_finalize env n u).validator_pqc_public_keys ≡ s.validator_pqc_public_keys)
  round-same miner validator n header sig s t u submitted validated =
      let (can, mined') = submit_block-ok env miner header s t submitted in
      let (header', selection, miner', v, found, done) =
        validate_block-ok env validator header.number sig t u validated in
      let (stakes, difficulty, keys) = on_finalize-same n u in
      (
        stakes
            ∙ ap (λ (x : State L). x.validator_stakes) done
            ∙ ap (λ (x : State L). x.validator_stakes) mined',
        difficulty
            ∙ ap (λ (x : State L). x.difficulty) done
            ∙ ap (λ (x : State L). x.difficulty) mined',
        keys
            ∙ ap (λ (x : State L). x.validator_pqc_public_keys) done
            ∙ ap (λ (x : State L). x.validator_pqc_public_keys) mined',
      )

  -- Signatures depend on the keys alone.
  CanSign-same :
      (sign : ℕ → PqcSignature) (block_number : ℕ) (s t : State L)
      → t.validator_stakes ≡ s.validator_stakes
      → t.validator_pqc_public_keys ≡ s.validator_pqc_public_keys
      → CanSign env sign block_number s
      → CanSign env sign block_number t
  CanSign-same sign block_number s t stakes keys signs validator entry =
      elim (signs validator (ap (contains_key validator) (sym stakes) ∙ entry)) [
        | inl free ↦ inl free
        | inr (key, found, right) ↦ inr (key, ap (lookup validator) keys ∙ found, right)
      ]

  extend :
      (miner : ℕ) (sign : (block_number validator : ℕ) → PqcSignature) (number : ℕ) (s t : State L)
      → number < u32_max
      → Reach env s t
      → CanExtend sign number t
      → (u : State L) × Reach env s u
        × CanExtend sign (number + 1) u
        × (u.validator_stakes ≡ t.validator_stakes)
  extend miner sign number s t bound r e =
      let (header, valid) = e.minable e.head in
      let numbered' : header.number ≡ number + 1 = omega (arith, valid.next_number, e.numbered) in
      let place : header.number - 1 ≡ number = omega (arith, numbered') in
      let can : CanSubmit env header t = (
        e.head,
        e.mining,
        omega (arith, numbered'),
        subst (λ k. lookup k t.block_headers ≡ some e.head) (sym place) e.stored,
        valid,
      ) in
      let (validator, a, b, staked, submitted, validated, phase, kept) =
        round_completes env miner number header (sign header.number) t can
          (e.signable header.number) e.heavy e.fits in
      let sig = sign header.number validator in
      let (stakes, difficulty, keys) =
        round-same miner validator number header sig t a b submitted validated in
      (
        on_finalize env number b,
        next
            (next (next r (submits miner header submitted))
              (validates validator header.number sig validated))
            (ends number refl),
        record {
          mining = phase;
          head = sign_header env validator header.number sig header;
          stored =
              subst
                (λ k.
                  lookup k (on_finalize env number b).block_headers
                  ≡ some (sign_header env validator header.number sig header))
                numbered' kept;
          numbered = numbered';
          minable = subst (IsMinable env.hashing) (sym difficulty) e.minable;
          signable =
              λ n. CanSign-same (sign n) n t (on_finalize env number b) stakes keys (e.signable n);
          heavy = rw stakes e.heavy;
          fits = rw stakes e.fits;
        },
        stakes,
      )

  -- If every header has a valid child at the difficulty, and no Dilithium signature is required or
  -- every account with a stake entry has one that is right for its vote on any block, then from the
  -- mining phase over a stored header of number `number`, with stakes that weigh more than 0 and
  -- fit in a `u64`, `n` rounds of calls reach the mining phase over a stored header of number
  -- `number + n` with the same stakes, for every `n` up to the last `u32`.
  pub chain_grows :
      (miner : ℕ) (sign : (block_number validator : ℕ) → PqcSignature) (n number : ℕ) (s : State L)
      → number + n ≤ u32_max
      → CanExtend sign number s
      → (t : State L) × Reach env s t
        × CanExtend sign (number + n) t
        × (t.validator_stakes ≡ s.validator_stakes)
  chain_grows miner sign zero number s bound e =
      (s, here, subst (λ k. CanExtend sign k s) (omega arith) e, refl)
  chain_grows miner sign (suc n) number s bound e =
      let (t, r, e', same) = chain_grows miner sign n number s (omega arith) e in
      let (u, r', e'', same') = extend miner sign (number + n) s t (omega arith) r e' in
      (u, r', subst (λ k. CanExtend sign k u) (omega arith) e'', same' ∙ same)
