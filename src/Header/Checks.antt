-- ===== src/Header/Checks.antt =====
-- A header is accepted exactly when it is a valid child of its parent.
use ghost_blockchain.Base.{
  ℕ, ◌+◌, ◌*◌, ◌/◌, ◌≤◌, ◌≡◌, ◌↔◌, sym, ap, ◌∙◌, ◌⊎◌, inl, inr, refl, true, List, [], ◌∷◌, arith,
  u64_max, min, wrap_u32,
}
use ghost_blockchain.Types.{GhostBlockHeader, DispatchError, bytes_eq}
use ghost_blockchain.Environment.{Hashing}
use ghost_blockchain.Pow.{verify_pow_enhanced, enhanced_value, hash_input}
use ghost_blockchain.State.{State, Result, ok, err}
use ghost_blockchain.Header.{validate_block_header}

pub bytes_eq_iff : (a b : List ℕ) → (bytes_eq a b ≡ true) ↔ (a ≡ b)
bytes_eq_iff [] [] = (λ _. refl, λ _. refl)
bytes_eq_iff [] (b ∷ bs) = (λ h. cc, λ h. cc)
bytes_eq_iff (a ∷ as') [] = (λ h. cc, λ h. cc)
bytes_eq_iff (a ∷ as') (b ∷ bs) =
    (λ h. ground (arith, (bytes_eq_iff as' bs).0), λ h. ground (arith, (bytes_eq_iff as' bs).1))

-- What the protocol asks of a child: the next number, the hash of the parent, a double hash within
-- the target that the header states, and a target between half and twice the current one.
pub record IsValidChild (hs : Hashing) (difficulty : ℕ) (header parent : GhostBlockHeader)
    : Type 0 where
  pub next_number : header.number ≡ wrap_u32 (parent.number + 1)
  pub links : header.parent_hash ≡ hs.hash_of_header parent
  pub works : enhanced_value hs (hash_input header) ≤ header.difficulty
  pub not_low : difficulty / 2 ≤ header.difficulty
  pub not_high : header.difficulty ≤ min (difficulty * 2) u64_max

module _ {L : Type 0} (hs : Hashing) (header parent : GhostBlockHeader) (s : State L) where
  -- The validation of a header against its parent succeeds exactly if the header has the next
  -- number, the parent's hash, a double hash within its own target, and a target from half to twice
  -- the current one, where twice stops at the largest `u64`.
  pub validate_block_header_iff :
      ((validate_block_header hs header parent s).0 ≡ ok tt)
      ↔ IsValidChild hs s.difficulty header parent
  unfolding validate_block_header verify_pow_enhanced
  validate_block_header_iff = (
    λ h. ground (arith, bytes_eq_iff header.parent_hash (hs.hash_of_header parent)),
    λ v. ground (arith, bytes_eq_iff header.parent_hash (hs.hash_of_header parent)),
  )

  -- It writes nothing.
  pub validate_block_header_unchanged : (validate_block_header hs header parent s).1 ≡ s
  unfolding validate_block_header
  validate_block_header_unchanged = ground arith

  -- Both outcomes, with the state.
  pub validate_block_header_cases :
      (IsValidChild hs s.difficulty header parent
        × (validate_block_header hs header parent s ≡ (ok tt, s)))
      ⊎ (¬ IsValidChild hs s.difficulty header parent
          × ((e : DispatchError) × (validate_block_header hs header parent s ≡ (err e, s))))
  validate_block_header_cases = go (validate_block_header hs header parent s) refl
    where
      go :
          (r : Result (Unit {0}) × State L)
          → validate_block_header hs header parent s ≡ r
          → (IsValidChild hs s.difficulty header parent × (r ≡ (ok tt, s)))
            ⊎ (¬ IsValidChild hs s.difficulty header parent
                × ((e : DispatchError) × (r ≡ (err e, s))))
      go (ok done, s') e = inl (
        validate_block_header_iff.0 (ap (λ r. r.0) e),
        ap (λ t. (ok done, t)) (sym (ap (λ r. r.1) e) ∙ validate_block_header_unchanged),
      )
      go (err x, s') e = inr (
        (λ v. cc (validate_block_header_iff.1 v, ap (λ r. r.0) e)),
        (x, ap (λ t. (err x, t)) (sym (ap (λ r. r.1) e) ∙ validate_block_header_unchanged)),
      )
