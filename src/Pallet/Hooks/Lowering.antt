-- ===== src/Pallet/Hooks/Lowering.antt =====
-- The start of a block raises no stake.
use ghost_blockchain.Base.{
  ℕ, ◌-◌, ◌≤◌, ◌≡◌, refl, inl, inr, none, [], ◌∷◌, arith, ◌==◌, get_or, lookup, lookup-insert,
  StorageMap, Option-cases, Bool-cases, ◌%◌,
}
use ghost_blockchain.Environment.{Environment}
use ghost_blockchain.State.{State}
use ghost_blockchain.Pallet.Report.{slash_of}
use ghost_blockchain.Pallet.Hooks.{
  on_initialize, adjust_difficulty, check_downtime, check_downtimes, check_downtime_slashing,
  apply_downtime_slash,
}

module _ {L : Type 0} (env : Environment L) where
  -- The stakes of `t` are at most those of `s`, of the same stakers.
  pub record Lowers (s t : State L) : Type 0 where
    pub lower :
        (who : ℕ)
        → get_or (lookup who t.validator_stakes) 0 ≤ get_or (lookup who s.validator_stakes) 0
    pub same_absent :
        (who : ℕ) → lookup who s.validator_stakes ≡ none → lookup who t.validator_stakes ≡ none
    pub same_present :
        (who : ℕ) → lookup who t.validator_stakes ≡ none → lookup who s.validator_stakes ≡ none

  Lowers-trans : (s t u : State L) → Lowers s t → Lowers t u → Lowers s u
  Lowers-trans s t u a b = record {
    lower = λ who. omega (arith, a.lower who, b.lower who);
    same_absent = λ who h. b.same_absent who (a.same_absent who h);
    same_present = λ who h. a.same_present who (b.same_present who h);
  }

  Lowers-of_eq : (s t : State L) → t.validator_stakes ≡ s.validator_stakes → Lowers s t
  Lowers-of_eq s t e = record {
    lower = λ who. rw e (omega arith);
    same_absent = λ who h. rw e h;
    same_present = λ who h. rw e at h;
  }

  check_downtime-Lowers :
      (current_block k last : ℕ) (s : State L)
      → Lowers s (check_downtime env current_block k last s)
  unfolding check_downtime apply_downtime_slash
  check_downtime-Lowers current_block k last s = elim (Option-cases (lookup k s.validator_stakes)) [
    | inl missing ↦ Lowers-of_eq s _ (ground arith)
    | inr (stake, found) ↦
        let new = stake - slash_of stake env.config.downtime_slash_percentage in
        let law = λ (who : ℕ). lookup-insert env.before k who new s.validator_stakes in
        record {
          lower = λ who. ground (arith, law who);
          same_absent = λ who h. ground (arith, law who);
          same_present = λ who h. ground (arith, law who);
        }
  ]

  check_downtimes-Lowers :
      (current_block : ℕ) (m : StorageMap ℕ) (s : State L)
      → Lowers s (check_downtimes env current_block m s)
  unfolding check_downtimes
  check_downtimes-Lowers current_block [] s = Lowers-of_eq s s refl
  check_downtimes-Lowers current_block ((k, last) ∷ m) s =
      Lowers-trans s (check_downtime env current_block k last s) _
        (check_downtime-Lowers current_block k last s)
        (check_downtimes-Lowers current_block m (check_downtime env current_block k last s))

  check_downtime_slashing-Lowers : (s : State L) → Lowers s (check_downtime_slashing env s)
  unfolding check_downtime_slashing
  check_downtime_slashing-Lowers s = check_downtimes-Lowers _ s.last_active_block s

  adjust_difficulty-Lowers : (s : State L) → Lowers s (adjust_difficulty env s)
  unfolding adjust_difficulty
  adjust_difficulty-Lowers s = Lowers-of_eq s _ (ground arith)

  -- The start of a block raises no stake, and makes or removes no staker.
  pub on_initialize-Lowers : (n : ℕ) (s : State L) → Lowers s (on_initialize env n s).1
  unfolding on_initialize
  on_initialize-Lowers n s = elim (Bool-cases (n % 10 == 0)) [
    | inl tenth ↦ elim (Bool-cases (n % 100 == 0)) [
      | inl hundredth ↦
          rw (tenth, hundredth)
            (Lowers-trans s (check_downtime_slashing env s) _ (check_downtime_slashing-Lowers s)
              (adjust_difficulty-Lowers (check_downtime_slashing env s)))
      | inr between ↦ rw (tenth, between) (check_downtime_slashing-Lowers s)
    ]
    | inr between ↦ elim (Bool-cases (n % 100 == 0)) [
      | inl hundredth ↦ rw (between, hundredth) (adjust_difficulty-Lowers s)
      | inr other ↦ rw (between, other) (Lowers-of_eq s s refl)
    ]
  ]
