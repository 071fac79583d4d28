-- ===== src/Selection.antt =====
-- `select_pos_validator` of pallets/pallet-ghost-consensus/src/functions.rs: a walk along the
-- stakers by cumulative weight, at a place that the seed chooses.
pub mod Weighted
pub mod Fairness
use ghost_blockchain.Base.{
  ℕ, ◌+◌, ◌%◌, Option, none, some, List, [], ◌∷◌, ltb, ◌==◌, if◌then◌else◌, wrap_u64,
}
use ghost_blockchain.Types.{ValidatorStake, PosSelection, H256}
use ghost_blockchain.Pow.{prefix_value}

-- `stakers.iter().map(|s| s.weight).sum()`, from the weight added so far; a release build wraps.
unfoldable pub total_weight_from : ℕ → List ValidatorStake → ℕ
total_weight_from acc [] = acc
total_weight_from acc (s ∷ ss) = total_weight_from (wrap_u64 (acc + s.weight)) ss

-- The loop, at a cumulative weight.
unfoldable pub walk :
    (round random_value cumulative_weight : ℕ) → List ValidatorStake → Option PosSelection
walk round random_value cumulative_weight [] = none
walk round random_value cumulative_weight (s ∷ ss) =
    let c = wrap_u64 (cumulative_weight + s.weight) in
    let rest = walk round random_value c ss in
    if ltb random_value c
    then some (record { validator = s.account; weight = s.weight; round = round })
    else rest

unfoldable pub select_by :
    (round prefix total_weight : ℕ) → List ValidatorStake → Option PosSelection
select_by round prefix total_weight stakers =
    if total_weight == 0 then none else walk round (prefix % total_weight) 0 stakers

-- `round` is the block number of frame_system. The early return on no stakers is a case of its own
-- in the source.
unfoldable pub select_pos_validator : (round : ℕ) → List ValidatorStake → H256 → Option PosSelection
select_pos_validator round [] seed = none
select_pos_validator round (s ∷ ss) seed =
    select_by round (prefix_value seed) (total_weight_from 0 (s ∷ ss)) (s ∷ ss)
