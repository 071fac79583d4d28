-- ===== src/Difficulty.antt =====
-- `calculate_difficulty_adjustment` of pallets/pallet-ghost-consensus/src/functions.rs. The
-- difficulty is the largest accepted hash prefix, so a lower value is harder.
pub mod Bounds
pub mod Monotone
use ghost_blockchain.Base.{
  ℕ, ◌*◌, ◌/◌, max, Bool, ◌||◌, ltb, ◌==◌, if◌then◌else◌, saturating_add_u64, saturating_mul_u64,
}

abbrev pub entropy_threshold : ℕ
entropy_threshold = 4_000_000

-- The retarget by block time. The source has the same expression in both branches.
pub retarget : (current actual target : ℕ) → ℕ
retarget current actual target =
    max
      (if ltb actual target
        then saturating_mul_u64 current actual / target
        else saturating_mul_u64 current actual / target)
      1

-- The entropy steering that follows it.
pub steer : (new_target entropy : ℕ) → ℕ
steer new_target entropy =
    if ltb entropy entropy_threshold
    then max
        (saturating_mul_u64 new_target (saturating_add_u64 entropy_threshold entropy)
          / saturating_mul_u64 entropy_threshold 2)
        1
    else new_target

unfoldable pub calculate_difficulty_adjustment : (current actual target entropy : ℕ) → ℕ
unfolding retarget steer
calculate_difficulty_adjustment current actual target entropy =
    if (actual == 0) || (target == 0)
    then max (current / 2) 1
    else steer (retarget current actual target) entropy
