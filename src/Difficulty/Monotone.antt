-- ===== src/Difficulty/Monotone.antt =====
-- The order laws of the difficulty adjustment: it rises with the difficulty, with the actual block
-- time and with the entropy, and falls with the target block time.
use ghost_blockchain.Base.{ℕ, ◌*◌, ◌≤◌, ◌<◌, min, arith, u64_max}
use ghost_blockchain.Base.Division.{div_mono, div_mono_anti, mul_mono_right, mul_mono_left}
use ghost_blockchain.Difficulty.Bounds.{retarget_bounds, steered, steered_mono, steered-div_le}
use ghost_blockchain.Difficulty.{retarget, steer, calculate_difficulty_adjustment}

retarget_mono :
    (c c' a a' t t' : ℕ) → 0 < t' → t' ≤ t → c ≤ c' → a ≤ a' → retarget c a t ≤ retarget c' a' t'
unfolding retarget
retarget_mono c c' a a' t t' p q h k =
    ground (arith, div_mono_anti (min (c * a) u64_max) (min (c' * a') u64_max) t t' p q products)
  where
    products : min (c * a) u64_max ≤ min (c' * a') u64_max
    products = omega (arith, mul_mono_right c c' a h, mul_mono_left a a' c' k)

steer_mono : (n n' e e' : ℕ) → 1 ≤ n → n' ≤ u64_max → n ≤ n' → e ≤ e' → steer n e ≤ steer n' e'
unfolding steer steered
steer_mono n n' e e' one small h k = ground (
  arith,
  div_mono (steered n e) (steered n' e') 8_000_000 (omega arith) (steered_mono n n' e e' h k),
  steered-div_le n e,
)

-- If neither the actual nor the target block time is 0, then a longer actual block time, a shorter
-- target block time, a larger difficulty or more entropy never lowers the adjusted difficulty.
pub adjustment_mono :
    (c c' a a' t t' e e' : ℕ)
    → 0 < t'
    → 0 < a
    → c ≤ c'
    → a ≤ a'
    → t' ≤ t
    → e ≤ e'
    → calculate_difficulty_adjustment c a t e ≤ calculate_difficulty_adjustment c' a' t' e'
unfolding calculate_difficulty_adjustment
adjustment_mono c c' a a' t t' e e' p q h k s l = ground (
  arith,
  steer_mono (retarget c a t) (retarget c' a' t') e e',
  retarget_mono c c' a a' t t' p s h k,
  retarget_bounds c a t,
  retarget_bounds c' a' t',
)
