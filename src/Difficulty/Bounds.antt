-- ===== src/Difficulty/Bounds.antt =====
-- The range of the difficulty adjustment, and what it does when blocks come on time.
use ghost_blockchain.Base.{ℕ, ◌+◌, ◌*◌, ◌/◌, ◌≤◌, ◌<◌, ◌≡◌, min, arith, u64_max}
use ghost_blockchain.Base.Division.{
  div_mono, mul_mono_left, mul_mono_right, mul-div_self, div-le_self', div-lt_of_lt-mul,
}
use ghost_blockchain.Difficulty.{
  entropy_threshold, retarget, steer, calculate_difficulty_adjustment,
}

pub retarget_bounds : (c a t : ℕ) → (1 ≤ retarget c a t) × (retarget c a t ≤ u64_max)
unfolding retarget
retarget_bounds c a t = ground (arith, div-le_self' (min (c * a) u64_max) t)

steer_bounds : (n e : ℕ) → 1 ≤ n → n ≤ u64_max → (1 ≤ steer n e) × (steer n e ≤ u64_max)
unfolding steer
steer_bounds n e h k = ground arith

-- From a difficulty that fits in a `u64`, the adjusted difficulty is at least 1 and fits in a
-- `u64`, whatever the block times and the entropy.
pub adjustment_bounds :
    (c a t e : ℕ)
    → c ≤ u64_max
    → (1 ≤ calculate_difficulty_adjustment c a t e)
      × (calculate_difficulty_adjustment c a t e ≤ u64_max)
unfolding calculate_difficulty_adjustment
adjustment_bounds c a t e h = ground (arith, retarget_bounds c a t, steer_bounds (retarget c a t) e)

retarget_on_time : (c t : ℕ) → 0 < t → 1 ≤ c → c * t ≤ u64_max → retarget c t t ≡ c
unfolding retarget
retarget_on_time c t p h k =
    let e : min (c * t) u64_max ≡ c * t = omega arith in rw (e, mul-div_self c t p) (ground arith)

-- Blocks on time and an entropy from the threshold on leave a difficulty from 1 on as it is, if the
-- block time is not 0 and its product with the difficulty fits in a `u64`.
pub adjustment_on_time :
    (c t e : ℕ)
    → 0 < t
    → 1 ≤ c
    → c * t ≤ u64_max
    → entropy_threshold ≤ e
    → calculate_difficulty_adjustment c t t e ≡ c
unfolding calculate_difficulty_adjustment steer
adjustment_on_time c t e p h k healthy = ground (arith, retarget_on_time c t p h k)

retarget_saturated :
    (c t : ℕ) → 0 < t → t ≤ u64_max → u64_max < c * t → retarget c t t ≡ u64_max / t
unfolding retarget
retarget_saturated c t p small h =
    let e : min (c * t) u64_max ≡ u64_max = omega arith in
    rw e (ground (arith, div_mono t u64_max t p small, mul-div_self 1 t p))

-- The product of the steering.
unfoldable pub steered : ℕ → ℕ → ℕ
steered n e = min (n * min (entropy_threshold + e) u64_max) u64_max

pub steered_mono : (n n' e e' : ℕ) → n ≤ n' → e ≤ e' → steered n e ≤ steered n' e'
unfolding steered
steered_mono n n' e e' h k = omega (
  arith,
  mul_mono_right n n' (min (entropy_threshold + e) u64_max) h,
  mul_mono_left (min (entropy_threshold + e) u64_max) (min (entropy_threshold + e') u64_max) n'
      (omega arith),
)

pub steered-div_le : (n e : ℕ) → e < entropy_threshold → steered n e / 8_000_000 ≤ n
unfolding steered
steered-div_le n e h =
    omega (arith, mul_mono_left (min (entropy_threshold + e) u64_max) 8_000_000 n (omega arith))

steer-le : (n e : ℕ) → 1 ≤ n → steer n e ≤ n
unfolding steer steered
steer-le n e h = ground (arith, steered-div_le n e)

-- The entropy steering never raises a retarget from 1 on whose product with 8,000,000 fits in a
-- `u64`, and at most halves it, up to rounding.
pub steer_halves :
    (n e : ℕ) → 1 ≤ n → n * 8_000_000 ≤ u64_max → (steer n e ≤ n) × (n ≤ 2 * steer n e + 1)
unfolding steer
steer_halves n e one h = (
  steer-le n e one,
  ground (arith, mul_mono_left 4_000_000 (min (entropy_threshold + e) u64_max) n (omega arith)),
)

-- A difficulty whose product with the block time does not fit in a `u64` falls, to at most the
-- largest `u64` over the block time, though blocks are on time, if that time is not 0 and fits in a
-- `u64`.
pub adjustment_saturated :
    (c t e : ℕ)
    → 0 < t
    → t ≤ u64_max
    → u64_max < c * t
    → (calculate_difficulty_adjustment c t t e ≤ u64_max / t)
      × (calculate_difficulty_adjustment c t t e < c)
unfolding calculate_difficulty_adjustment
adjustment_saturated c t e p small h = ground (
  arith,
  retarget_saturated c t p small h,
  retarget_bounds c t t,
  steer-le (retarget c t t) e,
  div-lt_of_lt-mul u64_max c t p h,
)
