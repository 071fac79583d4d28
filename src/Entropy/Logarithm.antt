-- ===== src/Entropy/Logarithm.antt =====
-- The scaled logarithm at the counts that the window of producers allows, by evaluation.
use ghost_blockchain.Base.{
  ℕ, zero, suc, ◌+◌, ◌≤◌, ◌<◌, ◌≡◌, refl, Bool, true, ◌&&◌, ◌||◌, ◌==◌, leb, arith, ℕ_discrete,
}
use ghost_blockchain.Entropy.{integer_log2_scaled}

-- From 1 on the logarithm rises by at least 10,000 at each step.
rises : ℕ → Bool
rises x = (x == 0) || leb (integer_log2_scaled x + 10_000) (integer_log2_scaled (x + 1))

-- So it does at every count below a bound.
rises_up_to : (bound : ℕ) → Bool
unfolding rises
rises_up_to zero = true
rises_up_to (suc bound) = rises_up_to bound && rises bound

hundred_rise : rises_up_to 100 ≡ true
unfolding rises_up_to integer_log2_scaled
hundred_rise = refl

rises_below : (bound x : ℕ) → rises_up_to bound ≡ true → x < bound → rises x ≡ true
unfolding rises_up_to
rises_below (suc bound) x up lt = ground (arith, rises_below bound x)
rises_below zero x up lt = absurd (omega arith)

integer_log2_scaled-step :
    (x : ℕ) → x < 99 → integer_log2_scaled (suc x) + 10_000 ≤ integer_log2_scaled (suc (suc x))
unfolding rises
integer_log2_scaled-step x h =
    let e : suc x + 1 ≡ suc (suc x) = omega arith in
    rw (← e) (ground (arith, rises_below 100 (suc x) hundred_rise))

-- Up to 100, a larger count has a larger logarithm.
pub integer_log2_scaled_lt :
    (a b : ℕ) → a < b → 0 < a → b ≤ 100 → integer_log2_scaled a + 10_000 ≤ integer_log2_scaled b
integer_log2_scaled_lt zero b h p k = absurd (omega arith)
integer_log2_scaled_lt (suc a) zero h p k = absurd (omega arith)
integer_log2_scaled_lt (suc a) (suc zero) h p k = absurd (omega arith)
integer_log2_scaled_lt (suc a) (suc (suc b)) h p k = elim (ℕ_discrete a b) [
  | yes same ↦ rw same (integer_log2_scaled-step b (omega arith))
  | no less ↦ omega (
    arith,
    integer_log2_scaled_lt (suc a) (suc b) (omega arith) p (omega arith),
    integer_log2_scaled-step b (omega arith),
  )
]

integer_log2_scaled_hundred : integer_log2_scaled 100 ≡ 6_562_500
unfolding integer_log2_scaled
integer_log2_scaled_hundred = refl

-- Up to 100 the logarithm is at most that of 100.
pub integer_log2_scaled-le : (x : ℕ) → 0 < x → x ≤ 100 → integer_log2_scaled x ≤ 6_562_500
integer_log2_scaled-le x p h = elim (ℕ_discrete x 100) [
  | yes same ↦ rw same (omega (arith, integer_log2_scaled_hundred))
  | no less ↦ omega (
    arith,
    integer_log2_scaled_hundred,
    integer_log2_scaled_lt x 100 (omega arith) p (omega arith),
  )
]
