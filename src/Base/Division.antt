-- ===== src/Base/Division.antt =====
-- Division and products of native numbers by a variable.
use Prim.Native.Nat.{ℕ, ◌+◌, ◌*◌, ◌/◌, ◌%◌, ◌≤◌, ◌<◌}
use mathlib.Core.Path.{◌≡◌, ◌∙◌}
use native.Mathlib.Nat.{
  le-div_iff_mul-le, le_trans, div-mul-le_self, mul-div_cancel_left, mul_comm, div-le_self,
  mul-le-mul_right, mul-le-mul_left, le_of_mul-le-mul_left, mul-add-mod_self_right, mod-eq_of_lt,
  div-add-mod', mod-lt,
}
use native.Mathlib.Omega.{arith}

pub div_mono : (a b t : ℕ) → 0 < t → a ≤ b → a / t ≤ b / t
div_mono a b t p h = (le-div_iff_mul-le p).1 (le_trans (div-mul-le_self a t) h)

-- A smaller divisor gives a larger quotient.
pub div_mono_anti : (a b t t' : ℕ) → 0 < t' → t' ≤ t → a ≤ b → a / t ≤ b / t'
div_mono_anti a b t t' p small h =
    (le-div_iff_mul-le p).1
      (le_trans (mul-le-mul_left (a / t) small) (le_trans (div-mul-le_self a t) h))

pub mul-div_self : (a t : ℕ) → 0 < t → a * t / t ≡ a
mul-div_self a t p = rw (mul_comm a t) (mul-div_cancel_left a p)

pub div-le_self' : (a t : ℕ) → a / t ≤ a
div-le_self' a t = div-le_self a t

pub div-mul_le : (a t : ℕ) → a / t * t ≤ a
div-mul_le a t = div-mul-le_self a t

-- A quotient below `c` from a product above the dividend.
pub div-lt_of_lt-mul : (a c t : ℕ) → 0 < t → a < c * t → a / t < c
div-lt_of_lt-mul a c t p h = grind (arith, div-mul_le a t, mul-le-mul_right {m = c} {n = a / t} t)

pub mul_mono_right : (a b k : ℕ) → a ≤ b → a * k ≤ b * k
mul_mono_right a b k h = mul-le-mul_right k h

pub mul_mono_left : (a b k : ℕ) → a ≤ b → k * a ≤ k * b
mul_mono_left a b k h = mul-le-mul_left k h

pub mul_cancel_le : (a b k : ℕ) → 0 < k → k * a ≤ k * b → a ≤ b
mul_cancel_le a b k p h = le_of_mul-le-mul_left h p

pub div_pos : (a t : ℕ) → 0 < t → t ≤ a → 0 < a / t
div_pos a t p h = (le-div_iff_mul-le p).1 (omega arith)

pub mul-add-mod : (q t i : ℕ) → i < t → (q * t + i) % t ≡ i
mul-add-mod q t i h = mul-add-mod_self_right q t i ∙ mod-eq_of_lt h

pub div-add-mod_self : (n t : ℕ) → n / t * t + n % t ≡ n
div-add-mod_self n t = div-add-mod' n t

pub mod-lt_self : (n t : ℕ) → 0 < t → n % t < t
mod-lt_self n t p = mod-lt n p
