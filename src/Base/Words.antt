-- ===== src/Base/Words.antt =====
-- The machine integers of Rust as native numbers. `+ - *` of a release build wrap; the saturating
-- and checked operations are the standard library's.
use Prim.Native.Nat.{ℕ, ◌+◌, ◌-◌, ◌*◌, ◌%◌, min}
use mathlib.Core.Option.{Option, none, some}
use mathlib.Core.List.{List, [], ◌∷◌}
use ghost_blockchain.Base.Tests.{leb, if◌then◌else◌}

abbrev pub u32_max : ℕ
u32_max = 4294967295

abbrev pub u64_max : ℕ
u64_max = 18446744073709551615

abbrev pub u128_max : ℕ
u128_max = 340282366920938463463374607431768211455

abbrev pub wrap_u32 : ℕ → ℕ
wrap_u32 n = n % (u32_max + 1)

abbrev pub wrap_u64 : ℕ → ℕ
wrap_u64 n = n % (u64_max + 1)

abbrev pub wrap_u128 : ℕ → ℕ
wrap_u128 n = n % (u128_max + 1)

-- `a - b` on `u128`, which wraps below zero.
abbrev pub wrapping_sub_u128 : ℕ → ℕ → ℕ
wrapping_sub_u128 a b = wrap_u128 (a + (u128_max + 1) - b)

-- `u64::saturating_add`, `saturating_mul` and the conversion `saturated_into::<u64>`.
abbrev pub saturating_add_u64 : ℕ → ℕ → ℕ
saturating_add_u64 a b = min (a + b) u64_max

abbrev pub saturating_mul_u64 : ℕ → ℕ → ℕ
saturating_mul_u64 a b = min (a * b) u64_max

abbrev pub saturated_into_u64 : ℕ → ℕ
saturated_into_u64 n = min n u64_max

abbrev pub saturated_into_u32 : ℕ → ℕ
saturated_into_u32 n = min n u32_max

-- `u32::checked_sub`, `u32::checked_add`.
abbrev pub checked_sub : ℕ → ℕ → Option ℕ
checked_sub a b = if leb b a then some (a - b) else none

abbrev pub checked_add_u32 : ℕ → ℕ → Option ℕ
checked_add_u32 a b = if leb (a + b) u32_max then some (a + b) else none

-- `u64::from_be_bytes`, by the bytes read so far.
abbrev pub from_be_bytes_after : ℕ → List ℕ → ℕ
from_be_bytes_after acc [] = acc
from_be_bytes_after acc (b ∷ bs) = from_be_bytes_after (256 * acc + b) bs

abbrev pub from_be_bytes : List ℕ → ℕ
from_be_bytes bs = from_be_bytes_after 0 bs
