-- ===== src/Entropy.antt =====
-- `calculate_entropy` and `integer_log2_scaled` of pallets/pallet-ghost-consensus/src/functions.rs:
-- the Shannon entropy of a list of block producers, scaled by 1,000,000.
pub mod Counts
pub mod Logarithm
pub mod Bounds
pub mod Order
use Prim.Native.Nat.{bit_xor, compare, Ordering}
use ghost_blockchain.Base.{
  ℕ, zero, suc, ◌+◌, ◌-◌, ◌*◌, ◌/◌, ◌^◌, List, [], ◌∷◌, length, ltb, ◌==◌, if◌then◌else◌, wrap_u64,
  saturating_add_u64,
}

-- The place of the highest bit of a number below `2 ^ fuel`.
pub highest_bit : (fuel x : ℕ) → ℕ
highest_bit zero x = 0
highest_bit (suc fuel) x = let rest = highest_bit fuel (x / 2) in if ltb x 2 then 0 else rest + 1

-- `u64::leading_zeros`
unfoldable pub leading_zeros : ℕ → ℕ
unfolding highest_bit
leading_zeros x = if x == 0 then 64 else 63 - highest_bit 64 x

abbrev pub scaling_factor : ℕ
scaling_factor = 1_000_000

unfoldable pub integer_log2_scaled : ℕ → ℕ
unfolding leading_zeros
integer_log2_scaled x =
    let integer_part = 63 - leading_zeros x in
    let rem = bit_xor x (2 ^ integer_part) in
    let fractional_part = wrap_u64 (rem * scaling_factor) / 2 ^ integer_part in
    if x == 0 then 0 else wrap_u64 (wrap_u64 (integer_part * scaling_factor) + fractional_part)

-- `*counts.entry(producer).or_insert(0u64) += 1` on a `BTreeMap`, the list of its entries by key.
unfoldable pub count_one : ℕ → List (ℕ × ℕ) → List (ℕ × ℕ)
count_one producer [] = (producer, 1) ∷ []
count_one producer ((k, n) ∷ counts) = elim (compare producer k) [
  | Ordering.lt ↦ (producer, 1) ∷ (k, n) ∷ counts
  | Ordering.eq ↦ (k, wrap_u64 (n + 1)) ∷ counts
  | Ordering.gt ↦ (k, n) ∷ count_one producer counts
]

-- The loop over the producers.
unfoldable pub count_producers : List (ℕ × ℕ) → List ℕ → List (ℕ × ℕ)
count_producers counts [] = counts
count_producers counts (p ∷ ps) = count_producers (count_one p counts) ps

-- The contribution of one producer.
unfoldable pub entropy_term : (log2_total total_count count : ℕ) → ℕ
entropy_term log2_total total_count count =
    wrap_u64 (count * (log2_total - integer_log2_scaled count)) / total_count

-- The loop over `counts.values()`.
unfoldable pub add_terms : (log2_total total_count total_entropy : ℕ) → List (ℕ × ℕ) → ℕ
add_terms log2_total total_count total_entropy [] = total_entropy
add_terms log2_total total_count total_entropy ((_, n) ∷ counts) =
    add_terms log2_total total_count
      (saturating_add_u64 total_entropy (entropy_term log2_total total_count n)) counts

-- `producers.len() as u64` is exact.
unfoldable pub calculate_entropy : List ℕ → ℕ
calculate_entropy [] = 0
calculate_entropy (p ∷ ps) =
    let total_count = length (p ∷ ps) in
    add_terms (integer_log2_scaled total_count) total_count 0 (count_producers [] (p ∷ ps))
