-- ===== src/Entropy/Bounds.antt =====
-- The entropy of the producers lies between 0 and the logarithm of their number, and is 0 exactly
-- for one producer.
use ghost_blockchain.Base.{
  ℕ, ◌+◌, ◌-◌, ◌*◌, ◌%◌, ◌≤◌, ◌<◌, ◌≡◌, refl, inl, inr, List, [], ◌∷◌, arith, length, u64_max, ◌↔◌,
  ap, min,
}
use ghost_blockchain.Base.Division.{
  div-mul_le, mul_cancel_le, div_pos, mul_mono_left, mul_mono_right,
}
use ghost_blockchain.Entropy.{
  integer_log2_scaled, entropy_term, add_terms, count_producers, count_one, calculate_entropy,
}
use ghost_blockchain.Entropy.Counts.{
  sum_counts, sum-count_producers, IsCounted, count_producers-IsCounted, AllSame,
  count_producers_one,
}
use ghost_blockchain.Entropy.Logarithm.{integer_log2_scaled_lt, integer_log2_scaled-le}

entropy_term-le : (log total n : ℕ) → entropy_term log total n * total ≤ n * log
unfolding entropy_term
entropy_term-le log total n =
    let product = n * (log - integer_log2_scaled n) in
    omega (
      arith,
      div-mul_le (product % (u64_max + 1)) total,
      mul_mono_left (log - integer_log2_scaled n) log n (omega arith),
    )

add_terms-le :
    (log total acc : ℕ) (counts : List (ℕ × ℕ))
    → add_terms log total acc counts * total ≤ acc * total + sum_counts counts * log
unfolding add_terms
add_terms-le log total acc [] = omega arith
add_terms-le log total acc (e ∷ counts) = omega (
  arith,
  entropy_term-le log total e.1,
  mul_mono_right (min (acc + term) u64_max) (acc + term) total (omega arith),
  add_terms-le log total (min (acc + term) u64_max) counts,
)
  where
    term : ℕ
    term = entropy_term log total e.1

first_count : (p : ℕ) (ps : List ℕ) → count_producers [] (p ∷ ps) ≡ count_producers ((p, 1) ∷ []) ps
unfolding count_producers count_one
first_count p ps = refl

-- If the number of blocks fits in a `u64`, the entropy of their producers is at most the scaled
-- logarithm of that number.
pub entropy-le :
    (p : ℕ) (ps : List ℕ)
    → length (p ∷ ps) ≤ u64_max
    → calculate_entropy (p ∷ ps) ≤ integer_log2_scaled (length (p ∷ ps))
unfolding calculate_entropy
entropy-le p ps h = mul_cancel_le _ _ total (omega arith) (
    omega (
      arith,
      add_terms-le log total 0 (count_producers [] (p ∷ ps)),
      ap (λ (t : ℕ). t * log) (sum-count_producers [] (p ∷ ps) (omega arith)),
    ))
  where
    total : ℕ
    total = length (p ∷ ps)

    log : ℕ
    log = integer_log2_scaled total

le-add_terms :
    (log total acc : ℕ) (counts : List (ℕ × ℕ))
    → acc ≤ u64_max
    → acc ≤ add_terms log total acc counts
unfolding add_terms
le-add_terms log total acc [] h = omega arith
le-add_terms log total acc (e ∷ counts) h = omega (
  arith,
  le-add_terms log total (min (acc + entropy_term log total e.1) u64_max) counts (omega arith),
)

-- A producer of some of the blocks but not all adds to the entropy.
entropy_term_pos :
    (total n : ℕ)
    → 0 < n
    → n < total
    → total ≤ 100
    → 0 < entropy_term (integer_log2_scaled total) total n
unfolding entropy_term
entropy_term_pos total n p h k =
    rw exact (div_pos (n * d) total (omega arith) (omega (arith, above, range)))
  where
    d : ℕ
    d = integer_log2_scaled total - integer_log2_scaled n

    range : (10_000 ≤ d) × (d ≤ 6_562_500)
    range =
        omega (
          arith,
          integer_log2_scaled_lt n total h p k,
          integer_log2_scaled-le total (omega arith) k,
        )

    above : (d ≤ n * d) × (n * d ≤ 100 * d)
    above = (omega (arith, mul_mono_right 1 n d p), mul_mono_right n 100 d (omega arith))

    exact : n * d % (u64_max + 1) ≡ n * d
    exact = omega (arith, above, range)

add_terms_one :
    (log total a n : ℕ)
    → n ≡ total
    → log ≡ integer_log2_scaled total
    → add_terms log total 0 ((a, n) ∷ []) ≡ 0
unfolding add_terms entropy_term
add_terms_one log total a n e l =
    rw (e, l)
      (let z : integer_log2_scaled total - integer_log2_scaled total ≡ 0 = omega arith in
        rw z (omega arith))

entropy_two :
    (total : ℕ) (counts : List (ℕ × ℕ))
    → 2 ≤ length counts
    → IsCounted counts
    → sum_counts counts ≡ total
    → total ≤ 100
    → 0 < add_terms (integer_log2_scaled total) total 0 counts
unfolding add_terms
entropy_two total [] two c sum h = absurd (omega arith)
entropy_two total (a ∷ []) two c sum h = absurd (omega arith)
entropy_two total (a ∷ b ∷ counts) two c sum h =
    let first = entropy_term (integer_log2_scaled total) total a.1 in
    let second = entropy_term (integer_log2_scaled total) total b.1 in
    omega (
      arith,
      entropy_term_pos total a.1 c.0 (omega arith) h,
      le-add_terms (integer_log2_scaled total) total
          (min (min (0 + first) u64_max + second) u64_max) counts (omega arith),
    )

-- For 1 to 100 blocks, the entropy is 0 exactly if one account produced them all.
pub entropy-eq-zero_iff :
    (p : ℕ) (ps : List ℕ) → length (p ∷ ps) ≤ 100 → (calculate_entropy (p ∷ ps) ≡ 0) ↔ AllSame p ps
unfolding calculate_entropy
entropy-eq-zero_iff p ps h = elim (count_producers_one p 1 ps (omega arith)) [
  | inl (all, one) ↦
      (λ _. all, λ _. rw (first_count p ps, one) (add_terms_one _ _ p _ (omega arith) refl))
  | inr (mixed, two) ↦ (
    λ zero_entropy. absurd (
        omega (
          arith,
          entropy_two (length (p ∷ ps)) (count_producers [] (p ∷ ps)) (rw (first_count p ps) two)
              (count_producers-IsCounted [] (p ∷ ps) (omega arith) tt)
              (omega (arith, sum-count_producers [] (p ∷ ps) (omega arith))) h,
        )),
    λ all. absurd (mixed all),
  )
]
