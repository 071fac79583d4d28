-- ===== src/Selection/Weighted.antt =====
-- The selection picks the staker whose interval of weight holds the random value.
use ghost_blockchain.Base.{
  ℕ, ◌+◌, ◌-◌, ◌%◌, ◌≤◌, ◌<◌, ◌≡◌, refl, sym, ap, ◌∙◌, subst, ◌⊎◌, inl, inr, ◌++◌, none, some, List,
  [], ◌∷◌, arith, u64_max, dec_lt,
}
use ghost_blockchain.Types.{ValidatorStake, PosSelection, H256}
use ghost_blockchain.Pow.{prefix_value}
use ghost_blockchain.Selection.{total_weight_from, walk, select_by, select_pos_validator}

-- The true sum of the weights, which does not wrap.
abbrev pub weight_of : List ValidatorStake → ℕ
weight_of [] = 0
weight_of (s ∷ ss) = s.weight + weight_of ss

pub total_weight-eq :
    (acc : ℕ) (ss : List ValidatorStake)
    → acc + weight_of ss ≤ u64_max
    → total_weight_from acc ss ≡ acc + weight_of ss
unfolding total_weight_from
total_weight-eq acc [] h = omega arith
total_weight-eq acc (s ∷ ss) h = ground (arith, total_weight-eq (acc + s.weight) ss)

abbrev pub chosen : ℕ → ValidatorStake → PosSelection
chosen round s = record { validator = s.account; weight = s.weight; round = round }

-- The walk reaches the staker whose interval holds the random value.
walk-interval :
    (round r c : ℕ) (xs : List ValidatorStake) (s : ValidatorStake) (ys : List ValidatorStake)
    → c + weight_of xs + s.weight ≤ u64_max
    → c + weight_of xs ≤ r
    → r < c + weight_of xs + s.weight
    → walk round r c (xs ++ s ∷ ys) ≡ some (chosen round s)
unfolding walk
walk-interval round r c [] s ys fits low high = ground arith
walk-interval round r c (x ∷ xs) s ys fits low high =
    ground (arith, walk-interval round r (c + x.weight) xs s ys)

-- The staker `owner` holds the values from the weight before it up to its own weight.
abbrev pub Owns : ℕ → List ValidatorStake → ValidatorStake → Type 0
Owns r ss owner =
    (before : List ValidatorStake) × (after : List ValidatorStake) × (ss ≡ before ++ owner ∷ after)
    × (weight_of before ≤ r)
    × (r < weight_of before + owner.weight)

Owns-tail :
    (r : ℕ) (s owner : ValidatorStake) (ss : List ValidatorStake)
    → s.weight ≤ r
    → Owns (r - s.weight) ss owner
    → Owns r (s ∷ ss) owner
Owns-tail r s owner ss h (before, after, split, low, high) =
    (s ∷ before, after, ap (◌∷◌ s) split, omega arith, omega arith)

-- Every value below the total weight is owned.
find_owner :
    (r : ℕ) (ss : List ValidatorStake)
    → r < weight_of ss
    → (owner : ValidatorStake) × Owns r ss owner
find_owner r [] h = absurd (omega arith)
find_owner r (s ∷ ss) h = elim (dec_lt r s.weight) [
  | yes here ↦ (s, ([], ss, refl, omega arith, omega arith))
  | no later ↦
      let (owner, owns) = find_owner (r - s.weight) ss (omega arith) in
      (owner, Owns-tail r s owner ss (omega arith) owns)
]

weight_of-split :
    (before : List ValidatorStake) (owner : ValidatorStake) (after : List ValidatorStake)
    → weight_of before + owner.weight ≤ weight_of (before ++ owner ∷ after)
weight_of-split [] owner after = omega arith
weight_of-split (s ∷ before) owner after = omega (arith, weight_of-split before owner after)

select_walk :
    (round : ℕ) (ss : List ValidatorStake) (seed : H256)
    → 0 < weight_of ss
    → weight_of ss ≤ u64_max
    → select_pos_validator round ss seed ≡ walk round (prefix_value seed % weight_of ss) 0 ss
unfolding select_pos_validator select_by
select_walk round [] seed pos fits = absurd (omega arith)
select_walk round (s ∷ ss) seed pos fits =
    let e : total_weight_from 0 (s ∷ ss) ≡ weight_of (s ∷ ss) =
      omega (arith, total_weight-eq 0 (s ∷ ss) (omega arith)) in
    rw e (ground arith)

-- If some weight is not 0 and the weights do not overflow a `u64`, the staker that owns the seed's
-- prefix, modulo the total weight, is selected, with its weight and the current round.
pub select-Owns :
    (round : ℕ) (ss : List ValidatorStake) (seed : H256) (owner : ValidatorStake)
    → 0 < weight_of ss
    → weight_of ss ≤ u64_max
    → Owns (prefix_value seed % weight_of ss) ss owner
    → select_pos_validator round ss seed ≡ some (chosen round owner)
select-Owns round ss seed owner pos fits (before, after, split, low, high) =
    select_walk round ss seed pos fits
    ∙ subst (λ t. walk round r 0 t ≡ some (chosen round owner)) (sym split)
        (walk-interval round r 0 before owner after
          (omega (arith, weight_of-split before owner after, ap weight_of split)) (omega arith)
          (omega arith))
  where
    r : ℕ
    r = prefix_value seed % weight_of ss

pub select_nothing :
    (round : ℕ) (ss : List ValidatorStake) (seed : H256)
    → weight_of ss ≡ 0
    → select_pos_validator round ss seed ≡ none
unfolding select_pos_validator select_by
select_nothing round [] seed h = refl
select_nothing round (s ∷ ss) seed h = ground (arith, total_weight-eq 0 (s ∷ ss))

-- If the weights do not overflow a `u64`, nobody is selected when every weight is 0; else a staker
-- of the list is, whose weight is above 0 and whose interval holds the seed's prefix modulo the
-- total.
pub select_total :
    (round : ℕ) (ss : List ValidatorStake) (seed : H256)
    → weight_of ss ≤ u64_max
    → ((weight_of ss ≡ 0) × (select_pos_validator round ss seed ≡ none))
      ⊎ ((owner : ValidatorStake) × Owns (prefix_value seed % weight_of ss) ss owner
          × (0 < owner.weight)
          × (select_pos_validator round ss seed ≡ some (chosen round owner)))
select_total round ss seed fits = elim (dec_lt 0 (weight_of ss)) [
  | yes pos ↦
      let (owner, owns) = find_owner (prefix_value seed % weight_of ss) ss (omega arith) in
      inr
        (owner, owns, omega (arith, owns.3, owns.4), select-Owns round ss seed owner pos fits owns)
  | no zero_weight ↦ inl (omega arith, select_nothing round ss seed (omega arith))
]
