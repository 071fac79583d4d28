-- ===== src/Entropy/Counts.antt =====
-- The counts of the producers.
use ghost_blockchain.Base.{
  ℕ, ◌+◌, ◌≤◌, ◌<◌, ◌≡◌, ◌≢◌, ap, ◌∙◌, ◌⊎◌, inl, inr, List, [], ◌∷◌, arith, length, u64_max, All,
  ℕ_discrete,
}
use ghost_blockchain.Entropy.{count_one, count_producers}

-- The sum of the counts.
abbrev pub sum_counts : List (ℕ × ℕ) → ℕ
sum_counts [] = 0
sum_counts ((_, n) ∷ counts) = n + sum_counts counts

sum-count_one :
    (p : ℕ) (counts : List (ℕ × ℕ))
    → sum_counts counts + 1 ≤ u64_max
    → sum_counts (count_one p counts) ≡ sum_counts counts + 1
unfolding count_one
sum-count_one p [] h = omega arith
sum-count_one p (e ∷ counts) h = ground (arith, sum-count_one p counts)

-- Every producer is counted once.
pub sum-count_producers :
    (counts : List (ℕ × ℕ)) (ps : List ℕ)
    → sum_counts counts + length ps ≤ u64_max
    → sum_counts (count_producers counts ps) ≡ sum_counts counts + length ps
unfolding count_producers
sum-count_producers counts [] h = omega arith
sum-count_producers counts (p ∷ ps) h =
    let one = sum-count_one p counts (omega arith) in
    omega (arith, one, sum-count_producers (count_one p counts) ps (omega (arith, one)))

-- Every count is at least 1.
abbrev pub IsCounted : List (ℕ × ℕ) → Type 0
IsCounted = All (λ e. 0 < e.1)

count_one-IsCounted :
    (p : ℕ) (counts : List (ℕ × ℕ))
    → sum_counts counts + 1 ≤ u64_max
    → IsCounted counts
    → IsCounted (count_one p counts)
unfolding count_one
count_one-IsCounted p [] h c = (omega arith, tt)
count_one-IsCounted p (e ∷ counts) h c = ground (arith, count_one-IsCounted p counts)

pub count_producers-IsCounted :
    (counts : List (ℕ × ℕ)) (ps : List ℕ)
    → sum_counts counts + length ps ≤ u64_max
    → IsCounted counts
    → IsCounted (count_producers counts ps)
unfolding count_producers
count_producers-IsCounted counts [] h c = c
count_producers-IsCounted counts (p ∷ ps) h c =
    count_producers-IsCounted (count_one p counts) ps
      (omega (arith, sum-count_one p counts (omega arith)))
      (count_one-IsCounted p counts (omega arith) c)

length-count_one : (p : ℕ) (counts : List (ℕ × ℕ)) → length counts ≤ length (count_one p counts)
unfolding count_one
length-count_one p [] = omega arith
length-count_one p (e ∷ counts) = ground (arith, length-count_one p counts)

length-count_producers :
    (counts : List (ℕ × ℕ)) (ps : List ℕ) → length counts ≤ length (count_producers counts ps)
unfolding count_producers
length-count_producers counts [] = omega arith
length-count_producers counts (p ∷ ps) =
    omega (arith, length-count_one p counts, length-count_producers (count_one p counts) ps)

-- The producers after the first are all `a`.
abbrev pub AllSame : ℕ → List ℕ → Type 0
AllSame a = All (λ p. p ≡ a)

count_one_same : (p a n : ℕ) → p ≡ a → n + 1 ≤ u64_max → count_one p ((a, n) ∷ []) ≡ (a, n + 1) ∷ []
unfolding count_one
count_one_same p a n e h = ground arith

count_one_other : (p a n : ℕ) → p ≢ a → 2 ≤ length (count_one p ((a, n) ∷ []))
unfolding count_one
count_one_other p a n e = ground arith

-- From one producer on, the map stays at one entry exactly as long as nobody else produces.
pub count_producers_one :
    (a n : ℕ) (ps : List ℕ)
    → n + length ps ≤ u64_max
    → (AllSame a ps × (count_producers ((a, n) ∷ []) ps ≡ (a, n + length ps) ∷ []))
      ⊎ (¬ AllSame a ps × (2 ≤ length (count_producers ((a, n) ∷ []) ps)))
unfolding count_producers
count_producers_one a n [] h = inl (tt, ground arith)
count_producers_one a n (p ∷ ps) h = elim (ℕ_discrete p a) [
  | yes same ↦
      rw (count_one_same p a n same (omega arith))
        (elim (count_producers_one a (n + 1) ps (omega arith)) [
          | inl (all, one) ↦ inl ((same, all), one ∙ ap (λ (m : ℕ). (a, m) ∷ []) (omega arith))
          | inr (mixed, two) ↦ inr ((λ h'. mixed h'.1), two)
        ])
  | no other ↦ inr (
    (λ h'. other h'.0),
    omega
        (arith, count_one_other p a n other, length-count_producers (count_one p ((a, n) ∷ [])) ps),
  )
]
