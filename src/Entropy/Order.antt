-- ===== src/Entropy/Order.antt =====
-- The order of the producers in `calculate_entropy` of
-- pallets/pallet-ghost-consensus/src/functions.rs.
use ghost_blockchain.Base.{ℕ, ◌≡◌, refl, ap, ◌∙◌, List, [], ◌∷◌, arith, length}
use mathlib.Core.List.{Perm, Permᴰ}
use mathlib.Core.Logic.{∥∥₁_elim}
use native.Mathlib.Nat.{ℕ_set}
use ghost_blockchain.Entropy.{
  integer_log2_scaled, add_terms, count_one, count_producers, calculate_entropy,
}

-- Two blocks are counted alike in either order.
count_one_comm :
    (p q : ℕ) (counts : List (ℕ × ℕ))
    → count_one p (count_one q counts) ≡ count_one q (count_one p counts)
unfolding count_one
count_one_comm p q [] = ground arith
count_one_comm p q ((k, n) ∷ counts) = ground (arith, count_one_comm p q counts)

count_producers-Permᴰ :
    (ps qs : List ℕ)
    → Permᴰ ps qs
    → (counts : List (ℕ × ℕ)) → count_producers counts ps ≡ count_producers counts qs
unfolding count_producers
count_producers-Permᴰ _ _ Permᴰ.nil counts = refl
count_producers-Permᴰ _ _ (Permᴰ.cons {b = b} {l₁ = l₁} {l₂ = l₂} e p) counts =
    rw e (count_producers-Permᴰ l₁ l₂ p (count_one b counts))
count_producers-Permᴰ _ _ (Permᴰ.swap {l = l} e e') counts =
    rw (e, e') (ap (λ t. count_producers t l) (count_one_comm _ _ counts))
count_producers-Permᴰ _ _ (Permᴰ.trans {l₁ = l₁} {l₂ = l₂} {l₃ = l₃} p q) counts =
    count_producers-Permᴰ l₁ l₂ p counts ∙ count_producers-Permᴰ l₂ l₃ q counts

length-Permᴰ : (ps qs : List ℕ) → Permᴰ ps qs → length ps ≡ length qs
length-Permᴰ _ _ Permᴰ.nil = refl
length-Permᴰ _ _ (Permᴰ.cons {l₁ = l₁} {l₂ = l₂} e p) = omega (arith, length-Permᴰ l₁ l₂ p)
length-Permᴰ _ _ (Permᴰ.swap e e') = omega arith
length-Permᴰ _ _ (Permᴰ.trans {l₁ = l₁} {l₂ = l₂} {l₃ = l₃} p q) =
    length-Permᴰ l₁ l₂ p ∙ length-Permᴰ l₂ l₃ q

-- The empty list is no case of its own.
abbrev entropy_of : (total : ℕ) → List (ℕ × ℕ) → ℕ
entropy_of total counts = add_terms (integer_log2_scaled total) total 0 counts

calculate_entropy-eq :
    (ps : List ℕ) → calculate_entropy ps ≡ entropy_of (length ps) (count_producers [] ps)
unfolding calculate_entropy add_terms count_producers
calculate_entropy-eq [] = refl
calculate_entropy-eq (p ∷ ps) = refl

calculate_entropy-Permᴰ :
    (ps qs : List ℕ) → Permᴰ ps qs → calculate_entropy ps ≡ calculate_entropy qs
calculate_entropy-Permᴰ ps qs p =
    rw
      (
        calculate_entropy-eq ps,
        calculate_entropy-eq qs,
        length-Permᴰ ps qs p,
        count_producers-Permᴰ ps qs p [],
      )
      refl

-- The entropy of the producers does not depend on their order.
pub calculate_entropy-Perm :
    (ps qs : List ℕ) → Perm ps qs → calculate_entropy ps ≡ calculate_entropy qs
calculate_entropy-Perm ps qs p =
    ∥∥₁_elim p (ℕ_set (calculate_entropy ps) (calculate_entropy qs)) (calculate_entropy-Permᴰ ps qs)
