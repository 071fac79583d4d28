-- ===== src/Selection/Fairness.antt =====
-- How many prefixes of the seed select each account.
use ghost_blockchain.Base.{
  ℕ, zero, suc, ◌+◌, ◌-◌, ◌*◌, ◌/◌, ◌%◌, ◌≤◌, ◌<◌, ◌≡◌, ◌==◌, refl, sym, ◌∙◌, ap, Bool, false,
  if◌then◌else◌, Option, none, some, List, [], ◌∷◌, arith, u64_max,
}
use ghost_blockchain.Base.Division.{mul-add-mod, div-add-mod_self, mod-lt_self}
use ghost_blockchain.Types.{ValidatorStake, PosSelection}
use ghost_blockchain.Selection.{total_weight_from, walk, select_by}
use ghost_blockchain.Selection.Weighted.{weight_of, total_weight-eq}

-- How many of the `n` numbers from `start` on pass a test.
abbrev pub count : (ℕ → Bool) → (start n : ℕ) → ℕ
count f start zero = 0
count f start (suc n) = (if f start then 1 else 0) + count f (start + 1) n

-- Equal answers give equal counts.
count-shift :
    (f g : ℕ → Bool) (a b n : ℕ)
    → ((i : ℕ) → i < n → f (a + i) ≡ g (b + i))
    → count f a n ≡ count g b n
count-shift f g a b zero same = refl
count-shift f g a b (suc n) same =
    let e : (x i : ℕ) → x + suc i ≡ x + 1 + i = λ x i. omega arith in
    let z : (x : ℕ) → x + 0 ≡ x = λ x. omega arith in
    let first : f a ≡ g b = ap f (sym (z a)) ∙ same 0 (omega arith) ∙ ap g (z b) in
    rw first (
      ap (λ m. (if g b then 1 else 0) + m)
        (count-shift f g (a + 1) (b + 1) n
          (λ i h. ap f (sym (e a i)) ∙ same (suc i) (omega arith) ∙ ap g (e b i))))

count-append : (f : ℕ → Bool) (a n m : ℕ) → count f a (n + m) ≡ count f a n + count f (a + n) m
count-append f a zero m =
    let e : a + 0 ≡ a = omega arith in let z : 0 + m ≡ m = omega arith in rw (e, z) (omega arith)
count-append f a (suc n) m =
    let e : a + 1 + n ≡ a + suc n = omega arith in
    let z : suc n + m ≡ suc (n + m) = omega arith in
    rw (← e, z) (omega (arith, count-append f (a + 1) n m))

count-split : (f : ℕ → Bool) (n m : ℕ) → count f 0 (n + m) ≡ count f 0 n + count f n m
count-split f n m =
    let z : 0 + n ≡ n = omega arith in count-append f 0 n m ∙ ap (λ t. count f 0 n + count f t m) z

count-constant :
    (answer : Bool) (f : ℕ → Bool) (a n : ℕ)
    → ((i : ℕ) → i < n → f (a + i) ≡ answer)
    → count f a n ≡ (if answer then n else 0)
count-constant answer f a zero same = ground arith
count-constant answer f a (suc n) same =
    let z : a ≡ a + 0 = omega arith in
    let e : (i : ℕ) → a + 1 + i ≡ a + suc i = λ i. omega arith in
    let first : f a ≡ answer = ap f z ∙ same 0 (omega arith) in
    let rest = count-constant answer f (a + 1) n (λ i h. ap f (e i) ∙ same (suc i) (omega arith)) in
    rw (first, rest) (ground arith)

-- Whether the selection is of an account.
abbrev pub picks : ℕ → Option PosSelection → Bool
picks account none = false
picks account (some selection) = selection.validator == account

-- The weight of an account among the stakers.
abbrev pub weight_at : ℕ → List ValidatorStake → ℕ
weight_at account [] = 0
weight_at account (s ∷ ss) = (if s.account == account then s.weight else 0) + weight_at account ss

count-walk :
    (account round c : ℕ) (ss : List ValidatorStake)
    → c + weight_of ss ≤ u64_max
    → count (λ r. picks account (walk round r c ss)) c (weight_of ss) ≡ weight_at account ss
unfolding walk
count-walk account round c [] fits = refl
count-walk account round c (s ∷ ss) fits = omega (
  arith,
  count-append f c s.weight (weight_of ss),
  count-constant (s.account == account) f c s.weight (λ i h. ground arith),
  count-shift f g (c + s.weight) (c + s.weight) (weight_of ss) (λ i h. ground arith),
  count-walk account round (c + s.weight) ss (omega arith),
)
  where
    f : ℕ → Bool
    f r = picks account (walk round r c (s ∷ ss))

    g : ℕ → Bool
    g r = picks account (walk round r (c + s.weight) ss)

module _ (account round : ℕ) (ss : List ValidatorStake) where
  -- Whether a prefix selects the account.
  abbrev pub selects : ℕ → Bool
  selects prefix = picks account (select_by round prefix (total_weight_from 0 ss) ss)

  -- One span of prefixes, as long as the total weight.
  count-span :
      (q : ℕ)
      → 0 < weight_of ss
      → weight_of ss ≤ u64_max
      → count selects (q * weight_of ss) (weight_of ss) ≡ weight_at account ss
  unfolding select_by
  count-span q pos fits =
      count-shift selects (λ r. picks account (walk round r 0 ss)) (q * weight_of ss) 0
        (weight_of ss)
        (λ i h.
          ground (arith, total_weight-eq 0 ss (omega arith), mul-add-mod q (weight_of ss) i h))
      ∙ count-walk account round 0 ss (omega arith)

  count-spans :
      (q : ℕ)
      → 0 < weight_of ss
      → weight_of ss ≤ u64_max
      → count selects 0 (q * weight_of ss) ≡ q * weight_at account ss
  count-spans zero pos fits = let z : 0 * weight_of ss ≡ 0 = omega arith in rw z (omega arith)
  count-spans (suc q) pos fits =
      let z : suc q * weight_of ss ≡ q * weight_of ss + weight_of ss = omega arith in
      rw z (
        omega (
          arith,
          count-split selects (q * weight_of ss) (weight_of ss),
          count-spans q pos fits,
          count-span q pos fits,
        ))

  -- If the weights are not all 0 and do not overflow a `u64`, then of the first `n` prefixes of the
  -- seed an account is selected by its weight for every whole span of the total weight, and by at
  -- most its weight more.
  pub count-selects :
      (n : ℕ)
      → 0 < weight_of ss
      → weight_of ss ≤ u64_max
      → (n / weight_of ss * weight_at account ss ≤ count selects 0 n)
        × (count selects 0 n ≤ n / weight_of ss * weight_at account ss + weight_at account ss)
  count-selects n pos fits =
      let t = weight_of ss in
      let q = n / t in
      let r = n % t in
      let short = mod-lt_self n t pos in
      let span : r + (t - r) ≡ t = omega arith in
      let cut : count selects (q * t) t
          ≡ count selects (q * t) r + count selects (q * t + r) (t - r) =
        ap (count selects (q * t)) (sym span) ∙ count-append selects (q * t) r (t - r) in
      let split : count selects 0 n ≡ count selects 0 (q * t) + count selects (q * t) r =
        ap (count selects 0) (sym (div-add-mod_self n t)) ∙ count-split selects (q * t) r in
      omega (arith, split, cut, count-spans q pos fits, count-span q pos fits)
