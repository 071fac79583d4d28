-- ===== src/Base/Storage.antt =====
-- A FRAME `StorageMap` as its list of entries in iteration order. The trie iterates by hashed key:
-- `before k j` says whether the hash of `k` comes before that of `j`, and is given by the caller.
use Prim.Native.Nat.{ℕ, ◌+◌, ◌≤◌}
use mathlib.Core.Path.{◌≡◌, refl}
use mathlib.Core.Bool.{Bool, true, false}
use mathlib.Core.Option.{Option, none, some}
use mathlib.Core.List.{List, [], ◌∷◌}
use native.Mathlib.Omega.{arith}
use ghost_blockchain.Base.Tests.{◌==◌, if◌then◌else◌}

abbrev pub StorageMap {ℓ} : Type ℓ → Type ℓ
StorageMap V = List (ℕ × V)

module _ {ℓ} {V : Type ℓ} where
  -- `StorageMap::get` of an optional value.
  abbrev pub lookup : ℕ → StorageMap V → Option V
  lookup k [] = none
  lookup k ((j, v) ∷ m) = if k == j then some v else lookup k m

  -- `unwrap_or`, `unwrap_or_default` and the `get` of a `ValueQuery`.
  abbrev pub get_or : Option V → V → V
  get_or none d = d
  get_or (some v) d = v

  abbrev pub contains_key : ℕ → StorageMap V → Bool
  contains_key k [] = false
  contains_key k ((j, v) ∷ m) = if k == j then true else contains_key k m

  replace : ℕ → V → StorageMap V → StorageMap V
  replace k v [] = []
  replace k v (e ∷ m) = if k == e.0 then (k, v) ∷ m else e ∷ replace k v m

  place : (ℕ → ℕ → Bool) → ℕ → V → StorageMap V → StorageMap V
  place before k v [] = (k, v) ∷ []
  place before k v (e ∷ m) = if before k e.0 then (k, v) ∷ e ∷ m else e ∷ place before k v m

  unfoldable pub insert : (ℕ → ℕ → Bool) → ℕ → V → StorageMap V → StorageMap V
  unfolding replace place
  insert before k v m = if contains_key k m then replace k v m else place before k v m

  lookup-replace :
      (k j : ℕ) (v : V) (m : StorageMap V)
      → contains_key k m ≡ true
      → lookup j (replace k v m) ≡ (if j == k then some v else lookup j m)
  unfolding replace
  lookup-replace k j v [] h = cc
  lookup-replace k j v (e ∷ m) h = ground (arith, lookup-replace k j v m)

  lookup-place :
      (before : ℕ → ℕ → Bool) (k j : ℕ) (v : V) (m : StorageMap V)
      → contains_key k m ≡ false
      → lookup j (place before k v m) ≡ (if j == k then some v else lookup j m)
  unfolding place
  lookup-place before k j v [] h = refl
  lookup-place before k j v (e ∷ m) h = ground (arith, lookup-place before k j v m)

  pub lookup-insert :
      (before : ℕ → ℕ → Bool) (k j : ℕ) (v : V) (m : StorageMap V)
      → lookup j (insert before k v m) ≡ (if j == k then some v else lookup j m)
  unfolding insert
  lookup-insert before k j v m = ground (arith, lookup-replace k j v m, lookup-place before k j v m)

  pub contains_key-lookup :
      (k : ℕ) (v : V) (m : StorageMap V) → lookup k m ≡ some v → contains_key k m ≡ true
  contains_key-lookup k v [] h = cc
  contains_key-lookup k v (e ∷ m) h = ground (arith, contains_key-lookup k v m)

  pub contains_key-insert :
      (before : ℕ → ℕ → Bool) (k : ℕ) (v : V) (m : StorageMap V)
      → contains_key k (insert before k v m) ≡ true
  contains_key-insert before k v m =
      ground (arith, lookup-insert before k k v m, contains_key-lookup k v (insert before k v m))

  pub not_contains_key : (k : ℕ) (m : StorageMap V) → lookup k m ≡ none → contains_key k m ≡ false
  not_contains_key k [] h = refl
  not_contains_key k (e ∷ m) h = ground (arith, not_contains_key k m)

module _ {V : Type 0} where
  -- No key stands twice in the map.
  abbrev pub HasDistinctKeys : StorageMap V → Type 0
  HasDistinctKeys [] = Unit
  HasDistinctKeys ((k, v) ∷ m) = (lookup k m ≡ none) × HasDistinctKeys m

  replace-HasDistinctKeys :
      (k : ℕ) (v : V) (m : StorageMap V)
      → contains_key k m ≡ true
      → HasDistinctKeys m
      → HasDistinctKeys (replace k v m)
  unfolding replace
  replace-HasDistinctKeys k v [] c h = tt
  replace-HasDistinctKeys k v ((j, w) ∷ m) c h =
      ground (arith, lookup-replace k j v m, replace-HasDistinctKeys k v m)

  place-HasDistinctKeys :
      (before : ℕ → ℕ → Bool) (k : ℕ) (v : V) (m : StorageMap V)
      → lookup k m ≡ none
      → HasDistinctKeys m
      → HasDistinctKeys (place before k v m)
  unfolding place
  place-HasDistinctKeys before k v [] c h = (refl, tt)
  place-HasDistinctKeys before k v ((j, w) ∷ m) c h =
      ground (
        arith,
        not_contains_key k m,
        lookup-place before k j v m,
        place-HasDistinctKeys before k v m,
      )

  lookup_absent : (k : ℕ) (m : StorageMap V) → contains_key k m ≡ false → lookup k m ≡ none
  lookup_absent k [] h = refl
  lookup_absent k (e ∷ m) h = ground (arith, lookup_absent k m)

  -- A write keeps the keys distinct.
  pub insert-HasDistinctKeys :
      (before : ℕ → ℕ → Bool) (k : ℕ) (v : V) (m : StorageMap V)
      → HasDistinctKeys m
      → HasDistinctKeys (insert before k v m)
  unfolding insert
  insert-HasDistinctKeys before k v m h =
      ground (
        arith,
        lookup_absent k m,
        replace-HasDistinctKeys k v m,
        place-HasDistinctKeys before k v m,
      )

-- The sum of a map of numbers follows its writes.
abbrev pub sum_values : StorageMap ℕ → ℕ
sum_values [] = 0
sum_values ((_, v) ∷ m) = v + sum_values m

sum-replace :
    (k v old : ℕ) (m : StorageMap ℕ)
    → lookup k m ≡ some old
    → sum_values (replace k v m) + old ≡ sum_values m + v
unfolding replace
sum-replace k v old [] h = cc
sum-replace k v old (e ∷ m) h = ground (arith, sum-replace k v old m)

sum-place :
    (before : ℕ → ℕ → Bool) (k v : ℕ) (m : StorageMap ℕ)
    → sum_values (place before k v m) ≡ sum_values m + v
unfolding place
sum-place before k v [] = omega arith
sum-place before k v (e ∷ m) = ground (arith, sum-place before k v m)

pub sum-insert :
    (before : ℕ → ℕ → Bool) (k v : ℕ) (m : StorageMap ℕ)
    → sum_values (insert before k v m) + get_or (lookup k m) 0 ≡ sum_values m + v
unfolding insert
sum-insert before k v m = go (lookup k m) refl
  where
    go :
        (o : Option ℕ)
        → lookup k m ≡ o
        → sum_values (insert before k v m) + get_or o 0 ≡ sum_values m + v
    go none e = ground (arith, not_contains_key k m e, sum-place before k v m)
    go (some old) e = ground (arith, contains_key-lookup k old m e, sum-replace k v old m e)

pub le-sum_values : (k v : ℕ) (m : StorageMap ℕ) → lookup k m ≡ some v → v ≤ sum_values m
le-sum_values k v [] h = absurd (cc)
le-sum_values k v (e ∷ m) h = ground (arith, le-sum_values k v m)
