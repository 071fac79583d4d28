-- ===== src/Tests/Methods.antt =====
-- The RPC methods of a full node, with a merge that looks for a common name.
use Prim.Native.String.{String}
use text.Mathlib.Text.{◌==◌}
use text.Mathlib.TextEquality.{eq_iff}
use ghost_blockchain.Base.{
  ℕ, ◌≡◌, inl, inr, refl, Bool, true, false, [], ◌∷◌, ◌++◌, Bool-cases, arith, if◌then◌else◌,
}
use ghost_blockchain.Node.Extensions.{RpcModule, RpcLibrary, MergeLaws, HasMethod, Collide}

abbrev pub Methods : Type 0
Methods = RpcModule ℕ

abbrev pub has : String → Methods → Bool
has name [] = false
has name ((n, m) ∷ ms) = if n == name then true else has name ms

abbrev pub clash : Methods → Methods → Bool
clash [] b = false
clash ((n, m) ∷ a) b = if has n b then true else clash a b

has_sound : (name : String) (ms : Methods) → has name ms ≡ true → HasMethod ms name
has_sound name [] h = absurd (cc h)
has_sound name ((n, m) ∷ ms) h = elim (Bool-cases (n == name)) [
  | inl same ↦ inl ((eq_iff n name).0 same)
  | inr other ↦ inr (has_sound name ms (ground arith))
]

has_complete : (name : String) (ms : Methods) → HasMethod ms name → has name ms ≡ true
has_complete name [] h = absurd h
has_complete name ((n, m) ∷ ms) (inl same) = rw ((eq_iff n name).1 same) refl
has_complete name ((n, m) ∷ ms) (inr later) = ground (arith, has_complete name ms later)

clash_sound : (a b : Methods) → clash a b ≡ true → Collide a b
clash_sound [] b h = absurd (cc h)
clash_sound ((n, m) ∷ a) b h = elim (Bool-cases (has n b)) [
  | inl both ↦ (n, inl refl, has_sound n b both)
  | inr none' ↦
      let (name, first, second) = clash_sound a b (ground arith) in (name, inr first, second)
]

clash_complete : (a b : Methods) → Collide a b → clash a b ≡ true
clash_complete [] b (name, first, second) = absurd first
clash_complete ((n, m) ∷ a) b (name, inl same, second) = rw (has_complete n b (rw same second)) refl
clash_complete ((n, m) ∷ a) b (name, inr first, second) =
    ground (arith, clash_complete a b (name, first, second))

abbrev pub toy_rpc : RpcLibrary (Unit {0}) (Unit {0}) (Unit {0}) ℕ String
toy_rpc = record {
  answer = λ r. 0;
  merge = λ a b. if clash a b then inl "taken" else inr (a ++ b);
  system = λ deps. ("system_accountNextIndex", 1) ∷ [];
  transaction_payment = λ client. ("payment_queryInfo", 2) ∷ [];
}

toy_merge : MergeLaws toy_rpc
toy_merge = record {
  merge_apart = λ a b apart. elim (Bool-cases (clash a b)) [
    | inl c ↦ absurd (apart (clash_sound a b c))
    | inr free ↦ rw free refl
  ];
  merge_collides = λ a b c. ("taken", rw (clash_complete a b c) refl);
}
