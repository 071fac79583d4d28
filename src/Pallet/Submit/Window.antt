-- ===== src/Pallet/Submit/Window.antt =====
-- The window of recent producers is the end of the whole history of producers.
use ghost_blockchain.Base.{
  ℕ, suc, ◌+◌, ◌-◌, ◌≤◌, ◌<◌, ◌≡◌, refl, sym, ap, ◌∙◌, List, [], ◌∷◌, ◌++◌, arith, length, drop,
  length-append, length-drop, drop-append, drop-drop_one, dec_lt,
}
use ghost_blockchain.Types.{Event}
use ghost_blockchain.Pallet.Submit.{window_size, push_recent}

-- The last 100 entries.
abbrev pub recent_of : List ℕ → List ℕ
recent_of history = drop (length history - window_size) history

length-recent_of : (history : List ℕ) → length (recent_of history) ≤ window_size
length-recent_of history = omega (arith, length-drop (length history - window_size) history)

push_short :
    (recent : List ℕ) (m : ℕ)
    → length recent < window_size
    → push_recent recent m ≡ recent ++ m ∷ []
unfolding push_recent
push_short recent m h = ground arith

push_full :
    (recent : List ℕ) (m : ℕ)
    → length recent ≡ window_size
    → push_recent recent m ≡ drop 1 recent ++ m ∷ []
unfolding push_recent
push_full recent m h = ground (arith, length-drop 1 recent)

-- A push on the end of a history gives the end of the longer history: the oldest of 100 producers
-- leaves, and the new one is never lost.
pub push_recent-recent_of :
    (history : List ℕ) (m : ℕ) → push_recent (recent_of history) m ≡ recent_of (history ++ m ∷ [])
push_recent-recent_of history m = elim (dec_lt (length history) window_size) [
  | yes short ↦
      let kept : length history - window_size ≡ 0 = omega arith in
      let kept' : length (history ++ m ∷ []) - window_size ≡ 0 = omega (arith, longer) in
      rw (kept, kept') (push_short history m short)
  | no long ↦
      let k : ℕ = length history - window_size in
      let next : length (history ++ m ∷ []) - window_size ≡ suc k = omega (arith, longer) in
      push_full (drop k history) m (omega (arith, length-drop k history))
      ∙ ap (λ (t : List ℕ). t ++ m ∷ []) (drop-drop_one k history)
      ∙ sym (drop-append (suc k) history (m ∷ []) (omega arith))
      ∙ ap (λ (n : ℕ). drop n (history ++ m ∷ [])) (sym next)
]
  where
    longer : length (history ++ m ∷ []) ≡ length history + 1
    longer = omega (arith, length-append history (m ∷ []))

-- The miners of the `BlockMined` events, in order.
abbrev pub miners : List Event → List ℕ
miners [] = []
miners (Event.block_mined n miner nonce ∷ es) = miner ∷ miners es
miners (_ ∷ es) = miners es

pub miners-append : (xs ys : List Event) → miners (xs ++ ys) ≡ miners xs ++ miners ys
miners-append [] ys = refl
miners-append (Event.block_mined n miner nonce ∷ es) ys = ap (◌∷◌ miner) (miners-append es ys)
miners-append (Event.validator_selected v w ∷ es) ys = miners-append es ys
miners-append (Event.rewards_distributed m a b ∷ es) ys = miners-append es ys
miners-append (Event.validator_slashed v r a ∷ es) ys = miners-append es ys
miners-append (Event.difficulty_adjusted a b ∷ es) ys = miners-append es ys
