-- ===== src/Tests/World.antt =====
-- A small world to run the pallet in: a ledger of balances, transparent hashes, two stakers, a
-- genesis header, and an escrow account that holds the stakes.
use ghost_blockchain.Base.{
  ℕ, ◌+◌, ◌-◌, ◌≤◌, ◌≡◌, ◌⊎◌, inl, inr, true, none, some, [], ◌∷◌, leb, ltb, ◌==◌, if◌then◌else◌,
  ◌&&◌, ◌||◌, arith, Bool-cases, sym, ap, dec_le, u128_max,
}
use ghost_blockchain.Types.{GhostBlockHeader, ConsensusPhase, DispatchError, PqcSignature, bytes_eq}
use ghost_blockchain.Environment.{
  Config, Hashing, Dilithium, Currency, Environment, ExistenceRequirement, keep_alive, allow_death,
  TransferLaws, DepositLaws,
}
use ghost_blockchain.State.{State}

abbrev pub Ledger : Type 0
Ledger = ℕ → ℕ

-- What must be left behind.
abbrev pub left_over : ExistenceRequirement → ℕ
left_over keep_alive = 1
left_over allow_death = 0

abbrev pub move : Ledger → (from to amount : ℕ) → Ledger
move l from to amount j = if j == from then l j - amount else if j == to then l j + amount else l j

abbrev pub test_transfer :
    Ledger → (from to amount : ℕ) → ExistenceRequirement → DispatchError ⊎ Ledger
test_transfer l from to amount k =
    if leb (amount + left_over k) (l from)
    then inr (move l from to amount)
    else inl (DispatchError.currency_error 2)

abbrev pub test_deposit : Ledger → (who amount : ℕ) → Ledger
test_deposit l who amount j =
    if (j == who) && leb (l j + amount) u128_max then l j + amount else l j

abbrev pub test_currency : Currency Ledger
test_currency = record {
  free_balance = λ l j. l j;
  existential_deposit = 1;
  transfer = test_transfer;
  deposit_creating = test_deposit;
}

moved :
    (l l' : Ledger) (from to amount : ℕ) (k : ExistenceRequirement)
    → test_transfer l from to amount k ≡ inr l'
    → (amount ≤ l from) × (move l from to amount ≡ l')
moved l l' from to amount k h = elim (Bool-cases (leb (amount + left_over k) (l from))) [
  | inl enough ↦ (ground arith, cc (h, enough))
  | inr short ↦ absurd (ground arith)
]

pub test_transfers : TransferLaws test_currency
test_transfers = record {
  transfer_moves = λ l l' from to amount k other h.
      let (enough, done) = moved l l' from to amount k h in
      (
        rw (sym (ap (λ f. f to) done)) (ground arith),
        inl (rw (sym (ap (λ f. f from) done)) (ground arith)),
      );
  transfer_others = λ l l' from to amount who k a b h.
      let (enough, done) = moved l l' from to amount k h in
      rw (sym (ap (λ f. f who) done)) (ground arith);
}

pub test_deposits : DepositLaws test_currency
test_deposits = record {
  deposit_others = λ l who amount j other. ground arith;
  deposit_atomic = λ l who amount. elim (dec_le (l who + amount) u128_max) [
    | yes fits ↦ inl (ground arith)
    | no over ↦ inr (ground arith)
  ];
  deposit_credits = λ l who amount live fits. ground arith;
}

-- Hashes that show what they hash: the proof of work is the nonce itself.
abbrev pub test_hashing : Hashing
test_hashing = record {
  hash_of_pow_input = λ i. i.nonce ∷ [];
  hash_of_hash = λ h. h;
  hash_of_header = λ h. h.number ∷ [];
  hash_of_vote = λ validator block_number. validator ∷ block_number ∷ [];
  hash_of_round = λ block_number current_block. block_number ∷ [];
  encode_pow_input = λ i. i.nonce ∷ [];
  sha2_256 = λ bs. bs;
  keccak_256 = λ bs. bs;
}

-- A signature is right if it is the key.
abbrev pub test_dilithium : Dilithium
test_dilithium = record {
  std = true;
  signature_from_bytes = λ bs. some bs;
  public_key_from_bytes = λ bs. some bs;
  verify_detached_signature = λ signature message public_key. bytes_eq signature public_key;
}

abbrev pub test_config : Config
test_config = record {
  block_reward = 1000;
  min_stake = 100;
  max_downtime_blocks = 100;
  double_sign_slash_percentage = 100;
  invalid_block_slash_percentage = 50;
  downtime_slash_percentage = 10;
  pqc_required = true;
}

abbrev pub test_env : Environment Ledger
test_env = record {
  config = test_config;
  hashing = test_hashing;
  dilithium = test_dilithium;
  currency = test_currency;
  account_id = 9;
  before = ltb;
}

abbrev pub test_header : (number nonce : ℕ) → GhostBlockHeader
test_header number nonce = record {
  number = number;
  parent_hash = (number - 1) ∷ [];
  state_root = [];
  extrinsics_root = [];
  nonce = nonce;
  difficulty = 100;
  validator_signature = none;
  pqc_signature = none;
}

abbrev pub test_signature : PqcSignature
test_signature = record { bytes = 7 ∷ [] }

abbrev pub start_ledger : Ledger
start_ledger j =
    if j == 9 then 4000 else if (j == 1) || (j == 2) then 5000 else if j == 3 then 50 else 0

-- Two stakers, 1 and 2, and a stored header of number 0.
abbrev pub start_state : State Ledger
start_state = record {
  difficulty = 100;
  current_phase = ConsensusPhase.pow_mining;
  block_headers = (0, test_header 0 0) ∷ [];
  block_producers = [];
  validator_stakes = (1, 1000) ∷ (2, 3000) ∷ [];
  last_active_block = [];
  double_sign_reports = [];
  invalid_block_reports = [];
  slashing_records = [];
  validator_pqc_public_keys = (1, 7 ∷ []) ∷ [];
  recent_block_producers = [];
  current_entropy = 0;
  block_number = 1;
  events = [];
  ledger = start_ledger;
}

-- The same without a header.
abbrev pub bare_state : State Ledger
bare_state = record start_state { block_headers = [] }
