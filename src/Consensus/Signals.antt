-- ===== src/Consensus/Signals.antt =====
-- copy-trader-v1.6.63/src/consensus/engine.rs: the signals, their scores and their tally.
use rust_solana_cc_v.Prelude.{
  ℕ, ◌+◌, ◌-◌, Bool, ◌&&◌, ◌||◌, not, Option, none, some, List, [], ◌∷◌, map, ltb, leb, ◌==◌,
  if◌then◌else◌, length, is_empty, retain, Str, str_eq, Pubkey,
}
use rust_solana_cc_v.Trade.{TradeOrigin, is_wrapper_cpi}

pub record BuySignal : Type 0 where
  pub group_id : Str
  pub group_name : Str
  pub token_mint : Pubkey
  pub wallet : Pubkey
  pub token_program : Pubkey
  pub detected_at : ℕ
  pub signature : Str
  pub consensus_min_wallets : ℕ
  pub consensus_timeout_secs : ℕ
  pub instruction_data : List ℕ
  pub instruction_accounts : List Pubkey
  pub sol_amount_lamports : ℕ
  pub is_pre_execution : Bool
  pub trade_origin : TradeOrigin

pub record ConsensusTrigger : Type 0 where
  pub group_id : Str
  pub group_name : Str
  pub token_mint : Pubkey
  pub wallets : List Pubkey
  pub first_signature : Str
  pub canonical_signature : Str
  pub canonical_wallet : Pubkey
  pub canonical_token_program : Pubkey
  pub canonical_instruction_data : List ℕ
  pub canonical_instruction_accounts : List Pubkey
  pub canonical_trade_origin : TradeOrigin
  pub triggered_at : ℕ

pub record TokenSignals : Type 0 where
  pub signals : List BuySignal
  pub triggered : Bool
  pub min_wallets : ℕ
  pub timeout : ℕ

unfoldable pub has_target_instruction : BuySignal → Bool
has_target_instruction s = leb 24 (length s.instruction_data)

unfoldable pub counts_for_candidate_consensus : BuySignal → Bool
unfolding has_target_instruction is_wrapper_cpi
counts_for_candidate_consensus s =
    has_target_instruction s || ltb 0 s.sol_amount_lamports || is_wrapper_cpi s.trade_origin

unfoldable pub canonical_score : BuySignal → ℕ
unfolding has_target_instruction
canonical_score s =
    (if has_target_instruction s then 8 else 0)
    + (if is_empty s.instruction_accounts then 0 else 4)
    + (if ltb 0 s.sol_amount_lamports then 2 else 0)
    + (if s.is_pre_execution then 0 else 1)

-- The comparison that both branches of `should_replace_signal` make.
unfoldable pub better_signal : BuySignal → BuySignal → Bool
better_signal existing incoming =
    ltb (canonical_score existing) (canonical_score incoming)
    || ((canonical_score incoming == canonical_score existing)
        && (not incoming.is_pre_execution && existing.is_pre_execution))

unfoldable pub should_replace_signal : BuySignal → BuySignal → Bool
unfolding better_signal
should_replace_signal existing incoming =
    if str_eq incoming.signature existing.signature
    then better_signal existing incoming
    else better_signal existing incoming

-- `iter_mut().find(...)`: the first signal of the wallet, and its replacement in place.
unfoldable pub find_wallet : Pubkey → List BuySignal → Option BuySignal
find_wallet w [] = none
find_wallet w (s ∷ ss) = if s.wallet == w then some s else find_wallet w ss

unfoldable pub replace_wallet : BuySignal → List BuySignal → List BuySignal
replace_wallet t [] = []
replace_wallet t (s ∷ ss) = if s.wallet == t.wallet then t ∷ ss else s ∷ replace_wallet t ss

-- `now.duration_since(candidate.detected_at) < timeout`.
abbrev pub is_live : ℕ → ℕ → BuySignal → Bool
is_live now timeout s = ltb (now - s.detected_at) timeout

pub record VoteTally : Type 0 where
  pub effective_signals : List BuySignal
  pub candidate_wallets : List Pubkey
  pub effective_wallets : List Pubkey
  pub min_wallets : ℕ

unfoldable pub tally_votes : List BuySignal → ℕ → VoteTally
tally_votes signals min_wallets = record {
  effective_signals = effective;
  candidate_wallets = map (λ s. s.wallet) effective;
  effective_wallets = map (λ s. s.wallet) effective;
  min_wallets = min_wallets;
}
  where
    effective : List BuySignal
    effective = retain counts_for_candidate_consensus signals

unfoldable pub should_trigger : VoteTally → Bool
should_trigger t = leb t.min_wallets (length t.candidate_wallets)

-- `max_by_key` keeps the last of the greatest elements, `min_by_key` the first of the least.
unfoldable pub max_by_key_from : (BuySignal → ℕ) → BuySignal → List BuySignal → BuySignal
max_by_key_from key best [] = best
max_by_key_from key best (s ∷ ss) =
    max_by_key_from key (if leb (key best) (key s) then s else best) ss

unfoldable pub max_by_key : (BuySignal → ℕ) → List BuySignal → Option BuySignal
unfolding max_by_key_from
max_by_key key [] = none
max_by_key key (s ∷ ss) = some (max_by_key_from key s ss)

unfoldable pub min_by_key_from : (BuySignal → ℕ) → BuySignal → List BuySignal → BuySignal
min_by_key_from key best [] = best
min_by_key_from key best (s ∷ ss) =
    min_by_key_from key (if ltb (key s) (key best) then s else best) ss

unfoldable pub min_by_key : (BuySignal → ℕ) → List BuySignal → Option BuySignal
unfolding min_by_key_from
min_by_key key [] = none
min_by_key key (s ∷ ss) = some (min_by_key_from key s ss)

abbrev pub first_signature_of : Option BuySignal → Str
first_signature_of none = []
first_signature_of (some s) = s.signature

unfoldable pub make_trigger : BuySignal → VoteTally → BuySignal → ℕ → ConsensusTrigger
make_trigger s tally canonical now = record {
  group_id = s.group_id;
  group_name = s.group_name;
  token_mint = s.token_mint;
  wallets = tally.effective_wallets;
  first_signature = first_signature_of (min_by_key (λ c. c.detected_at) tally.effective_signals);
  canonical_signature = canonical.signature;
  canonical_wallet = canonical.wallet;
  canonical_token_program = canonical.token_program;
  canonical_instruction_data = canonical.instruction_data;
  canonical_instruction_accounts = canonical.instruction_accounts;
  canonical_trade_origin = canonical.trade_origin;
  triggered_at = now;
}
