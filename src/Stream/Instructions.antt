-- ===== src/Stream/Instructions.antt =====
-- copy-trader-v1.6.63/src/grpc/subscriber.rs: one instruction of a transaction, read as a trade.
use rust_solana_cc_v.Prelude.{
  ℕ, false, ◌&&◌, not, Option, none, some, List, [], ◌∷◌, map, if◌then◌else◌, get_elem?, str_eq,
  Str, Pubkey,
}
use rust_solana_cc_v.Trade.{TradeType, pumpfun, direct}
use rust_solana_cc_v.Groups.Manager.{member}
use rust_solana_cc_v.Stream.Types.{
  DetectedTrade, Chain, pumpfun_program, token_program_text, token_2022_program,
}
use rust_solana_cc_v.Stream.Direction.{detect_buy_or_sell}
use rust_solana_cc_v.Stream.Lamports.{extract_buy_lamports}

-- `slots.get(i).copied().flatten()`
abbrev pub slot : List (Option Pubkey) → ℕ → Option Pubkey
slot slots i = elim (get_elem? slots i) [ none ↦ none | some s ↦ s ]

unfoldable pub extract_token_mint : TradeType → List (Option Pubkey) → Option Pubkey
extract_token_mint pumpfun slots = slot slots 2
extract_token_mint _ slots = none

-- The slots, if each of them is an account.
unfoldable pub all_slots : List (Option Pubkey) → Option (List Pubkey)
all_slots [] = some []
all_slots (none ∷ slots) = none
all_slots (some k ∷ slots) = elim (all_slots slots) [ none ↦ none | some ks ↦ some (k ∷ ks) ]

abbrev pub or_empty {ℓ} : {A : Type ℓ} → Option (List A) → List A
or_empty none = []
or_empty (some xs) = xs

module _ {V : Type 0} (chain : Chain V) where
  open chain use {to_text, from_str, get_associated_token_address_with_program_id}

  unfoldable pub detect_pumpfun_token_program :
      List Pubkey → Pubkey → Pubkey → Pubkey → Pubkey → Pubkey
  detect_pumpfun_token_program account_keys mint bonding_curve token_program token_2022 =
      let associated_legacy =
        get_associated_token_address_with_program_id bonding_curve mint token_program in
      let associated_2022 =
        get_associated_token_address_with_program_id bonding_curve mint token_2022 in
      if member associated_legacy account_keys
      then token_program
      else (if member associated_2022 account_keys
          then token_2022
          else (if member token_2022 account_keys && not (member token_program account_keys)
              then token_2022
              else token_program))

  unfoldable pub extract_token_program :
      TradeType → List (Option Pubkey) → List Pubkey → Option Pubkey → Option Pubkey
  unfolding detect_pumpfun_token_program
  extract_token_program pumpfun slots keys token_mint = elim (slot slots 8) [
    | some p ↦ some p
    | none ↦ elim token_mint [
      | none ↦ none
      | some mint ↦ elim (slot slots 3) [
        | none ↦ none
        | some bonding_curve ↦ some (
            detect_pumpfun_token_program keys mint bonding_curve (from_str token_program_text)
              (from_str token_2022_program))
      ]
    ]
  ]
  extract_token_program _ slots keys token_mint = none

  -- The trade of an instruction of the program; `parse_transaction` completes it.
  unfoldable pub trade_of_instruction :
      List Pubkey → Pubkey → List ℕ → List ℕ → List Pubkey → Str → Pubkey → ℕ → DetectedTrade
  unfolding all_slots
  trade_of_instruction target_wallets program_id bytes account_indices keys signature wallet
        recv_time =
      let is_buy = detect_buy_or_sell chain target_wallets bytes pumpfun account_indices keys in
      let slots = map (get_elem? keys) account_indices in
      let token_mint = extract_token_mint pumpfun slots in
      record {
        signature = signature;
        source_wallet = wallet;
        trade_type = pumpfun;
        trade_origin = direct;
        is_buy = is_buy;
        program_id = program_id;
        instruction_data = bytes;
        instruction_accounts = or_empty (all_slots slots);
        all_account_keys = keys;
        detected_at = recv_time;
        sol_amount_lamports = if is_buy then extract_buy_lamports pumpfun bytes else 0;
        raw_transaction_bytes = [];
        is_pre_execution = false;
        execution_failed = false;
        token_mint = token_mint;
        token_program = extract_token_program pumpfun slots keys token_mint;
      }

  unfoldable pub try_parse_instruction :
      List Pubkey → Pubkey → List ℕ → List ℕ → List Pubkey → Str → Pubkey → ℕ → Option DetectedTrade
  unfolding trade_of_instruction
  try_parse_instruction target_wallets program_id bytes account_indices keys signature wallet
        recv_time =
      if str_eq (to_text program_id) pumpfun_program
      then some (
          trade_of_instruction target_wallets program_id bytes account_indices keys signature wallet
            recv_time)
      else none
