-- ===== src/Stream/Cpi.antt =====
-- copy-trader-v1.6.63/src/grpc/subscriber.rs: a trade that a program makes for the wallet, found by the
-- account keys alone.
use rust_solana_cc_v.Prelude.{
  ℕ, Bool, true, false, ◌&&◌, ◌||◌, Option, none, some, List, [], ◌∷◌, leb, if◌then◌else◌, length,
  Str, codes, Pubkey,
}
use rust_solana_cc_v.Trade.{pumpfun, wrapper_cpi}
use rust_solana_cc_v.Groups.Manager.{member}
use rust_solana_cc_v.Pumpfun.Layout.{to_le_bytes}
use rust_solana_cc_v.Stream.Types.{
  DetectedTrade, StatusMeta, Transaction, Chain, pumpfun_program, wsol_mint, token_program_text,
  token_2022_program,
}
use rust_solana_cc_v.Stream.Lamports.{meta_failed}
use rust_solana_cc_v.Stream.Instructions.{or_empty, detect_pumpfun_token_program}

-- How a call ends: with a value, with the error on a missing message, or with a panic.
pub data Outcome {ℓ} (A : Type ℓ) : Type ℓ where
  returned : A → Outcome A
  missing_message panicked : Outcome A

module _ {V : Type 0} (chain : Chain V) where
  open chain use {
    to_text, from_str, system_program, find_program_address, get_associated_token_address,
    create_tx_versioned, serialize,
  }

  unfoldable pub serialize_transaction_from_proto : Transaction → Option (List ℕ)
  serialize_transaction_from_proto tx = elim (create_tx_versioned tx) [
    | none ↦ none
    | some v ↦ serialize v
  ]

  unfoldable pub system_addresses : List Pubkey
  system_addresses =
      from_str pumpfun_program
      ∷ from_str wsol_mint
      ∷ system_program
      ∷ from_str token_program_text
      ∷ from_str token_2022_program
      ∷ from_str (codes "ATokenGPvbdGVxr1b2hvZbsiqW5xWH25efTNsLJA8knL")
      ∷ from_str (codes "SysvarRent111111111111111111111111111111111")
      ∷ from_str (codes "11111111111111111111111111111111")
      ∷ from_str (codes "ComputeBudget111111111111111111111111111111")
      ∷ from_str (codes "4wTV1YmiEkRvAtNtsSGPtUrqRYQMe5SKy2uB4Jjaxnjf")
      ∷ from_str (codes "CebN5WGQ4jvEPvsVU4EoHEpgzq1VV7AbicfhtW4xC9i")
      ∷ from_str (codes "Ce6TQqeHC9p8KetsN6JsjHK7UTZk7nasjjnr7XxXp9F1")
      ∷ []

  abbrev pub bonding_curve_of : Pubkey → Pubkey
  bonding_curve_of mint =
      find_program_address (codes "bonding-curve" ∷ to_le_bytes 32 mint ∷ [])
        (from_str pumpfun_program)

  -- The first candidate whose bonding curve is among the keys.
  unfoldable pub find_mint : List Pubkey → List Pubkey → List Pubkey → Option Pubkey
  find_mint target_wallets account_keys [] = none
  find_mint target_wallets account_keys (candidate ∷ rest) =
      let later = find_mint target_wallets account_keys rest in
      if member candidate system_addresses || member candidate target_wallets
      then later
      else (if member (bonding_curve_of candidate) account_keys then some candidate else later)

  -- Are the texts as long as the slices that the line of the log takes?
  unfoldable pub log_slices_fit : Pubkey → Pubkey → Str → Bool
  log_slices_fit wallet token_program signature =
      leb 4 (length (to_text wallet))
      && (leb 12 (length (to_text token_program)) && leb 8 (length signature))

  unfoldable pub cpi_trade :
      List Pubkey
      → Str
      → Pubkey
      → Option StatusMeta
      → Transaction
      → ℕ
      → Pubkey
      → Pubkey
      → DetectedTrade
  unfolding serialize_transaction_from_proto
  cpi_trade keys signature wallet meta tx recv_time mint token_program = record {
    signature = signature;
    source_wallet = wallet;
    trade_type = pumpfun;
    trade_origin = wrapper_cpi;
    is_buy = member (get_associated_token_address wallet (from_str wsol_mint)) keys;
    program_id = from_str pumpfun_program;
    instruction_data = [];
    instruction_accounts = [];
    all_account_keys = keys;
    detected_at = recv_time;
    sol_amount_lamports = 0;
    raw_transaction_bytes = or_empty (serialize_transaction_from_proto tx);
    is_pre_execution = elim meta [ none ↦ true | some m ↦ false ];
    execution_failed = meta_failed meta;
    token_mint = some mint;
    token_program = some token_program;
  }

  unfoldable pub try_detect_cpi_pumpfun :
      List Pubkey
      → List Pubkey
      → Str
      → Pubkey
      → Option StatusMeta
      → Transaction
      → ℕ
      → Outcome (Option DetectedTrade)
  unfolding find_mint log_slices_fit cpi_trade
  try_detect_cpi_pumpfun target_wallets keys signature wallet meta tx recv_time =
      elim (find_mint target_wallets keys keys) [
        | none ↦ returned none
        | some mint ↦
            let token_program =
              detect_pumpfun_token_program chain keys mint (bonding_curve_of mint)
                (from_str token_program_text) (from_str token_2022_program) in
            if log_slices_fit wallet token_program signature
            then returned
                (some (cpi_trade keys signature wallet meta tx recv_time mint token_program))
            else panicked
      ]
