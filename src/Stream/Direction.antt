-- ===== src/Stream/Direction.antt =====
-- copy-trader-v1.6.63/src/grpc/subscriber.rs: whether an instruction buys or sells.
use rust_solana_cc_v.Prelude.{
  ℕ, Bool, true, false, ◌&&◌, ◌||◌, none, some, List, [], ◌∷◌, ◌==◌, ltb, leb, if◌then◌else◌,
  length, get_elem?, take, str_eq, Pubkey,
}
use rust_solana_cc_v.Trade.{TradeType, pumpfun, pump_swap, raydium_amm, raydium_cpmm}
use rust_solana_cc_v.Pumpfun.Curve.{from_le_bytes, slice}
use rust_solana_cc_v.Pumpfun.Buy.{buy_discriminator, buy_exact_sol_in_discriminator}
use rust_solana_cc_v.Stream.Types.{
  Chain, wsol_mint, pumpfun_sell_disc, cpmm_swap_base_input, cpmm_swap_base_output,
}

module _ {V : Type 0} (chain : Chain V) where
  open chain use {from_str, get_associated_token_address}

  -- Is the account a wallet's account for wrapped SOL?
  unfoldable pub is_wsol_ata_of : Pubkey → List Pubkey → Bool
  is_wsol_ata_of account [] = false
  is_wsol_ata_of account (w ∷ ws) =
      if account == get_associated_token_address w (from_str wsol_mint)
      then true
      else is_wsol_ata_of account ws

  unfoldable pub is_sol_input : List Pubkey → List ℕ → List Pubkey → ℕ → Bool
  unfolding is_wsol_ata_of
  is_sol_input target_wallets account_indices all_account_keys source_position =
      elim (get_elem? account_indices source_position) [
        | none ↦ true
        | some source_idx ↦ elim (get_elem? all_account_keys source_idx) [
          | none ↦ true
          | some source_account ↦ is_wsol_ata_of source_account target_wallets
        ]
      ]

  abbrev first_byte_is : ℕ → ℕ → List ℕ → Bool
  first_byte_is a b [] = false
  first_byte_is a b (x ∷ bytes) = (x == a) || (x == b)

  -- The direction by the kind of the trade, for data of at least 8 bytes.
  unfoldable pub direction : List Pubkey → List ℕ → TradeType → List ℕ → List Pubkey → Bool
  direction target_wallets bytes pumpfun account_indices all_account_keys =
      let disc = take 8 bytes in
      if str_eq disc buy_discriminator || str_eq disc buy_exact_sol_in_discriminator
      then true
      else (if str_eq disc pumpfun_sell_disc then false else true)
  direction target_wallets bytes pump_swap account_indices all_account_keys =
      let base_in = from_le_bytes (slice 8 8 bytes) in
      let quote_in = from_le_bytes (slice 16 8 bytes) in
      if leb 24 (length bytes)
      then (if ltb 0 quote_in && (base_in == 0)
          then true
          else (if ltb 0 base_in && (quote_in == 0) then false else true))
      else true
  direction target_wallets bytes raydium_amm account_indices all_account_keys =
      if first_byte_is 9 11 bytes
      then is_sol_input target_wallets account_indices all_account_keys 15
      else true
  direction target_wallets bytes raydium_cpmm account_indices all_account_keys =
      let disc = take 8 bytes in
      if str_eq disc cpmm_swap_base_input || str_eq disc cpmm_swap_base_output
      then is_sol_input target_wallets account_indices all_account_keys 4
      else true

  unfoldable pub detect_buy_or_sell : List Pubkey → List ℕ → TradeType → List ℕ → List Pubkey → Bool
  unfolding direction
  detect_buy_or_sell target_wallets bytes trade_type account_indices all_account_keys =
      if ltb (length bytes) 8
      then true
      else direction target_wallets bytes trade_type account_indices all_account_keys
