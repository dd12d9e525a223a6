-- ===== src/Stream/Lamports.antt =====
-- copy-trader-v1.6.63/src/grpc/subscriber.rs: the lamports that a buy spends, from the instruction, or
-- from the transfers and balances of the executed transaction.
use rust_solana_cc_v.Prelude.{
  ℕ, ◌+◌, ◌-◌, min, Bool, true, false, not, ◌||◌, Option, none, some, List, [], ◌∷◌, ◌==◌, ltb,
  if◌then◌else◌, length, get_elem?, take, str_eq, Pubkey, suc,
}
use rust_solana_cc_v.Trade.{TradeType, pumpfun, pump_swap, raydium_amm, raydium_cpmm}
use rust_solana_cc_v.Pumpfun.Curve.{from_le_bytes, slice, u64_mod}
use rust_solana_cc_v.Pumpfun.Buy.{buy_discriminator, buy_exact_sol_in_discriminator}
use rust_solana_cc_v.Stream.Types.{DetectedTrade, CompiledInstruction, StatusMeta, Message}

unfoldable pub extract_buy_lamports : TradeType → List ℕ → ℕ
extract_buy_lamports trade_type bytes =
    if ltb (length bytes) 24 then 0 else amount_of trade_type bytes
  where
    amount_of : TradeType → List ℕ → ℕ
    amount_of pumpfun bytes =
        if str_eq (take 8 bytes) buy_discriminator
        then from_le_bytes (slice 16 8 bytes)
        else (if str_eq (take 8 bytes) buy_exact_sol_in_discriminator
            then from_le_bytes (slice 8 8 bytes)
            else 0)
    amount_of pump_swap bytes = from_le_bytes (slice 16 8 bytes)
    amount_of raydium_amm bytes = 0
    amount_of raydium_cpmm bytes = 0

unfoldable pub meta_failed : Option StatusMeta → Bool
meta_failed none = false
meta_failed (some status) = elim status.err [ none ↦ false | some e ↦ true ]

-- `u64::saturating_add`
abbrev pub saturating_add : ℕ → ℕ → ℕ
saturating_add a b = min (a + b) (u64_mod - 1)

-- `account_indices[0]`, where it is an index of the wallet.
abbrev pub pays_first : List ℕ → List Pubkey → Pubkey → Bool
pays_first [] keys wallet = false
pays_first (source_index ∷ rest) keys wallet = elim (get_elem? keys source_index) [
  | none ↦ false
  | some k ↦ k == wallet
]

abbrev pub key_is : Option Pubkey → Pubkey → Bool
key_is none k = false
key_is (some p) k = p == k

unfoldable pub position_of : Pubkey → List Pubkey → Option ℕ
position_of w [] = none
position_of w (k ∷ ks) =
    let rest = position_of w ks in
    if k == w then some 0 else elim rest [ none ↦ none | some i ↦ some (suc i) ]

module _ (system_program : Pubkey) where
  unfoldable pub extract_system_transfer_lamports : CompiledInstruction → List Pubkey → Pubkey → ℕ
  extract_system_transfer_lamports ix all_account_keys source_wallet =
      if not (key_is (get_elem? all_account_keys ix.program_id_index) system_program)
        || ltb (length ix.bytes) 12
      then 0
      else (if not (pays_first ix.accounts all_account_keys source_wallet)
          then 0
          else (if not (from_le_bytes (take 4 ix.bytes) == 2)
              then 0
              else from_le_bytes (slice 4 8 ix.bytes)))

  -- `transfer_total` after the instructions.
  unfoldable pub add_transfers : List CompiledInstruction → List Pubkey → Pubkey → ℕ → ℕ
  add_transfers [] keys wallet total = total
  add_transfers (ix ∷ ixs) keys wallet total =
      add_transfers ixs keys wallet
        (saturating_add total (extract_system_transfer_lamports ix keys wallet))

  unfoldable pub add_inner_transfers :
      List (List CompiledInstruction) → List Pubkey → Pubkey → ℕ → ℕ
  add_inner_transfers [] keys wallet total = total
  add_inner_transfers (group ∷ groups) keys wallet total =
      add_inner_transfers groups keys wallet (add_transfers group keys wallet total)

  -- The fall of the wallet's balance, less the fee; `saturating_sub` is `-`.
  unfoldable pub balance_fall : StatusMeta → List Pubkey → Pubkey → Option ℕ
  balance_fall meta keys wallet = elim (position_of wallet keys) [
    | none ↦ none
    | some i ↦ elim (get_elem? meta.pre_balances i) [
      | none ↦ none
      | some before ↦ elim (get_elem? meta.post_balances i) [
        | none ↦ none
        | some after ↦ if before - after == 0 then none else some (before - after - meta.fee)
      ]
    ]
  ]

  unfoldable pub derive_buy_lamports_from_meta :
      StatusMeta → Message → List Pubkey → Pubkey → Option ℕ
  unfolding add_transfers add_inner_transfers balance_fall
  derive_buy_lamports_from_meta meta message keys wallet =
      let transfer_total =
        add_inner_transfers meta.inner_instructions keys wallet
          (add_transfers message.instructions keys wallet 0) in
      if ltb 0 transfer_total then some transfer_total else balance_fall meta keys wallet

  unfoldable pub enrich_trade_from_meta :
      DetectedTrade → Message → Option StatusMeta → List Pubkey → DetectedTrade
  enrich_trade_from_meta trade message none keys = trade
  enrich_trade_from_meta trade message (some meta) keys =
      if not trade.is_buy || ltb 0 trade.sol_amount_lamports
      then trade
      else elim (derive_buy_lamports_from_meta meta message keys trade.source_wallet) [
        | none ↦ trade
        | some lamports ↦ record trade { sol_amount_lamports = lamports }
      ]
