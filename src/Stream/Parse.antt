-- ===== src/Stream/Parse.antt =====
-- copy-trader-v1.6.63/src/grpc/subscriber.rs: `parse_transaction`, which looks for the first trade on
-- Pump.fun of a transaction with a target wallet.
use rust_solana_cc_v.Prelude.{
  ℕ, Bool, true, false, Option, none, some, List, [], ◌∷◌, ◌++◌, ◌==◌, if◌then◌else◌, length,
  get_elem?, is_empty, Str, codes, Pubkey,
}
use rust_solana_cc_v.Groups.Manager.{member}
use rust_solana_cc_v.Pumpfun.Curve.{from_le_bytes}
use rust_solana_cc_v.Stream.Types.{
  DetectedTrade, CompiledInstruction, StatusMeta, Message, Transaction, Chain, pumpfun_program,
}
use rust_solana_cc_v.Stream.Lamports.{meta_failed, enrich_trade_from_meta}
use rust_solana_cc_v.Stream.Instructions.{or_empty, try_parse_instruction}
use rust_solana_cc_v.Stream.Cpi.{
  Outcome, returned, missing_message, serialize_transaction_from_proto, try_detect_cpi_pumpfun,
}

-- The keys of 32 bytes; another is left out.
unfoldable pub keys_of : List (List ℕ) → List Pubkey
keys_of [] = []
keys_of (k ∷ ks) = let rest = keys_of ks in if length k == 32 then from_le_bytes k ∷ rest else rest

unfoldable pub account_keys_of : Message → Option StatusMeta → List Pubkey
unfolding keys_of
account_keys_of message none = keys_of message.account_keys
account_keys_of message (some m) =
    keys_of message.account_keys
    ++ keys_of m.loaded_writable_addresses
    ++ keys_of m.loaded_readonly_addresses

-- The first key that is a target.
unfoldable pub find_source : List Pubkey → List Pubkey → Option Pubkey
find_source target_wallets [] = none
find_source target_wallets (k ∷ ks) =
    if member k target_wallets then some k else find_source target_wallets ks

module _ {V : Type 0} (chain : Chain V) where
  open chain use {from_str, encode, system_program}

  -- The signature's text.
  unfoldable pub signature_text : List ℕ → Str
  signature_text bytes = if is_empty bytes then codes "unknown" else encode bytes

  -- The first of the instructions that is a trade; an index out of range is passed over.
  unfoldable pub first_trade :
      List Pubkey → List Pubkey → Str → Pubkey → ℕ → List CompiledInstruction → Option DetectedTrade
  unfolding try_parse_instruction
  first_trade target_wallets keys signature wallet recv_time [] = none
  first_trade target_wallets keys signature wallet recv_time (ix ∷ ixs) =
      let later = first_trade target_wallets keys signature wallet recv_time ixs in
      elim (get_elem? keys ix.program_id_index) [
        | none ↦ later
        | some program_id ↦
            elim (try_parse_instruction chain target_wallets program_id ix.bytes ix.accounts keys
              signature wallet recv_time) [ none ↦ later | some trade ↦ some trade ]
      ]

  unfoldable pub first_inner_trade :
      List Pubkey
      → List Pubkey
      → Str
      → Pubkey
      → ℕ
      → List (List CompiledInstruction)
      → Option DetectedTrade
  unfolding first_trade
  first_inner_trade target_wallets keys signature wallet recv_time [] = none
  first_inner_trade target_wallets keys signature wallet recv_time (group ∷ groups) =
      let later = first_inner_trade target_wallets keys signature wallet recv_time groups in
      elim (first_trade target_wallets keys signature wallet recv_time group) [
        | none ↦ later
        | some trade ↦ some trade
      ]

  -- What both rounds of instructions fill in.
  unfoldable pub complete_trade :
      DetectedTrade → Bool → Message → Option StatusMeta → Transaction → List Pubkey → DetectedTrade
  unfolding enrich_trade_from_meta
  complete_trade trade pre_execution message meta tx keys =
      enrich_trade_from_meta system_program
        (record trade {
          raw_transaction_bytes = or_empty (serialize_transaction_from_proto chain tx);
          is_pre_execution = pre_execution;
          execution_failed = meta_failed meta;
        })
        message meta keys

  -- The rounds for a wallet: the instructions; the keys, where there is no meta; the inner instructions.
  unfoldable pub rounds :
      List Pubkey
      → List Pubkey
      → Str
      → Pubkey
      → ℕ
      → Message
      → Option StatusMeta
      → Transaction
      → Outcome (Option DetectedTrade)
  unfolding first_trade first_inner_trade complete_trade
  rounds target_wallets keys signature wallet recv_time message none tx =
      elim (first_trade target_wallets keys signature wallet recv_time message.instructions) [
        | some trade ↦ returned (some (complete_trade trade true message none tx keys))
        | none ↦
            if member (from_str pumpfun_program) keys
            then try_detect_cpi_pumpfun chain target_wallets keys signature wallet none tx recv_time
            else returned none
      ]
  rounds target_wallets keys signature wallet recv_time message (some m) tx =
      elim (first_trade target_wallets keys signature wallet recv_time message.instructions) [
        | some trade ↦ returned (some (complete_trade trade false message (some m) tx keys))
        | none ↦
            elim (first_inner_trade target_wallets keys signature wallet recv_time
              m.inner_instructions) [
                | some trade ↦ returned (some (complete_trade trade false message (some m) tx keys))
                | none ↦ returned none
              ]
      ]

  unfoldable pub parse_transaction :
      List Pubkey
      → List ℕ
      → Transaction
      → Option Message
      → Option StatusMeta
      → ℕ
      → Outcome (Option DetectedTrade)
  unfolding account_keys_of find_source rounds
  parse_transaction target_wallets signature tx none meta recv_time = missing_message
  parse_transaction target_wallets signature tx (some message) meta recv_time =
      let keys = account_keys_of message meta in
      elim (find_source target_wallets keys) [
        | none ↦ returned none
        | some wallet ↦
            rounds target_wallets keys (signature_text signature) wallet recv_time message meta tx
      ]
