-- ===== src/Stream/Describes.antt =====
-- copy-trader-v1.6.63/src/grpc/subscriber.rs: what a detected trade says of its transaction, by where it was found.
use rust_solana_cc_v.Prelude.{
  ℕ, Bool, true, false, ◌≡◌, ◌⊎◌, refl, Option, none, some, List, [], ◌∷◌, get_elem?, Str, Pubkey,
  arith, Option-cases, Bool-cases, inl, inr, if_cases, not, ltb, ◌||◌, str_eq, str_eq_iff,
}
use mathlib.Core.Path.{subst}
use rust_solana_cc_v.Trade.{pumpfun}
use rust_solana_cc_v.Stream.Types.{
  DetectedTrade, CompiledInstruction, StatusMeta, Message, Transaction, Chain, pumpfun_program,
}
use rust_solana_cc_v.Stream.Direction.{detect_buy_or_sell}
use rust_solana_cc_v.Stream.Lamports.{
  meta_failed, enrich_trade_from_meta, derive_buy_lamports_from_meta,
}
use rust_solana_cc_v.Stream.Instructions.{or_empty, trade_of_instruction, try_parse_instruction}
use rust_solana_cc_v.Stream.Cpi.{serialize_transaction_from_proto, cpi_trade}
use rust_solana_cc_v.Stream.Parse.{first_trade, first_inner_trade, complete_trade}

abbrev pub has_no_meta : Option StatusMeta → Bool
has_no_meta none = true
has_no_meta (some m) = false

-- What a trade says of a transaction with the keys, found for the wallet.
pub record Describes {V : Type 0} (chain : Chain V) (keys : List Pubkey) (wallet : Pubkey) (t : ℕ)
    (meta : Option StatusMeta) (tx : Transaction) (trade : DetectedTrade) : Type 0 where
  pub wallet_is : trade.source_wallet ≡ wallet
  pub keys_are : trade.all_account_keys ≡ keys
  pub kind_is : trade.trade_type ≡ pumpfun
  pub program_is :
      (chain.to_text trade.program_id ≡ pumpfun_program)
      ⊎ (trade.program_id ≡ chain.from_str pumpfun_program)
  pub time_is : trade.detected_at ≡ t
  pub wire_is : trade.raw_transaction_bytes ≡ or_empty (serialize_transaction_from_proto chain tx)
  pub pre_is : trade.is_pre_execution ≡ has_no_meta meta
  pub failed_is : trade.execution_failed ≡ meta_failed meta
  pub sale_without_lamports : (trade.is_buy ≡ true) ⊎ (trade.sol_amount_lamports ≡ 0)

module _ {V : Type 0} (chain : Chain V) where
  open chain use {system_program}

  -- A trade as an instruction gives it, before it is completed.
  pub record Found (keys : List Pubkey) (wallet : Pubkey) (t : ℕ) (trade : DetectedTrade)
      : Type 0 where
    pub wallet_is : trade.source_wallet ≡ wallet
    pub keys_are : trade.all_account_keys ≡ keys
    pub kind_is : trade.trade_type ≡ pumpfun
    pub program_is : chain.to_text trade.program_id ≡ pumpfun_program
    pub time_is : trade.detected_at ≡ t
    pub sale_without_lamports : (trade.is_buy ≡ true) ⊎ (trade.sol_amount_lamports ≡ 0)

  trade_of_instruction-Found :
      (targets : List Pubkey) (p : Pubkey) (bytes accounts : List ℕ) (keys : List Pubkey)
      (signature : Str) (wallet : Pubkey) (t : ℕ)
      → chain.to_text p ≡ pumpfun_program
      → Found keys wallet t
          (trade_of_instruction chain targets p bytes accounts keys signature wallet t)
  unfolding trade_of_instruction
  trade_of_instruction-Found targets p bytes accounts keys signature wallet t is =
      let is_buy = detect_buy_or_sell chain targets bytes pumpfun accounts keys in
      record {
        wallet_is = refl;
        keys_are = refl;
        kind_is = refl;
        program_is = is;
        time_is = refl;
        sale_without_lamports =
            if_cases (λ n. (is_buy ≡ true) ⊎ (n ≡ 0)) is_buy (λ buys. inl buys) (λ sells. inr refl);
      }

  pub first_trade-Found :
      (targets keys : List Pubkey) (signature : Str) (wallet : Pubkey) (t : ℕ)
      (ixs : List CompiledInstruction) (trade : DetectedTrade)
      → first_trade chain targets keys signature wallet t ixs ≡ some trade
      → Found keys wallet t trade
  unfolding first_trade try_parse_instruction
  first_trade-Found targets keys signature wallet t [] trade h = cc
  first_trade-Found targets keys signature wallet t (ix ∷ ixs) trade h =
      let later = first_trade-Found targets keys signature wallet t ixs trade in
      elim (Option-cases (get_elem? keys ix.program_id_index)) [
        | inl e ↦ later (ground arith)
        | inr (p, e) ↦ elim (Bool-cases (str_eq (chain.to_text p) pumpfun_program)) [
          | inr other ↦ later (ground arith)
          | inl is ↦
              let found =
                trade_of_instruction chain targets p ix.bytes ix.accounts keys signature wallet t in
              let same : found ≡ trade = ground arith in
              subst (Found keys wallet t) same (
                trade_of_instruction-Found targets p ix.bytes ix.accounts keys signature wallet t
                  ((str_eq_iff _ _).0 is))
        ]
      ]

  pub first_inner_trade-Found :
      (targets keys : List Pubkey) (signature : Str) (wallet : Pubkey) (t : ℕ)
      (groups : List (List CompiledInstruction)) (trade : DetectedTrade)
      → first_inner_trade chain targets keys signature wallet t groups ≡ some trade
      → Found keys wallet t trade
  unfolding first_inner_trade
  first_inner_trade-Found targets keys signature wallet t [] trade h = cc
  first_inner_trade-Found targets keys signature wallet t (group ∷ groups) trade h =
      elim (Option-cases (first_trade chain targets keys signature wallet t group)) [
        | inl e ↦
            first_inner_trade-Found targets keys signature wallet t groups trade (ground arith)
        | inr (found, e) ↦
            first_trade-Found targets keys signature wallet t group trade (ground arith)
      ]

  -- Amounts that are added to a buy change nothing else.
  enrich-Describes :
      (keys : List Pubkey) (wallet : Pubkey) (t : ℕ) (trade : DetectedTrade) (message : Message)
      (meta : Option StatusMeta) (tx : Transaction)
      → Describes chain keys wallet t meta tx trade
      → Describes chain keys wallet t meta tx
          (enrich_trade_from_meta system_program trade message meta keys)
  unfolding enrich_trade_from_meta
  enrich-Describes keys wallet t trade message none tx d = d
  enrich-Describes keys wallet t trade message (some m) tx d =
      let P = Describes chain keys wallet t (some m) tx in
      if_cases P (not trade.is_buy || ltb 0 trade.sol_amount_lamports) (λ _. d)
        (λ buys.
          elim (derive_buy_lamports_from_meta system_program m message keys trade.source_wallet)
            as (λ o. P (elim o [
              | none ↦ trade
              | some lamports ↦ record trade { sol_amount_lamports = lamports }
            ])) [
              | none ↦ d
              | some lamports ↦ record {
                wallet_is = d.wallet_is;
                keys_are = d.keys_are;
                kind_is = d.kind_is;
                program_is = d.program_is;
                time_is = d.time_is;
                wire_is = d.wire_is;
                pre_is = d.pre_is;
                failed_is = d.failed_is;
                sale_without_lamports = inl (ground arith);
              }
            ])

  pub complete_trade-Describes :
      (keys : List Pubkey) (wallet : Pubkey) (t : ℕ) (trade : DetectedTrade) (message : Message)
      (meta : Option StatusMeta) (tx : Transaction)
      → Found keys wallet t trade
      → Describes chain keys wallet t meta tx
          (complete_trade chain trade (has_no_meta meta) message meta tx keys)
  unfolding complete_trade
  complete_trade-Describes keys wallet t trade message meta tx f =
      let completed : DetectedTrade = record trade {
        raw_transaction_bytes = or_empty (serialize_transaction_from_proto chain tx);
        is_pre_execution = has_no_meta meta;
        execution_failed = meta_failed meta;
      } in
      enrich-Describes keys wallet t completed message meta tx (record {
        wallet_is = f.wallet_is;
        keys_are = f.keys_are;
        kind_is = f.kind_is;
        program_is = inl f.program_is;
        time_is = f.time_is;
        wire_is = refl;
        pre_is = refl;
        failed_is = refl;
        sale_without_lamports = f.sale_without_lamports;
      })

  pub cpi_trade-Describes :
      (keys : List Pubkey) (signature : Str) (wallet : Pubkey) (tx : Transaction) (t : ℕ)
      (mint token_program : Pubkey)
      → Describes chain keys wallet t none tx
          (cpi_trade chain keys signature wallet none tx t mint token_program)
  unfolding cpi_trade
  cpi_trade-Describes keys signature wallet tx t mint token_program = record {
    wallet_is = refl;
    keys_are = refl;
    kind_is = refl;
    program_is = inr refl;
    time_is = refl;
    wire_is = refl;
    pre_is = refl;
    failed_is = refl;
    sale_without_lamports = inr refl;
  }
