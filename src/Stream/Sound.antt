-- ===== src/Stream/Sound.antt =====
-- copy-trader-v1.6.63/src/grpc/subscriber.rs: what a detected trade says of its transaction.
use rust_solana_cc_v.Prelude.{
  ℕ, true, false, ◌≡◌, Option, none, some, List, [], ◌∷◌, Str, Pubkey, arith, Option-cases, inl,
  inr, sym,
}
use mathlib.Core.Path.{subst}
use rust_solana_cc_v.Groups.Manager.{member}
use rust_solana_cc_v.Stream.Types.{
  DetectedTrade, StatusMeta, Message, Transaction, Chain, token_program_text, token_2022_program,
}
use rust_solana_cc_v.Stream.Instructions.{detect_pumpfun_token_program}
use rust_solana_cc_v.Stream.Cpi.{
  returned, find_mint, bonding_curve_of, cpi_trade, try_detect_cpi_pumpfun,
}
use rust_solana_cc_v.Stream.Parse.{
  account_keys_of, find_source, first_trade, first_inner_trade, complete_trade, rounds,
  signature_text, parse_transaction,
}
use rust_solana_cc_v.Stream.Describes.{
  Describes, first_trade-Found, first_inner_trade-Found, complete_trade-Describes,
  cpi_trade-Describes,
}

find_source-member :
    (targets keys : List Pubkey) (w : Pubkey)
    → find_source targets keys ≡ some w
    → (member w targets ≡ true) × (member w keys ≡ true)
unfolding find_source
find_source-member targets [] w h = cc
find_source-member targets (k ∷ ks) w h = ground (arith, find_source-member targets ks w)

module _ {V : Type 0} (chain : Chain V) where
  rounds-Describes :
      (targets keys : List Pubkey) (signature : Str) (wallet : Pubkey) (t : ℕ) (message : Message)
      (meta : Option StatusMeta) (tx : Transaction) (trade : DetectedTrade)
      → rounds chain targets keys signature wallet t message meta tx ≡ returned (some trade)
      → Describes chain keys wallet t meta tx trade
  unfolding rounds try_detect_cpi_pumpfun
  rounds-Describes targets keys signature wallet t message none tx trade h =
      elim (Option-cases (first_trade chain targets keys signature wallet t message.instructions)) [
        | inr (found, e) ↦
            let completed = complete_trade chain found true message none tx keys in
            let same : completed ≡ trade = ground arith in
            subst (Describes chain keys wallet t none tx) same (
              complete_trade-Describes chain keys wallet t found message none tx (
                first_trade-Found chain targets keys signature wallet t message.instructions found
                  e))
        | inl e ↦ elim (Option-cases (find_mint chain targets keys keys)) [
          | inl none_found ↦ absurd (ground arith)
          | inr (mint, found) ↦
              let token_program =
                detect_pumpfun_token_program chain keys mint (bonding_curve_of chain mint)
                  (chain.from_str token_program_text) (chain.from_str token_2022_program) in
              let detected = cpi_trade chain keys signature wallet none tx t mint token_program in
              let same : detected ≡ trade = ground arith in
              subst (Describes chain keys wallet t none tx) same
                (cpi_trade-Describes chain keys signature wallet tx t mint token_program)
        ]
      ]
  rounds-Describes targets keys signature wallet t message (some m) tx trade h =
      elim (Option-cases (first_trade chain targets keys signature wallet t message.instructions)) [
        | inr (found, e) ↦
            let completed = complete_trade chain found false message (some m) tx keys in
            let same : completed ≡ trade = ground arith in
            subst (Describes chain keys wallet t (some m) tx) same (
              complete_trade-Describes chain keys wallet t found message (some m) tx (
                first_trade-Found chain targets keys signature wallet t message.instructions found
                  e))
        | inl e ↦
            elim (Option-cases
              (first_inner_trade chain targets keys signature wallet t m.inner_instructions)) [
                | inl none_found ↦ absurd (ground arith)
                | inr (found, inner) ↦
                    let completed = complete_trade chain found false message (some m) tx keys in
                    let same : completed ≡ trade = ground arith in
                    subst (Describes chain keys wallet t (some m) tx) same (
                      complete_trade-Describes chain keys wallet t found message (some m) tx (
                        first_inner_trade-Found chain targets keys signature wallet t
                          m.inner_instructions found inner))
              ]
      ]

  -- A detected trade is of a wallet that is a target and a key of the transaction. Its keys, kind, time
  -- and bytes are the transaction's; its program is Pump.fun; it is a trade before execution exactly if
  -- there is no meta, and failed exactly if the meta has an error; and a sale has no lamports.
  pub parse_transaction_sound :
      (targets : List Pubkey) (signature : List ℕ) (tx : Transaction) (message : Message)
      (meta : Option StatusMeta) (t : ℕ) (trade : DetectedTrade)
      → parse_transaction chain targets signature tx (some message) meta t ≡ returned (some trade)
      → (member trade.source_wallet targets ≡ true)
        × (member trade.source_wallet (account_keys_of message meta) ≡ true)
        × Describes chain (account_keys_of message meta) trade.source_wallet t meta tx trade
  unfolding parse_transaction
  parse_transaction_sound targets signature tx message meta t trade h =
      let keys = account_keys_of message meta in
      elim (Option-cases (find_source targets keys)) [
        | inl e ↦ absurd (ground arith)
        | inr (w, e) ↦
            let found = find_source-member targets keys w e in
            let d =
              rounds-Describes targets keys (signature_text chain signature) w t message meta tx
                trade (ground arith) in
            let same : w ≡ trade.source_wallet = sym d.wallet_is in
            subst
              (λ x.
                (member x targets ≡ true)
                × (member x keys ≡ true)
                × Describes chain keys x t meta tx trade)
              same (found.0, found.1, d)
      ]
