-- ===== src/Stream/Errors.antt =====
-- copy-trader-v1.6.63/src/grpc/subscriber.rs: how the parsing of a transaction ends.
use rust_solana_cc_v.Prelude.{
  ℕ, Bool, true, false, not, ◌≡◌, refl, Option, none, some, List, ◌≤◌, Str, Pubkey, arith, length,
  Option-cases, inl, inr,
}
use rust_solana_cc_v.Stream.Types.{StatusMeta, Message, Transaction, Chain, DetectedTrade}
use rust_solana_cc_v.Stream.Cpi.{
  Outcome, returned, missing_message, log_slices_fit, try_detect_cpi_pumpfun,
}
use rust_solana_cc_v.Stream.Parse.{
  account_keys_of, find_source, rounds, signature_text, parse_transaction,
}

abbrev pub is_returned : Outcome (Option DetectedTrade) → Bool
is_returned (returned r) = true
is_returned _ = false

abbrev pub is_missing : Outcome (Option DetectedTrade) → Bool
is_missing missing_message = true
is_missing _ = false

abbrev has_message : Option Message → Bool
has_message none = false
has_message (some message) = true

module _ {V : Type 0} (chain : Chain V) (long : (k : Pubkey) → 12 ≤ length (chain.to_text k)) where
  slices_fit :
      (wallet token_program : Pubkey) (signature : Str)
      → 8 ≤ length signature
      → log_slices_fit chain wallet token_program signature ≡ true
  unfolding log_slices_fit
  slices_fit wallet token_program signature h = ground (arith, long wallet, long token_program)

  try_detect_returns :
      (targets keys : List Pubkey) (signature : Str) (wallet : Pubkey) (meta : Option StatusMeta)
      (tx : Transaction) (t : ℕ)
      → 8 ≤ length signature
      → is_returned (try_detect_cpi_pumpfun chain targets keys signature wallet meta tx t) ≡ true
  unfolding try_detect_cpi_pumpfun
  try_detect_returns targets keys signature wallet meta tx t h = grind (arith, slices_fit)

  rounds_return :
      (targets keys : List Pubkey) (signature : Str) (wallet : Pubkey) (t : ℕ) (message : Message)
      (meta : Option StatusMeta) (tx : Transaction)
      → 8 ≤ length signature
      → is_returned (rounds chain targets keys signature wallet t message meta tx) ≡ true
  unfolding rounds
  rounds_return targets keys signature wallet t message none tx h =
      ground (arith, try_detect_returns targets keys signature wallet none tx t h)
  rounds_return targets keys signature wallet t message (some m) tx h = ground arith

  -- Where the texts of addresses have at least 12 characters and the signature's text at least 8,
  -- parsing ends with a value, a trade or none, exactly if there is a message, with the error exactly
  -- if there is none, and so never with a panic.
  pub parse_transaction_returns :
      (targets : List Pubkey) (signature : List ℕ) (tx : Transaction) (message : Option Message)
      (meta : Option StatusMeta) (t : ℕ)
      → 8 ≤ length (signature_text chain signature)
      → (is_returned (parse_transaction chain targets signature tx message meta t)
          ≡ has_message message)
        × (is_missing (parse_transaction chain targets signature tx message meta t)
            ≡ not (has_message message))
  unfolding parse_transaction
  parse_transaction_returns targets signature tx none meta t h = (refl, refl)
  parse_transaction_returns targets signature tx (some message) meta t h =
      let keys = account_keys_of message meta in
      elim (Option-cases (find_source targets keys)) [
        | inl n ↦ (ground arith, ground arith)
        | inr (w, n) ↦
            let returns =
              rounds_return targets keys (signature_text chain signature) w t message meta tx h in
            (ground (arith, returns), ground (arith, returns))
      ]
