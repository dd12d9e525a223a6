-- ===== src/Stream/Found.antt =====
-- copy-trader-v1.6.63/src/grpc/subscriber.rs: which transactions hold a trade.
use rust_solana_cc_v.Prelude.{
  ℕ, Bool, true, false, ◌&&◌, ◌||◌, ◌≡◌, refl, Option, none, some, List, [], ◌∷◌, get_elem?, str_eq,
  Str, Pubkey, arith, Option-cases, inl, inr,
}
use rust_solana_cc_v.Groups.Manager.{member}
use rust_solana_cc_v.Stream.Types.{
  DetectedTrade, CompiledInstruction, StatusMeta, Message, Transaction, Chain, pumpfun_program,
}
use rust_solana_cc_v.Stream.Instructions.{try_parse_instruction}
use rust_solana_cc_v.Stream.Cpi.{Outcome, returned}
use rust_solana_cc_v.Stream.Parse.{
  account_keys_of, find_source, first_trade, first_inner_trade, rounds, signature_text,
  parse_transaction,
}

-- Does a test hold of some element?
abbrev pub any {ℓ} : {A : Type ℓ} → (A → Bool) → List A → Bool
any p [] = false
any p (x ∷ xs) = p x || any p xs

abbrev pub is_trade : Outcome (Option DetectedTrade) → Bool
is_trade (returned (some trade)) = true
is_trade _ = false

abbrev is_there {ℓ} : {A : Type ℓ} → Option A → Bool
is_there none = false
is_there (some x) = true

find_source-any :
    (targets keys : List Pubkey)
    → is_there (find_source targets keys) ≡ any (λ k. member k targets) keys
unfolding find_source
find_source-any targets [] = refl
find_source-any targets (k ∷ ks) = ground (arith, find_source-any targets ks)

module _ {V : Type 0} (chain : Chain V) where
  open chain use {to_text}

  -- Is the instruction one of a program whose text is Pump.fun's?
  abbrev pub calls_pumpfun : List Pubkey → CompiledInstruction → Bool
  calls_pumpfun keys ix = elim (get_elem? keys ix.program_id_index) [
    | none ↦ false
    | some p ↦ str_eq (to_text p) pumpfun_program
  ]

  first_trade-any :
      (targets keys : List Pubkey) (signature : Str) (wallet : Pubkey) (t : ℕ)
      (ixs : List CompiledInstruction)
      → is_there (first_trade chain targets keys signature wallet t ixs)
        ≡ any (calls_pumpfun keys) ixs
  unfolding first_trade try_parse_instruction
  first_trade-any targets keys signature wallet t [] = refl
  first_trade-any targets keys signature wallet t (ix ∷ ixs) =
      ground (arith, first_trade-any targets keys signature wallet t ixs)

  first_inner_trade-any :
      (targets keys : List Pubkey) (signature : Str) (wallet : Pubkey) (t : ℕ)
      (groups : List (List CompiledInstruction))
      → is_there (first_inner_trade chain targets keys signature wallet t groups)
        ≡ any (any (calls_pumpfun keys)) groups
  unfolding first_inner_trade
  first_inner_trade-any targets keys signature wallet t [] = refl
  first_inner_trade-any targets keys signature wallet t (group ∷ groups) = ground (
    arith,
    first_inner_trade-any targets keys signature wallet t groups,
    first_trade-any targets keys signature wallet t group,
  )

  rounds-any :
      (targets keys : List Pubkey) (signature : Str) (wallet : Pubkey) (tx : Transaction)
      (message : Message) (m : StatusMeta) (t : ℕ)
      → is_trade (rounds chain targets keys signature wallet t message (some m) tx) ≡ (
          any (calls_pumpfun keys) message.instructions
          || any (any (calls_pumpfun keys)) m.inner_instructions)
  unfolding rounds
  rounds-any targets keys signature wallet tx message m t = ground (
    arith,
    first_trade-any targets keys signature wallet t message.instructions,
    first_inner_trade-any targets keys signature wallet t m.inner_instructions,
  )

  -- Of an executed transaction a trade is found exactly if a key of it is a target and an instruction of
  -- it, or an inner one, is one of Pump.fun, by the texts of the programs.
  pub parse_transaction-executed :
      (targets : List Pubkey) (signature : List ℕ) (tx : Transaction) (message : Message)
      (m : StatusMeta) (t : ℕ)
      → is_trade (parse_transaction chain targets signature tx (some message) (some m) t) ≡ (
          let keys = account_keys_of message (some m) in
          any (λ k. member k targets) keys
          && (any (calls_pumpfun keys) message.instructions
              || any (any (calls_pumpfun keys)) m.inner_instructions))
  unfolding parse_transaction
  parse_transaction-executed targets signature tx message m t =
      let keys = account_keys_of message (some m) in
      let rounds_any = λ (wallet : Pubkey).
        rounds-any targets keys (signature_text chain signature) wallet tx message m t in
      elim (Option-cases (find_source targets keys)) [
        | inl e ↦ ground (arith, find_source-any targets keys)
        | inr (w, e) ↦ ground (arith, find_source-any targets keys, rounds_any w)
      ]
