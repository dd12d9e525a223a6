-- ===== src/Stream/Amounts.antt =====
-- copy-trader-v1.6.63/src/grpc/subscriber.rs: the amounts of detected trades, against the parser of
-- processor/pumpfun.rs and against the exact sum of the transfers.
use rust_solana_cc_v.Prelude.{
  ℕ, ◌+◌, ◌-◌, ◌∙◌, if◌then◌else◌, min, true, ◌≡◌, ◌<◌, none, some, List, [], ◌∷◌, Pubkey, arith,
  get_elem?, ltb, leb,
}
use rust_solana_cc_v.Trade.{pumpfun}
use rust_solana_cc_v.Pumpfun.Curve.{u64_mod}
use rust_solana_cc_v.Pumpfun.Buy.{
  ok, TargetBuyInstruction, buy, buy_exact_sol_in, parse_target_buy_instruction,
}
use rust_solana_cc_v.Stream.Types.{CompiledInstruction, StatusMeta, Message, Chain}
use rust_solana_cc_v.Stream.Direction.{direction, detect_buy_or_sell}
use rust_solana_cc_v.Stream.Transfers.{TakesAll, GroupsTake, extract-Takes}
use rust_solana_cc_v.Stream.Lamports.{
  extract_buy_lamports, add_transfers, add_inner_transfers, position_of, balance_fall,
  derive_buy_lamports_from_meta,
}

-- The lamports that a parsed instruction names.
abbrev pub lamports_of : TargetBuyInstruction → ℕ
lamports_of (buy tokens max_sol) = max_sol
lamports_of (buy_exact_sol_in n) = n

-- An instruction that the processor parses as a buy is detected as a buy, of the lamports that the
-- processor reads, which are positive.
pub extract_buy_lamports-parsed :
    {V : Type 0} (chain : Chain V) (targets : List Pubkey) (bytes accounts : List ℕ)
    (keys : List Pubkey) (target : TargetBuyInstruction)
    → parse_target_buy_instruction bytes ≡ ok target
    → (detect_buy_or_sell chain targets bytes pumpfun accounts keys ≡ true)
      × (extract_buy_lamports pumpfun bytes ≡ lamports_of target)
      × (0 < lamports_of target)
unfolding parse_target_buy_instruction detect_buy_or_sell direction extract_buy_lamports
extract_buy_lamports-parsed chain targets bytes accounts keys target h =
    (ground arith, ground arith, ground arith)

unfoldable pub sum : List ℕ → ℕ
sum [] = 0
sum (n ∷ ns) = n + sum ns

unfoldable pub sum_groups : List (List ℕ) → ℕ
unfolding sum
sum_groups [] = 0
sum_groups (ns ∷ nss) = sum ns + sum_groups nss

module _ (system_program : Pubkey) (keys : List Pubkey) (wallet : Pubkey) where
  add_transfers-sum :
      (ixs : List CompiledInstruction) (ns : List ℕ) (total : ℕ)
      → TakesAll system_program keys wallet ixs ns
      → total < u64_mod
      → add_transfers system_program ixs keys wallet total ≡ min (total + sum ns) (u64_mod - 1)
  unfolding add_transfers sum TakesAll
  add_transfers-sum [] [] total t h = omega arith
  add_transfers-sum [] (n ∷ ns) total t h = absurd t
  add_transfers-sum (ix ∷ ixs) [] total t h = absurd t
  add_transfers-sum (ix ∷ ixs) (n ∷ ns) total t h =
      let read = extract-Takes system_program keys wallet ix n t.0 in
      let ih = add_transfers-sum ixs ns (min (total + n) (u64_mod - 1)) t.1 (omega arith) in
      rw read (ih ∙ omega arith)

  add_inner_transfers-sum :
      (groups : List (List CompiledInstruction)) (nss : List (List ℕ)) (total : ℕ)
      → GroupsTake system_program keys wallet groups nss
      → total < u64_mod
      → add_inner_transfers system_program groups keys wallet total
        ≡ min (total + sum_groups nss) (u64_mod - 1)
  unfolding add_inner_transfers sum_groups GroupsTake
  add_inner_transfers-sum [] [] total t h = omega arith
  add_inner_transfers-sum [] (ns ∷ nss) total t h = absurd t
  add_inner_transfers-sum (group ∷ groups) [] total t h = absurd t
  add_inner_transfers-sum (group ∷ groups) (ns ∷ nss) total t h =
      let first = add_transfers-sum group ns total t.0 h in
      let after = add_transfers system_program group keys wallet total in
      let ih = add_inner_transfers-sum groups nss after t.1 (omega (arith, first)) in
      ih ∙ omega (arith, first)

  total-min :
      (meta : StatusMeta) (message : Message) (ns : List ℕ) (nss : List (List ℕ))
      → TakesAll system_program keys wallet message.instructions ns
      → GroupsTake system_program keys wallet meta.inner_instructions nss
      → add_inner_transfers system_program meta.inner_instructions keys wallet
          (add_transfers system_program message.instructions keys wallet 0)
        ≡ min (sum ns + sum_groups nss) (u64_mod - 1)
  total-min meta message ns nss outer inner =
      let first = add_transfers-sum message.instructions ns 0 outer (omega arith) in
      let after = add_transfers system_program message.instructions keys wallet 0 in
      add_inner_transfers-sum meta.inner_instructions nss after inner (omega (arith, first))
      ∙ omega (arith, first)

  -- Where each instruction of the message and each inner one takes an amount from the wallet, by the
  -- layout of transfers of the system program, and the wallet has a balance before and one after the
  -- transaction, the lamports that are derived are the sum of the amounts, cut to the last `u64`, if that
  -- sum is positive. Else they are what the balance fell by less the fee, or 0 where the fee is more, if
  -- the balance fell, and none if it did not fall.
  pub derive_buy_lamports-exact :
      (meta : StatusMeta) (message : Message) (ns : List ℕ) (nss : List (List ℕ))
      (i before after : ℕ)
      → TakesAll system_program keys wallet message.instructions ns
      → GroupsTake system_program keys wallet meta.inner_instructions nss
      → position_of wallet keys ≡ some i
      → get_elem? meta.pre_balances i ≡ some before
      → get_elem? meta.post_balances i ≡ some after
      → derive_buy_lamports_from_meta system_program meta message keys wallet ≡ (
          if ltb 0 (sum ns + sum_groups nss)
          then some (min (sum ns + sum_groups nss) (u64_mod - 1))
          else (if leb before after then none else some (before - (after + meta.fee))))
  unfolding derive_buy_lamports_from_meta balance_fall
  derive_buy_lamports-exact meta message ns nss i before after outer inner place pre post =
      ground (arith, total-min meta message ns nss outer inner, place, pre, post)
