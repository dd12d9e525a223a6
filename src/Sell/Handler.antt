-- ===== src/Sell/Handler.antt =====
-- copy-trader-v1.6.63/src/tx/sell_executor.rs: the position after `handle_sell_signal`.
use rust_solana_cc_v.Prelude.{
  ℕ, ◌-◌, ◌≡◌, ◌≤◌, ◌<◌, true, false, some, arith, codes, if_cases, ◌&&◌, ◌==◌, List,
}
use rust_solana_cc_v.Groups.Group.{follow_sell_mode}
use rust_solana_cc_v.Position.State.{
  Position, PositionKey, selling, SellAccountSnapshot, mark_selling,
}
use rust_solana_cc_v.Manager.Persistence.{AddressText}
use rust_solana_cc_v.Manager.Store.{AutoSellManager, lookup}
use rust_solana_cc_v.Manager.Exit.{SellSignal}
use rust_solana_cc_v.Sell.Attempts.{
  Outside, Attempts, Effect, is_follow_sell, sell_attempts_from, max_sell_retries,
}
use rust_solana_cc_v.Sell.Executor.{
  resolve_sell_snapshot, balance_now, amount_to_sell, run_sale, sell_amount, handle_sell_signal,
}
use rust_solana_cc_v.Sell.States.{
  Holds, Sold, is_sellable, sell_position-marks, settle_success-Sold, settle_failure-Sold,
}

module _ {R : Type 0} where
  -- The outcome of the attempts of a sale.
  abbrev pub attempts_of : Outside → SellSignal R → Position R → SellAccountSnapshot → Attempts
  attempts_of o signal p snapshot =
      sell_attempts_from o (o.migrated snapshot.bonding_curve)
        (follow_sell_mode p.group && is_follow_sell signal.reason) (codes "sell retries exhausted")
        1 max_sell_retries

  abbrev pub Leaves : PositionKey → (Position R → Type 0) → AutoSellManager R × List Effect → Type 0
  Leaves k P r = Holds k P r.0

  pub amount_to_sell-le :
      (p : Position R) (balance : ℕ)
      → 0 < balance - amount_to_sell p balance
      → amount_to_sell p balance ≤ p.token_amount
  unfolding amount_to_sell
  amount_to_sell-le p balance h = ground arith

  module _ (t : AddressText) (o : Outside) (signal : SellSignal R) where
    run_sale-Sold :
        (p q : Position R) (snapshot : SellAccountSnapshot) (balance amount : ℕ)
        (m : AutoSellManager R)
        → lookup signal.position_key m ≡ some q
        → q.state ≡ selling
        → q.token_amount ≡ p.token_amount
        → 0 < amount
        → (0 < balance - amount → amount ≤ p.token_amount)
        → Holds signal.position_key
            (λ r. Sold p r amount (balance - amount) (attempts_of o signal p snapshot))
            (run_sale t o signal p snapshot balance amount m).0
    unfolding run_sale
    run_sale-Sold p q snapshot balance amount m e s a pos le =
        let outcome = attempts_of o signal p snapshot in
        if_cases (Leaves signal.position_key (λ r. Sold p r amount (balance - amount) outcome))
          outcome.success
          (λ ok.
            settle_success-Sold t signal p.token_mint amount (balance - amount) outcome m p q ok e s
              a pos le)
          (λ bad. settle_failure-Sold t signal amount (balance - amount) outcome m p q bad e a)

    module _ (m : AutoSellManager R) (p : Position R)
        (found : lookup signal.position_key m ≡ some p) where
      pub sell_amount-Sold :
          (snapshot : SellAccountSnapshot) (balance amount : ℕ)
          → is_sellable p.state ≡ true
          → 0 < amount
          → (0 < balance - amount → amount ≤ p.token_amount)
          → Leaves signal.position_key
              (λ r. Sold p r amount (balance - amount) (attempts_of o signal p snapshot))
              (sell_amount t o signal p snapshot balance amount m)
      unfolding sell_amount
      sell_amount-Sold snapshot balance amount s pos le =
          let (marked, there, selling_now, same) =
            sell_position-marks signal.position_key m p found s in
          rw (marked, sell_amount)
            (run_sale-Sold p (mark_selling p).0 snapshot balance amount _ there selling_now same pos
              le)

      -- A sale of a submitted, confirming or active position, with something to sell, closes it under the
      -- signature if a sale was confirmed and no balance is left; if some is left the position is
      -- active with so much less; and if no sale was confirmed it is in the state it was in, with its
      -- amount.
      pub handle_sell_signal-Sold :
          (snapshot : SellAccountSnapshot)
          → resolve_sell_snapshot o p ≡ some snapshot
          → is_sellable p.state ≡ true
          → 0 < amount_to_sell p (balance_now o p snapshot)
          → let balance = balance_now o p snapshot in
            let amount = amount_to_sell p balance in
            Leaves signal.position_key
              (λ r. Sold p r amount (balance - amount) (attempts_of o signal p snapshot))
              (handle_sell_signal t o signal m)
      unfolding handle_sell_signal
      handle_sell_signal-Sold snapshot res s pos =
          let balance = balance_now o p snapshot in
          let amount = amount_to_sell p balance in
          let some_amount : (amount == 0) ≡ false = ground arith in
          rw (found, handle_sell_signal, res, some_amount)
            (sell_amount-Sold snapshot balance amount s pos (amount_to_sell-le p balance))
