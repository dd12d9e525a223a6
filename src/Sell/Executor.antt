-- ===== src/Sell/Executor.antt =====
-- copy-trader-v1.6.63/src/tx/sell_executor.rs: the handlers of a sell signal and of a manual sale of a
-- part. What the outside answers is a parameter.
use rust_solana_cc_v.Prelude.{
  ℕ, ◌-◌, min, Bool, false, not, ◌&&◌, ◌||◌, Option, none, some, List, [], ◌∷◌, ◌++◌, ltb, leb,
  ◌==◌, if◌then◌else◌, Str, codes, Pubkey,
}
use rust_solana_cc_v.Float.{F64}
use rust_solana_cc_v.Groups.Group.{follow_sell_mode}
use rust_solana_cc_v.Position.State.{
  Position, PositionKey, PositionState, manual, SellAccountSnapshot, max_sell_attempts_reached,
}
use rust_solana_cc_v.Position.Prices.{pnl_percent}
use rust_solana_cc_v.Manager.Persistence.{AddressText}
use rust_solana_cc_v.Manager.Store.{
  AutoSellManager, lookup, close_position, restore_position, suspend_auto_sell, sell_part,
  confirm_failed, skip_zero_balance, sell_position, open_position_count_for_mint,
}
use rust_solana_cc_v.Manager.Exit.{SellSignal, max_auto_sell_signal_attempts}
use rust_solana_cc_v.Sell.Attempts.{
  max_sell_retries, max_zero_balance_skips, Outside, Attempts, sell_attempts_from, Effect, cleans,
  sell_success, sell_failed, percent_of, is_manual, is_follow_sell, failure_text,
}

module _ {R : Type 0} where
  unfoldable pub resolve_sell_snapshot : Outside → Position R → Option SellAccountSnapshot
  resolve_sell_snapshot o p = elim p.sell_snapshot [
    | some snapshot ↦ some snapshot
    | none ↦ o.prefetched p.token_mint
  ]

  -- The amount to sell, of the balance of the account.
  unfoldable pub amount_to_sell : Position R → ℕ → ℕ
  amount_to_sell p balance = if ltb 0 p.token_amount then min p.token_amount balance else balance

  abbrev pub balance_now : Outside → Position R → SellAccountSnapshot → ℕ
  balance_now o p snapshot = elim (o.ata_balance p.token_mint) [
    | some n ↦ n
    | none ↦ o.rpc_balance snapshot.user_ata
  ]

  module _ (t : AddressText) where
    -- The branch of a zero balance.
    unfoldable pub skip_sale : PositionKey → AutoSellManager R → AutoSellManager R
    skip_sale k m =
        let (m', skips) = skip_zero_balance t k m in
        let n : ℕ = elim skips [ none ↦ 1 | some n ↦ n ] in
        if leb max_zero_balance_skips n then confirm_failed t k m' else m'

    abbrev pub cleanup_mint_if_unused : Pubkey → AutoSellManager R → List Effect
    cleanup_mint_if_unused mint m =
        if open_position_count_for_mint mint m == 0 then cleans mint ∷ [] else []

    -- The branch of a sale that was confirmed. `left` is `expected_after_balance`.
    unfoldable pub settle_success :
        SellSignal R → Pubkey → ℕ → ℕ → Str → AutoSellManager R → AutoSellManager R × List Effect
    settle_success signal mint amount left sig m =
        let m' =
          if left == 0
          then close_position t signal.position_key sig m
          else sell_part t signal.position_key amount m in
        (m', cleanup_mint_if_unused mint m' ++ sell_success (left == 0) sig ∷ [])

    abbrev pub attempt_cap_reached : PositionKey → AutoSellManager R → Bool
    attempt_cap_reached k m = elim (lookup k m) [
      | none ↦ false
      | some p ↦ max_sell_attempts_reached max_auto_sell_signal_attempts p
    ]

    unfoldable pub settle_failure :
        SellSignal R
        → PositionState
        → Attempts
        → AutoSellManager R
        → AutoSellManager R × List Effect
    settle_failure signal previous outcome m =
        let k = signal.position_key in
        let capped = attempt_cap_reached k m in
        if not (is_manual signal.reason) && (outcome.saw_signature_error || capped)
        then (
          suspend_auto_sell t k previous max_auto_sell_signal_attempts m,
          sell_failed (failure_text capped outcome) ∷ [],
        )
        else (restore_position t k previous m, sell_failed outcome.failure_reason ∷ [])

    -- The loop over the attempts, and the branches after it.
    unfoldable pub run_sale :
        Outside
        → SellSignal R
        → Position R
        → SellAccountSnapshot
        → ℕ
        → ℕ
        → AutoSellManager R
        → AutoSellManager R × List Effect
    unfolding settle_success settle_failure
    run_sale o signal p snapshot balance amount m =
        let aggressive = follow_sell_mode p.group && is_follow_sell signal.reason in
        let route = o.migrated snapshot.bonding_curve in
        let outcome =
          sell_attempts_from o route aggressive (codes "sell retries exhausted") 1
            max_sell_retries in
        if outcome.success
        then settle_success signal p.token_mint amount (balance - amount) outcome.last_sig m
        else settle_failure signal p.state outcome m

    -- From the guard of `mark_selling` on.
    unfoldable pub sell_amount :
        Outside
        → SellSignal R
        → Position R
        → SellAccountSnapshot
        → ℕ
        → ℕ
        → AutoSellManager R
        → AutoSellManager R × List Effect
    unfolding run_sale
    sell_amount o signal p snapshot balance amount m =
        let (m', marked) = sell_position signal.position_key m in
        if marked then run_sale o signal p snapshot balance amount m' else (m', [])

    unfoldable pub handle_sell_signal :
        Outside → SellSignal R → AutoSellManager R → AutoSellManager R × List Effect
    unfolding sell_amount skip_sale
    handle_sell_signal o signal m = elim (lookup signal.position_key m) [
      | none ↦ (m, [])
      | some p ↦ elim (resolve_sell_snapshot o p) [
        | none ↦ (m, [])
        | some snapshot ↦
            let balance = balance_now o p snapshot in
            let amount = amount_to_sell p balance in
            if amount == 0
            then (skip_sale signal.position_key m, [])
            else sell_amount o signal p snapshot balance amount m
      ]
    ]

    -- A manual sale of a part. `sale` is the signature, if the transaction was sent.
    unfoldable pub sell_percent :
        PositionKey
        → ℕ
        → Option Str
        → Position R
        → AutoSellManager R
        → AutoSellManager R × List Effect
    sell_percent k percent sale p m =
        let (m', marked) = sell_position k m in
        let amount = percent_of p.token_amount percent in
        if marked
        then elim sale [
          | some sig ↦ (sell_part t k amount m', sell_success false sig ∷ [])
          | none ↦ (restore_position t k p.state m', [])
        ]
        else (m', [])

module _ {R : Type 0} ⦃f : F64 R⦄ where
  unfoldable pub partial_signal : PositionKey → Position R → SellSignal R
  partial_signal k p = record {
    position_key = k;
    group_name = p.group.name;
    reason = manual;
    current_price = p.current_price;
    pnl_percent = pnl_percent p;
  }

  module _ (t : AddressText) where
    unfoldable pub handle_partial_sell :
        Outside → Option Str → PositionKey → ℕ → AutoSellManager R → AutoSellManager R × List Effect
    unfolding sell_percent
    handle_partial_sell o sale k percent m = elim (lookup k m) [
      | none ↦ (m, [])
      | some p ↦
          if p.token_amount == 0
          then (m, [])
          else (if leb 100 percent
              then handle_sell_signal t o (partial_signal k p) m
              else sell_percent t k percent sale p m)
    ]
