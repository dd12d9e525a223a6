-- ===== src/Sell/Release.antt =====
-- copy-trader-v1.6.63/src/tx/sell_executor.rs: the selling state after the handlers.
use rust_solana_cc_v.Prelude.{
  ℕ, ◌+◌, ◌*◌, ◌/◌, ◌≡◌, ◌≢◌, ◌≤◌, ◌<◌, inl, inr, true, some, arith, Str, if_cases, Option-cases,
  Bool-cases, ◌==◌, leb, ◌^◌,
}
use rust_solana_cc_v.Position.State.{
  Position, PositionKey, active, selling, SellAccountSnapshot, apply_partial_sell, mark_failed,
  record_zero_balance_sell_skip,
}
use rust_solana_cc_v.Manager.Persistence.{AddressText}
use rust_solana_cc_v.Manager.Store.{
  AutoSellManager, lookup, modify, confirm_failed, skip_zero_balance, sell_part,
}
use rust_solana_cc_v.Manager.Exit.{SellSignal}
use rust_solana_cc_v.Sell.Attempts.{Outside, Attempts, max_zero_balance_skips, percent_of}
use rust_solana_cc_v.Sell.Executor.{
  resolve_sell_snapshot, balance_now, amount_to_sell, sell_amount, handle_sell_signal, skip_sale,
  sell_percent,
}
use rust_solana_cc_v.Sell.States.{
  Holds, Sold, lookup-modify, is_sellable, sell_position-marks, sell_position-refuses,
}
use rust_solana_cc_v.Sell.Handler.{
  Leaves, attempts_of, amount_to_sell-le, sell_amount-Sold, handle_sell_signal-Sold,
}

percent_of-le :
    (total percent : ℕ)
    → percent ≤ 100
    → total < 2 ^ 64
    → (percent_of total percent ≡ total * percent / 100) × (percent_of total percent ≤ total)
unfolding percent_of
percent_of-le total percent h b =
    let product : total * percent ≤ total * 100 = grind arith in (omega arith, omega arith)

module _ {R : Type 0} where
  abbrev pub NotSelling : Position R → Type 0
  NotSelling q = q.state ≢ selling

module _ {R : Type 0} (t : AddressText) where
  Sold-NotSelling :
      (p q : Position R) (amount left : ℕ) (outcome : Attempts)
      → Sold p q amount left outcome
      → NotSelling p
      → NotSelling q
  Sold-NotSelling p q amount left outcome s n = elim (Bool-cases outcome.success) [
    | inl ok ↦ elim (Bool-cases (left == 0)) [
      | inl z ↦ ground (arith, (s.closes ok (ground arith)).0)
      | inr nz ↦ ground (arith, (s.shrinks ok (ground arith)).0)
    ]
    | inr bad ↦ ground (arith, (s.reverts bad).0)
  ]

  skip_sale-NotSelling :
      (k : PositionKey) (m : AutoSellManager R) (p : Position R)
      → lookup k m ≡ some p
      → NotSelling p
      → Holds k NotSelling (skip_sale t k m)
  unfolding skip_sale skip_zero_balance confirm_failed record_zero_balance_sell_skip mark_failed
  skip_sale-NotSelling k m p e n =
      let skips = (record_zero_balance_sell_skip p).1 in
      let m' = modify k (λ q. (record_zero_balance_sell_skip q).0) m in
      let there = lookup-modify k (λ q. (record_zero_balance_sell_skip q).0) m p e in
      rw (e, skip_zero_balance, skip_sale)
        (if_cases (Holds k NotSelling) (leb max_zero_balance_skips skips)
          (λ _. (_, lookup-modify k _ _ _ there, ground arith)) (λ _. (_, there, n)))

  module _ (o : Outside) (signal : SellSignal R) (m : AutoSellManager R) (p : Position R)
      (found : lookup signal.position_key m ≡ some p) (idle : p.state ≢ selling) where
    sell_amount-NotSelling :
        (snapshot : SellAccountSnapshot) (balance : ℕ)
        → 0 < amount_to_sell p balance
        → Leaves signal.position_key NotSelling
            (sell_amount t o signal p snapshot balance (amount_to_sell p balance) m)
    unfolding sell_amount
    sell_amount-NotSelling snapshot balance pos = elim (Bool-cases (is_sellable p.state)) [
      | inl s ↦
          let (q, there, sold) =
            sell_amount-Sold t o signal m p found snapshot balance (amount_to_sell p balance) s pos
              (amount_to_sell-le p balance) in
          (q, there, Sold-NotSelling p q _ _ _ sold idle)
      | inr refused ↦
          let (unmarked, there) = sell_position-refuses signal.position_key m p found refused in
          rw (unmarked, sell_amount) (p, there, idle)
    ]

    -- A position that was not being sold when a signal arrived is not being sold after it, whatever
    -- the outside answers.
    pub handle_sell_signal_releases :
        Leaves signal.position_key NotSelling (handle_sell_signal t o signal m)
    unfolding handle_sell_signal
    handle_sell_signal_releases = elim (Option-cases (resolve_sell_snapshot o p)) [
      | inl missing ↦ rw (found, handle_sell_signal, missing) (p, found, idle)
      | inr (snapshot, there) ↦
          let balance = balance_now o p snapshot in
          rw (found, handle_sell_signal, there)
            (if_cases (Leaves signal.position_key NotSelling) (amount_to_sell p balance == 0)
              (λ _. skip_sale-NotSelling signal.position_key m p found idle)
              (λ nz. sell_amount-NotSelling snapshot balance (ground arith)))
    ]

  -- After the confirmed sale of a position that held less than the account, it is active, and the
  -- amount of a further sale is the whole balance of the account then.
  pub sells_foreign_balance :
      (o : Outside) (signal : SellSignal R) (m : AutoSellManager R) (p : Position R)
      (snapshot : SellAccountSnapshot)
      → lookup signal.position_key m ≡ some p
      → resolve_sell_snapshot o p ≡ some snapshot
      → is_sellable p.state ≡ true
      → 0 < p.token_amount
      → p.token_amount < balance_now o p snapshot
      → (attempts_of o signal p snapshot).success ≡ true
      → Leaves signal.position_key
          (λ q. (q.state ≡ active) × ((later : ℕ) → amount_to_sell q later ≡ later))
          (handle_sell_signal t o signal m)
  unfolding amount_to_sell
  sells_foreign_balance o signal m p snapshot found res s pos less ok =
      let (q, there, sold) =
        handle_sell_signal-Sold t o signal m p found snapshot res s (ground arith) in
      let shrunk = sold.shrinks ok (ground arith) in
      (q, there, (shrunk.0, λ later. ground (arith, shrunk.1)))

  -- A manual sale of a part, once sent, lowers the amount by the part and leaves the position active; but
  -- if the part rounds to nothing the position stays selling with its amount.
  pub sell_percent_sent :
      (k : PositionKey) (percent : ℕ) (sig : Str) (m : AutoSellManager R) (p : Position R)
      → lookup k m ≡ some p
      → is_sellable p.state ≡ true
      → percent ≤ 100
      → p.token_amount < 2 ^ 64
      → let part = p.token_amount * percent / 100 in
        Leaves k
          (λ q.
            (0 < part → (q.state ≡ active) × (q.token_amount + part ≡ p.token_amount))
            × (part ≡ 0 → (q.state ≡ selling) × (q.token_amount ≡ p.token_amount)))
          (sell_percent t k percent (some sig) p m)
  unfolding sell_percent sell_part apply_partial_sell
  sell_percent_sent k percent sig m p found s h b =
      let (marked, there, selling_now, same) = sell_position-marks k m p found s in
      let le = percent_of-le p.token_amount percent h b in
      rw (marked, sell_percent)
        (
          _,
          lookup-modify k _ _ _ there,
          (λ pos. (ground arith, ground arith), λ zero. (ground arith, ground arith)),
        )
