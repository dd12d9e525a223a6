-- ===== src/Position/Prices.antt =====
-- copy-trader-v1.6.63/src/autosell/position.rs: a new position, its activation and its prices.
use rust_solana_cc_v.Prelude.{
  ℕ, Bool, true, false, ◌||◌, Option, none, some, [], ltb, if◌then◌else◌, Pubkey,
}
use rust_solana_cc_v.Float.{F64}
use rust_solana_cc_v.Groups.Group.{CopyGroup}
use rust_solana_cc_v.Position.State.{Position, pending, active, is_confirming, is_submitted}

module _ {R : Type 0} ⦃f : F64 R⦄ where
  open f use {of_u64, sub, mul, div, flt}

  unfoldable pub new : ℕ → CopyGroup R → Pubkey → ℕ → R → Pubkey → ℕ → Position R
  new now group token_mint entry_sol_amount entry_price_sol source_wallet pre_buy_ata_balance =
      record {
        group = group;
        token_mint = token_mint;
        state = pending;
        entry_sol_amount = entry_sol_amount;
        token_amount = 0;
        entry_price_sol = entry_price_sol;
        token_name = [];
        entry_mcap_sol = of_u64 0;
        highest_price = entry_price_sol;
        current_price = entry_price_sol;
        created_at = now;
        confirmed_at = none;
        source_wallet = source_wallet;
        buy_signature = [];
        sell_signature = none;
        sell_snapshot = none;
        pre_buy_ata_balance = pre_buy_ata_balance;
        sell_attempts = 0;
        zero_balance_sell_skips = 0;
      }

  -- The price per token that was paid: 1e9 lamports to a SOL, 1e6 units to a token.
  unfoldable pub paid_price : ℕ → ℕ → R
  paid_price entry_sol_amount actual =
      if ltb 0 entry_sol_amount
      then div (div (of_u64 entry_sol_amount) (of_u64 1000000000))
          (div (of_u64 actual) (of_u64 1000000))
      else of_u64 0

  unfoldable pub cost_price : ℕ → ℕ → Option R → R
  unfolding paid_price
  cost_price entry_sol_amount actual none = paid_price entry_sol_amount actual
  cost_price entry_sol_amount actual (some p) =
      if flt (of_u64 0) p then p else paid_price entry_sol_amount actual

  -- The amounts and prices that `mark_active` sets, before the state.
  unfoldable pub set_cost : ℕ → Option R → Position R → Position R
  unfolding cost_price
  set_cost actual bc_price p =
      let price = cost_price p.entry_sol_amount actual bc_price in
      if ltb 0 actual
      then record p {
        token_amount = actual;
        entry_price_sol = price;
        highest_price = price;
        current_price = price;
      }
      else record p { token_amount = actual }

  unfoldable pub mark_active : ℕ → ℕ → Option R → Position R → Position R × Bool
  mark_active now actual bc_price p =
      let q = set_cost actual bc_price p in
      if is_confirming p.state || is_submitted p.state
      then (record q { state = active; confirmed_at = some now }, true)
      else (p, false)

  -- The new position, and whether the price is a new high.
  unfoldable pub update_price : R → Position R → Position R × Bool
  update_price price p =
      if flt p.highest_price price
      then (record p { current_price = price; highest_price = price }, true)
      else (record p { current_price = price }, false)

  unfoldable pub pnl_percent : Position R → R
  pnl_percent p =
      if flt (of_u64 0) p.entry_price_sol
      then mul (div (sub p.current_price p.entry_price_sol) p.entry_price_sol) (of_u64 100)
      else of_u64 0

  unfoldable pub drawdown_percent : Position R → R
  drawdown_percent p =
      if flt (of_u64 0) p.highest_price
      then mul (div (sub p.highest_price p.current_price) p.highest_price) (of_u64 100)
      else of_u64 0
