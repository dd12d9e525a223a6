-- ===== src/Manager/Exit.antt =====
-- copy-trader-v1.6.63/src/autosell/manager.rs: when a position is to be sold.
use rust_solana_cc_v.Prelude.{ℕ, Bool, not, ◌&&◌, Option, none, some, ltb, leb, if◌then◌else◌, Str}
use rust_solana_cc_v.Float.{F64}
use rust_solana_cc_v.Groups.Group.{follow_sell_mode}
use rust_solana_cc_v.Position.State.{
  Position, PositionKey, SellReason, take_profit, stop_loss, trailing_stop, max_lifetime, key,
  held_seconds, can_sell, can_check_stop_loss, can_check_take_profit, max_sell_attempts_reached,
}
use rust_solana_cc_v.Position.Prices.{pnl_percent, drawdown_percent}

abbrev pub max_auto_sell_signal_attempts : ℕ
max_auto_sell_signal_attempts = 5

pub record SellSignal (R : Type 0) : Type 0 where
  pub position_key : PositionKey
  pub group_name : Str
  pub reason : SellReason
  pub current_price : R
  pub pnl_percent : R

module _ {R : Type 0} ⦃f : F64 R⦄ where
  open f use {of_u64, neg, flt, fle}

  unfoldable pub signal_for : SellReason → Position R → SellSignal R
  signal_for reason p = record {
    position_key = key p;
    group_name = p.group.name;
    reason = reason;
    current_price = p.current_price;
    pnl_percent = pnl_percent p;
  }

  -- The first test of `check_exit_conditions`, which the fallback monitor makes too.
  unfoldable pub lifetime_over : ℕ → Position R → Bool
  lifetime_over now p =
      ltb 0 p.group.max_hold_seconds
      && (leb p.group.max_hold_seconds (held_seconds now p)
          && (can_sell p && not (max_sell_attempts_reached max_auto_sell_signal_attempts p)))

  unfoldable pub stop_loss_hit : Position R → Bool
  stop_loss_hit p = can_check_stop_loss p && fle (pnl_percent p) (neg p.group.stop_loss_percent)

  unfoldable pub take_profit_hit : Position R → Bool
  take_profit_hit p = can_check_take_profit p && fle p.group.take_profit_percent (pnl_percent p)

  unfoldable pub trailing_stop_hit : Position R → Bool
  trailing_stop_hit p =
      can_check_take_profit p
      && (flt (of_u64 0) p.group.trailing_stop_percent
          && (flt (of_u64 0) p.highest_price
              && (flt (of_u64 0) (pnl_percent p)
                  && fle p.group.trailing_stop_percent (drawdown_percent p))))

  unfoldable pub check_exit_conditions : ℕ → Position R → Option (SellSignal R)
  unfolding signal_for
  check_exit_conditions now p =
      if lifetime_over now p
      then some (signal_for max_lifetime p)
      else (if follow_sell_mode p.group
          then none
          else (if stop_loss_hit p
              then some (signal_for stop_loss p)
              else (if take_profit_hit p
                  then some (signal_for take_profit p)
                  else (if trailing_stop_hit p then some (signal_for trailing_stop p) else none))))
