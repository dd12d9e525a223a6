-- ===== src/Groups/Group.antt =====
-- copy-trader-v1.6.63/src/groups.rs: a copy group, with its defaults from the configuration
-- (copy-trader-v1.6.63/src/config.rs).
use rust_solana_cc_v.Prelude.{ℕ, Bool, true, not, List, ◌==◌, Str, codes, Pubkey}
use rust_solana_cc_v.Float.{F64}

abbrev pub entry_mode_smart_buy : ℕ
entry_mode_smart_buy = 0

abbrev pub entry_mode_smart_sell : ℕ
entry_mode_smart_sell = 1

abbrev pub sell_mode_tp_sl : ℕ
sell_mode_tp_sl = 0

-- The fields of the configuration that the modelled parts read.
pub record AppConfig (R : Type 0) : Type 0 where
  pub pubkey : Pubkey
  pub target_wallets : List Pubkey
  pub consensus_min_wallets : ℕ
  pub consensus_timeout_secs : ℕ
  pub buy_sol_amount : R
  pub slippage_bps : ℕ
  pub sell_slippage_bps : ℕ
  pub min_target_buy_sol : R
  pub jito_buy_tip_lamports : ℕ
  pub jito_sell_tip_lamports : ℕ
  pub zero_slot_tip_lamports : ℕ
  pub confirm_timeout_secs : ℕ
  pub take_profit_percent : R
  pub stop_loss_percent : R
  pub trailing_stop_percent : R
  pub max_hold_seconds : ℕ

pub record CopyGroup (R : Type 0) : Type 0 where
  pub id : Str
  pub name : Str
  pub enabled : Bool
  pub wallets : List Pubkey
  pub consensus_min_wallets : ℕ
  pub consensus_timeout_secs : ℕ
  pub buy_sol_amount : R
  pub min_target_buy_sol : R
  pub take_profit_percent : R
  pub stop_loss_percent : R
  pub trailing_stop_percent : R
  pub slippage_bps : ℕ
  pub sell_slippage_bps : ℕ
  pub max_hold_seconds : ℕ
  pub tip_buy_lamports : ℕ
  pub tip_sell_lamports : ℕ
  pub zero_slot_tip_lamports : ℕ
  pub entry_mode : ℕ
  pub sell_mode : ℕ

module _ {R : Type 0} where
  unfoldable pub from_app_config : AppConfig R → CopyGroup R
  from_app_config config = record {
    id = codes "g1";
    name = codes "group-1";
    enabled = true;
    wallets = config.target_wallets;
    consensus_min_wallets = config.consensus_min_wallets;
    consensus_timeout_secs = config.consensus_timeout_secs;
    buy_sol_amount = config.buy_sol_amount;
    min_target_buy_sol = config.min_target_buy_sol;
    take_profit_percent = config.take_profit_percent;
    stop_loss_percent = config.stop_loss_percent;
    trailing_stop_percent = config.trailing_stop_percent;
    slippage_bps = config.slippage_bps;
    sell_slippage_bps = config.sell_slippage_bps;
    max_hold_seconds = config.max_hold_seconds;
    tip_buy_lamports = config.jito_buy_tip_lamports;
    tip_sell_lamports = config.jito_sell_tip_lamports;
    zero_slot_tip_lamports = config.zero_slot_tip_lamports;
    entry_mode = entry_mode_smart_buy;
    sell_mode = sell_mode_tp_sl;
  }

  unfoldable pub to_app_config : CopyGroup R → AppConfig R → AppConfig R
  to_app_config g base = record base {
    target_wallets = g.wallets;
    consensus_min_wallets = g.consensus_min_wallets;
    consensus_timeout_secs = g.consensus_timeout_secs;
    buy_sol_amount = g.buy_sol_amount;
    min_target_buy_sol = g.min_target_buy_sol;
    take_profit_percent = g.take_profit_percent;
    stop_loss_percent = g.stop_loss_percent;
    trailing_stop_percent = g.trailing_stop_percent;
    slippage_bps = g.slippage_bps;
    sell_slippage_bps = g.sell_slippage_bps;
    max_hold_seconds = g.max_hold_seconds;
    jito_buy_tip_lamports = g.tip_buy_lamports;
    jito_sell_tip_lamports = g.tip_sell_lamports;
    zero_slot_tip_lamports = g.zero_slot_tip_lamports;
  }

  unfoldable pub follow_sell_mode : CopyGroup R → Bool
  follow_sell_mode g = not (g.sell_mode == sell_mode_tp_sl)

  unfoldable pub buy_on_smart_buy : CopyGroup R → Bool
  buy_on_smart_buy g = g.entry_mode == entry_mode_smart_buy

  unfoldable pub buy_on_smart_sell : CopyGroup R → Bool
  buy_on_smart_sell g = g.entry_mode == entry_mode_smart_sell

module _ {R : Type 0} ⦃f : F64 R⦄ where
  open f use {mul, of_u64, to_u64}

  unfoldable pub buy_lamports : CopyGroup R → ℕ
  buy_lamports g = to_u64 (mul g.buy_sol_amount (of_u64 1000000000))

  unfoldable pub min_target_buy_lamports : CopyGroup R → ℕ
  min_target_buy_lamports g = to_u64 (mul g.min_target_buy_sol (of_u64 1000000000))
