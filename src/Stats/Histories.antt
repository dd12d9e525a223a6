-- ===== src/Stats/Histories.antt =====
-- copy-trader-v1.6.63/src/group_stats.rs: histories of calls and restarts, and the counts that a log of
-- them gives a group.
use rust_solana_cc_v.Prelude.{ℕ, ◌+◌, ◌%◌, Bool, true, false, ◌&&◌, List, [], ◌∷◌, Str, str_eq}
use rust_solana_cc_v.Float.{F64}
use rust_solana_cc_v.Groups.Manager.{GroupManager}
use rust_solana_cc_v.Pumpfun.Curve.{u64_mod}
use rust_solana_cc_v.Stats.Summary.{TradeOutcome, win, loss, flat, ClosedTradeRecord}
use rust_solana_cc_v.Stats.Store.{
  GroupPerformanceStore, load_or_default, sync_groups, record_buy_confirmed, record_buy_failed,
  record_sell_failed, record_closed_trade,
}
use rust_solana_cc_v.Stats.Counters.{Counters}

-- A call comes with the groups and the time; a restart reads the files.
pub data StatCall (R : Type 0) : Type 0 where
  synced : GroupManager R → ℕ → StatCall R
  buy_confirmed buy_failed sell_failed : GroupManager R → Str → Str → ℕ → StatCall R
  closed : GroupManager R → ClosedTradeRecord R → ℕ → StatCall R
  restarted : StatCall R

abbrev pub is_win : TradeOutcome → Bool
is_win win = true
is_win _ = false

abbrev pub is_loss : TradeOutcome → Bool
is_loss loss = true
is_loss _ = false

abbrev pub is_flat : TradeOutcome → Bool
is_flat flat = true
is_flat _ = false

abbrev pub bit : Bool → ℕ
bit true = 1
bit false = 0

module _ {R : Type 0} (id : Str) where
  abbrev pub is_buy_confirmed : StatCall R → Bool
  is_buy_confirmed (buy_confirmed gs k name now) = str_eq k id
  is_buy_confirmed _ = false

  abbrev pub is_buy_failed : StatCall R → Bool
  is_buy_failed (buy_failed gs k name now) = str_eq k id
  is_buy_failed _ = false

  abbrev pub is_sell_failed : StatCall R → Bool
  is_sell_failed (sell_failed gs k name now) = str_eq k id
  is_sell_failed _ = false

  -- A closed trade of the group whose outcome passes the test.
  abbrev pub is_closed : (TradeOutcome → Bool) → StatCall R → Bool
  is_closed p (closed gs trade now) = str_eq trade.group_id id && p trade.outcome
  is_closed p _ = false

  -- How many of the calls pass the test.
  unfoldable pub number_of : (StatCall R → Bool) → List (StatCall R) → ℕ
  number_of p [] = 0
  number_of p (c ∷ cs) = bit (p c) + number_of p cs

  -- What the log counts for the group, as `u64`, after what was counted before.
  unfoldable pub logged : Counters → List (StatCall R) → Counters
  unfolding number_of
  logged c cs = record {
    buys_confirmed = (c.buys_confirmed + number_of is_buy_confirmed cs) % u64_mod;
    buys_failed = (c.buys_failed + number_of is_buy_failed cs) % u64_mod;
    sells_failed = (c.sells_failed + number_of is_sell_failed cs) % u64_mod;
    closed = (c.closed + number_of (is_closed (λ o. true)) cs) % u64_mod;
    won = (c.won + number_of (is_closed is_win) cs) % u64_mod;
    lost = (c.lost + number_of (is_closed is_loss) cs) % u64_mod;
    even = (c.even + number_of (is_closed is_flat) cs) % u64_mod;
  }

module _ {R : Type 0} ⦃f : F64 R⦄ where
  unfoldable pub stat_call : StatCall R → GroupPerformanceStore R → GroupPerformanceStore R
  stat_call (synced gs now) s = sync_groups gs now s
  stat_call (buy_confirmed gs id name now) s = record_buy_confirmed gs id name now s
  stat_call (buy_failed gs id name now) s = record_buy_failed gs id name now s
  stat_call (sell_failed gs id name now) s = record_sell_failed gs id name now s
  stat_call (closed gs trade now) s = record_closed_trade gs trade now s
  stat_call restarted s = load_or_default s.stats_file s.history_file s.report_file

  unfoldable pub stat_calls : List (StatCall R) → GroupPerformanceStore R → GroupPerformanceStore R
  unfolding stat_call
  stat_calls [] s = s
  stat_calls (c ∷ cs) s = stat_calls cs (stat_call c s)
