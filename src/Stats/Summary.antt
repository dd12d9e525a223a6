-- ===== src/Stats/Summary.antt =====
-- copy-trader-v1.6.63/src/group_stats.rs: the summary of a group, and the record of a closed trade.
-- Counters are `u64`, times seconds; the time of a call is an argument.
use rust_solana_cc_v.Prelude.{ℕ, ◌+◌, ◌-◌, ◌%◌, Option, none, some, ◌==◌, if◌then◌else◌, Str}
use rust_solana_cc_v.Float.{F64}
use rust_solana_cc_v.Pumpfun.Curve.{u64_mod}

pub data TradeOutcome : Type 0 where
  win loss flat : TradeOutcome

pub record ClosedTradeRecord (R : Type 0) : Type 0 where
  pub group_id : Str
  pub group_name : Str
  pub mint : Str
  pub token_name : Str
  pub buy_signature : Str
  pub sell_signature : Str
  pub exit_reason : Str
  pub entry_sol_amount : R
  pub pnl_percent : R
  pub hold_seconds : ℕ
  pub opened_at_unix_secs : ℕ
  pub closed_at_unix_secs : ℕ
  pub outcome : TradeOutcome

pub record GroupPerformanceSummary (R : Type 0) : Type 0 where
  pub group_id : Str
  pub group_name : Str
  pub buy_confirmed_count : ℕ
  pub buy_failed_count : ℕ
  pub sell_failed_count : ℕ
  pub closed_trades : ℕ
  pub wins : ℕ
  pub losses : ℕ
  pub flats : ℕ
  pub avg_pnl_percent : R
  pub net_pnl_percent_sum : R
  pub best_trade_percent : Option R
  pub worst_trade_percent : Option R
  pub avg_hold_seconds : R
  pub last_updated_unix_secs : ℕ

-- `+= 1` on a `u64`.
abbrev pub increment : ℕ → ℕ
increment n = (n + 1) % u64_mod

module _ {R : Type 0} where
  unfoldable pub touch : ℕ → GroupPerformanceSummary R → GroupPerformanceSummary R
  touch now s = record s { last_updated_unix_secs = now }

  unfoldable pub apply_group_name : Str → ℕ → GroupPerformanceSummary R → GroupPerformanceSummary R
  unfolding touch
  apply_group_name group_name now s = touch now (record s { group_name = group_name })

  unfoldable pub count_buy_confirmed : ℕ → GroupPerformanceSummary R → GroupPerformanceSummary R
  unfolding touch
  count_buy_confirmed now s =
      touch now (record s { buy_confirmed_count = increment s.buy_confirmed_count })

  unfoldable pub count_buy_failed : ℕ → GroupPerformanceSummary R → GroupPerformanceSummary R
  unfolding touch
  count_buy_failed now s = touch now (record s { buy_failed_count = increment s.buy_failed_count })

  unfoldable pub count_sell_failed : ℕ → GroupPerformanceSummary R → GroupPerformanceSummary R
  unfolding touch
  count_sell_failed now s =
      touch now (record s { sell_failed_count = increment s.sell_failed_count })

  unfoldable pub count_outcome :
      TradeOutcome → GroupPerformanceSummary R → GroupPerformanceSummary R
  count_outcome win s = record s { wins = increment s.wins }
  count_outcome loss s = record s { losses = increment s.losses }
  count_outcome flat s = record s { flats = increment s.flats }

module _ {R : Type 0} ⦃f : F64 R⦄ where
  open f use {of_u64, add, mul, div, neg, fmax, fmin, flt}

  unfoldable pub blank : Str → Str → GroupPerformanceSummary R
  blank group_id group_name = record {
    group_id = group_id;
    group_name = group_name;
    buy_confirmed_count = 0;
    buy_failed_count = 0;
    sell_failed_count = 0;
    closed_trades = 0;
    wins = 0;
    losses = 0;
    flats = 0;
    avg_pnl_percent = of_u64 0;
    net_pnl_percent_sum = of_u64 0;
    best_trade_percent = none;
    worst_trade_percent = none;
    avg_hold_seconds = of_u64 0;
    last_updated_unix_secs = 0;
  }

  unfoldable pub win_rate_percent : GroupPerformanceSummary R → R
  win_rate_percent s =
      if s.closed_trades == 0
      then of_u64 0
      else div (mul (of_u64 s.wins) (of_u64 100)) (of_u64 s.closed_trades)

  abbrev extreme : (R → R → R) → Option R → R → R
  extreme pick none pnl = pnl
  extreme pick (some best) pnl = pick best pnl

  -- The fields of the summary that a closed trade changes, before its outcome is counted.
  unfoldable pub average_trade :
      ClosedTradeRecord R → GroupPerformanceSummary R → GroupPerformanceSummary R
  average_trade trade s =
      let closed_trades = increment s.closed_trades in
      let net = add s.net_pnl_percent_sum trade.pnl_percent in
      let total_hold =
        add (mul s.avg_hold_seconds (of_u64 (closed_trades - 1))) (of_u64 trade.hold_seconds) in
      record s {
        closed_trades = closed_trades;
        net_pnl_percent_sum = net;
        avg_pnl_percent = div net (of_u64 closed_trades);
        avg_hold_seconds = div total_hold (of_u64 closed_trades);
        best_trade_percent = some (extreme fmax s.best_trade_percent trade.pnl_percent);
        worst_trade_percent = some (extreme fmin s.worst_trade_percent trade.pnl_percent);
      }

  unfoldable pub count_closed_trade :
      ClosedTradeRecord R → ℕ → GroupPerformanceSummary R → GroupPerformanceSummary R
  unfolding touch count_outcome average_trade
  count_closed_trade trade now s = touch now (count_outcome trade.outcome (average_trade trade s))

  -- `WIN_THRESHOLD_PERCENT`: 0.5.
  unfoldable pub win_threshold_percent : R
  win_threshold_percent = div (of_u64 1) (of_u64 2)

  unfoldable pub classify_trade_outcome : R → TradeOutcome
  unfolding win_threshold_percent
  classify_trade_outcome pnl_percent =
      if flt win_threshold_percent pnl_percent
      then win
      else (if flt pnl_percent (neg win_threshold_percent) then loss else flat)

  unfoldable pub build_closed_trade_record :
      Str → Str → Str → Str → Str → Str → Str → R → R → ℕ → ℕ → ClosedTradeRecord R
  unfolding classify_trade_outcome
  build_closed_trade_record group_id group_name mint token_name buy_signature sell_signature
        exit_reason entry_sol_amount pnl_percent hold_seconds now =
      record {
        group_id = group_id;
        group_name = group_name;
        mint = mint;
        token_name = token_name;
        buy_signature = buy_signature;
        sell_signature = sell_signature;
        exit_reason = exit_reason;
        entry_sol_amount = entry_sol_amount;
        pnl_percent = pnl_percent;
        hold_seconds = hold_seconds;
        opened_at_unix_secs = now - hold_seconds;
        closed_at_unix_secs = now;
        outcome = classify_trade_outcome pnl_percent;
      }
