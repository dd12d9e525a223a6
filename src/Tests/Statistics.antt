-- ===== src/Tests/Statistics.antt =====
-- A group with a closed trade, before and after a restart.
use rust_solana_cc_v.Prelude.{
  ℕ, ◌≡◌, refl, false, none, some, List, [], ◌∷◌, arith, codes, Str-discrete, ℕ_discrete, get,
}
use rust_solana_cc_v.Groups.Manager.{GroupManager}
use rust_solana_cc_v.Stats.Summary.{
  ClosedTradeRecord, build_closed_trade_record, classify_trade_outcome, win_threshold_percent,
}
use rust_solana_cc_v.Stats.Store.{GroupPerformanceStore, collect}
use rust_solana_cc_v.Stats.Histories.{
  StatCall, synced, buy_confirmed, closed, restarted, logged, number_of, stat_calls,
}
use rust_solana_cc_v.Stats.Bumps.{FitU64}
use rust_solana_cc_v.Stats.Refines.{count_in, IsSound}
use rust_solana_cc_v.Stats.Logs.{stat_calls-logged}
use rust_solana_cc_v.Tests.Samples.{whole, group}

abbrev groups : GroupManager ℕ
groups = record {
  groups = (codes "g1", group) ∷ [];
  selected_group_id = some (codes "g1");
  blocklist = [];
  zero_slot_buy_enabled = false;
  file = none;
}

abbrev new_store : GroupPerformanceStore ℕ
new_store = record { summaries = []; stats_file = none; history_file = []; report_file = [] }

new_store-IsSound : IsSound ⦃f = whole⦄ new_store
unfolding collect get
new_store-IsSound = record { keyed = tt; saved = λ id. refl }

abbrev gain : ClosedTradeRecord ℕ
gain =
    build_closed_trade_record ⦃f = whole⦄ (codes "g1") (codes "group-1") (codes "mint")
      (codes "token") (codes "bought") (codes "sold") (codes "take profit") 5 31 60 1000

abbrev history : List (StatCall ℕ)
history =
    synced groups 900
    ∷ buy_confirmed groups (codes "g1") (codes "group-1") 940
    ∷ closed groups gain 1000
    ∷ restarted
    ∷ closed groups gain 1100
    ∷ []

new_store-FitU64 : FitU64 (count_in ⦃f = whole⦄ (codes "g1") new_store)
unfolding get
new_store-FitU64 = record {
  fits_confirmed = omega arith;
  fits_failed = omega arith;
  fits_sells = omega arith;
  fits_closed = omega arith;
  fits_won = omega arith;
  fits_lost = omega arith;
  fits_even = omega arith;
}

stat_calls-logged_example :
    count_in ⦃f = whole⦄ (codes "g1") (stat_calls ⦃f = whole⦄ history new_store)
    ≡ logged (codes "g1") (count_in ⦃f = whole⦄ (codes "g1") new_store) history
stat_calls-logged_example =
    stat_calls-logged ⦃f = whole⦄ (codes "g1") history new_store new_store-IsSound new_store-FitU64

-- The two trades are won.
won_twice : (logged (codes "g1") (count_in ⦃f = whole⦄ (codes "g1") new_store) history).won ≡ 2
unfolding logged number_of get build_closed_trade_record classify_trade_outcome
    win_threshold_percent Str-discrete ℕ_discrete
won_twice = refl
