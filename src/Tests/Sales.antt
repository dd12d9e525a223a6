-- ===== src/Tests/Sales.antt =====
-- The sales of a position.
use rust_solana_cc_v.Prelude.{
  ℕ, zero, suc, ◌+◌, ◌-◌, ◌*◌, ◌/◌, ◌≡◌, ◌≢◌, ◌≤◌, ◌<◌, refl, true, false, none, some, [], arith,
  codes, get,
}
use rust_solana_cc_v.Position.State.{active, selling, take_profit}
use rust_solana_cc_v.Manager.Store.{PositionKey-discrete, lookup}
use rust_solana_cc_v.Manager.Exit.{SellSignal}
use rust_solana_cc_v.Sell.Attempts.{
  Outside, not_sent, was_sent, confirmed, unconfirmed, sell_attempt, sell_attempts_from,
  pumpfun_attempt,
}
use rust_solana_cc_v.Sell.Executor.{
  resolve_sell_snapshot, amount_to_sell, handle_sell_signal, sell_percent,
}
use rust_solana_cc_v.Sell.States.{Sold}
use rust_solana_cc_v.Sell.Outcomes.{Confirmed, sell_attempts_from_sound}
use rust_solana_cc_v.Sell.Handler.{Leaves, attempts_of, handle_sell_signal-Sold}
use rust_solana_cc_v.Sell.Release.{
  NotSelling, handle_sell_signal_releases, sells_foreign_balance, sell_percent_sent,
}
use rust_solana_cc_v.Tests.Samples.{one_code, snapshot, held, held_key, manager}

-- The first sale is not confirmed, the second one is; the account holds 250 units.
abbrev outside : Outside
outside = record {
  prefetched = λ _. none;
  ata_balance = λ _. some 250;
  rpc_balance = λ _. 0;
  migrated = λ _. false;
  pumpfun = λ attempt. elim attempt [
    | zero ↦ not_sent []
    | suc n ↦ elim n [
      | zero ↦ was_sent (codes "x") unconfirmed
      | suc _ ↦ was_sent (codes "y") confirmed
    ]
  ];
  jupiter = λ _. not_sent [];
}

abbrev signal : SellSignal ℕ
signal = record {
  position_key = held_key;
  group_name = codes "group-1";
  reason = take_profit;
  current_price = 8;
  pnl_percent = 0;
}

sales : Unit {0}
unfolding sell_attempts_from sell_attempt pumpfun_attempt resolve_sell_snapshot amount_to_sell
    PositionKey-discrete
sales = tt

two_attempts : (sell_attempts_from outside false false [] 1 3).success ≡ true
unfolding sales
two_attempts = refl

sell_attempts_from_sound_example :
    (j : ℕ) × (1 ≤ j)
    × (j < 1 + 3)
    × Confirmed outside j (sell_attempts_from outside false false [] 1 3).last_sig
sell_attempts_from_sound_example = sell_attempts_from_sound outside false false [] 1 3 two_attempts

held_found : lookup held_key manager ≡ some held
unfolding sales get
held_found = refl

held_resolves : resolve_sell_snapshot outside held ≡ some snapshot
unfolding sales
held_resolves = refl

held_amount : 0 < amount_to_sell held 250
unfolding sales
held_amount = omega arith

handle_sell_signal-Sold_example :
    let amount = amount_to_sell held 250 in
    Leaves held_key
      (λ r. Sold held r amount (250 - amount) (attempts_of outside signal held snapshot))
      (handle_sell_signal one_code outside signal manager)
handle_sell_signal-Sold_example =
    handle_sell_signal-Sold one_code outside signal manager held held_found snapshot held_resolves
      refl held_amount

active_idle : active ≢ selling
active_idle e = cc

handle_sell_signal_releases_example :
    Leaves held_key (NotSelling) (handle_sell_signal one_code outside signal manager)
handle_sell_signal_releases_example =
    handle_sell_signal_releases one_code outside signal manager held held_found active_idle

held_sold : (attempts_of outside signal held snapshot).success ≡ true
unfolding sales
held_sold = refl

sells_foreign_balance_example :
    Leaves held_key
      (λ q. (q.state ≡ active) × ((later : ℕ) → amount_to_sell q later ≡ later))
      (handle_sell_signal one_code outside signal manager)
sells_foreign_balance_example =
    sells_foreign_balance one_code outside signal manager held snapshot held_found held_resolves
      refl (omega arith) (omega arith) held_sold

sell_percent_sent_example :
    let part = 100 * 25 / 100 in
    Leaves held_key
      (λ q.
        (0 < part → (q.state ≡ active) × (q.token_amount + part ≡ 100))
        × (part ≡ 0 → (q.state ≡ selling) × (q.token_amount ≡ 100)))
      (sell_percent one_code held_key 25 (some (codes "z")) held manager)
sell_percent_sent_example =
    sell_percent_sent one_code held_key 25 (codes "z") manager held held_found refl (omega arith)
      (omega arith)
