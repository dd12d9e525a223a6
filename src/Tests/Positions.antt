-- ===== src/Tests/Positions.antt =====
-- Positions, their exit conditions, the monitors and the saved file.
use rust_solana_cc_v.Prelude.{
  ℕ, ◌+◌, ◌≡◌, refl, inl, true, none, some, [], ◌∷◌, arith, All, Elem, codes, List, get, insert,
  Str-discrete, ℕ_discrete,
}
use rust_solana_cc_v.Position.State.{
  Position, active, closed, key, stop_loss, held_seconds, can_sell, can_check_stop_loss,
  max_sell_attempts_reached, apply_partial_sell,
}
use rust_solana_cc_v.Position.Prices.{pnl_percent, update_price}
use rust_solana_cc_v.Groups.Group.{follow_sell_mode}
use rust_solana_cc_v.Position.Transitions.{
  Method, activates, sells, fails, reverts, updates_price, calls, IsDone, calls-IsDone,
  partial_sells, partial_sells_total,
}
use rust_solana_cc_v.Position.Highs.{update_prices, update_prices_high}
use rust_solana_cc_v.Manager.Store.{PositionKey-discrete, lookup, suspend_auto_sell}
use rust_solana_cc_v.Manager.Exit.{
  SellSignal, signal_for, lifetime_over, stop_loss_hit, check_exit_conditions,
}
use rust_solana_cc_v.Manager.Signals.{Fits, check_exit_conditions_sound, suspend_auto_sell_signals}
use rust_solana_cc_v.Manager.Monitor.{
  panics, keys_for_mint, send_signal, on_price, on_price_keys, on_bonding_curve,
}
use rust_solana_cc_v.Tests.Samples.{whole, whole-IsOrdered, one_code, held, held_key, manager}

exits : Unit {0}
unfolding check_exit_conditions stop_loss_hit lifetime_over signal_for pnl_percent key held_seconds
    can_sell can_check_stop_loss max_sell_attempts_reached follow_sell_mode
exits = tt

abbrev sold : Position ℕ
sold = record held { state = closed; sell_signature = some (codes "sell") }

abbrev late_calls : List (Method ℕ)
late_calls = reverts ∷ activates 5 100 none ∷ updates_price 9 ∷ sells ∷ fails ∷ []

calls-IsDone_example : IsDone (calls ⦃f = whole⦄ late_calls sold).state
calls-IsDone_example =
    calls-IsDone ⦃f = whole⦄ late_calls sold (refl, (refl, (refl, (refl, (refl, tt))))) (inl refl)

-- A partial sale makes a closed position active.
part_reopens : (apply_partial_sell 30 sold).0.state ≡ active
unfolding apply_partial_sell
part_reopens = refl

partial_sells_total_example :
    (partial_sells (30 ∷ 200 ∷ 70 ∷ []) held).1
      + (partial_sells (30 ∷ 200 ∷ 70 ∷ []) held).0.token_amount
    ≡ 100
partial_sells_total_example = partial_sells_total (30 ∷ 200 ∷ 70 ∷ []) held

update_prices_high_example :
    let h = (update_prices ⦃f = whole⦄ (12 ∷ 9 ∷ []) held).highest_price in
    All (λ x. whole.fle x h ≡ true) (12 ∷ 9 ∷ [])
    × (whole.fle 10 h ≡ true)
    × (whole.fle h h ≡ true)
    × Elem h (10 ∷ 12 ∷ 9 ∷ [])
update_prices_high_example =
    update_prices_high ⦃f = whole⦄ whole-IsOrdered (12 ∷ 9 ∷ []) held (refl, (refl, tt)) refl

abbrev stop_signal : SellSignal ℕ
stop_signal = record {
  position_key = record { group_id = codes "g1"; token_mint = 7 };
  group_name = codes "group-1";
  reason = stop_loss;
  current_price = 8;
  pnl_percent = 0;
}

held_stops : check_exit_conditions ⦃f = whole⦄ 5 held ≡ some stop_signal
unfolding exits
held_stops = refl

check_exit_conditions_sound_example : Fits ⦃f = whole⦄ 5 held stop_signal
check_exit_conditions_sound_example =
    check_exit_conditions_sound ⦃f = whole⦄ 5 held stop_signal held_stops

held_found : lookup held_key manager ≡ some held
unfolding get PositionKey-discrete Str-discrete ℕ_discrete
held_found = refl

suspend_auto_sell_signals_example :
    (q : Position ℕ) × (lookup held_key (suspend_auto_sell one_code held_key active 5 manager)
      ≡ some q)
    × (check_exit_conditions ⦃f = whole⦄ 5 q
        ≡ check_exit_conditions ⦃f = whole⦄ 5
            (record held { state = active; group = record held.group { max_hold_seconds = 0 } }))
suspend_auto_sell_signals_example =
    suspend_auto_sell_signals ⦃f = whole⦄ one_code 5 5 held_key active manager held held_found
      (omega arith)

-- Where another task removes the position before it is read again, the monitor panics.
removed_between : on_bonding_curve ⦃f = whole⦄ true (λ j m. []) 5 7 8 manager.positions ≡ panics
unfolding exits on_bonding_curve on_price_keys on_price send_signal keys_for_mint update_price get
    insert PositionKey-discrete Str-discrete ℕ_discrete
removed_between = refl
