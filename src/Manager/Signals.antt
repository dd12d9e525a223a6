-- ===== src/Manager/Signals.antt =====
-- copy-trader-v1.6.63/src/autosell/manager.rs: the signals of `check_exit_conditions`.
use mathlib.Core.Path.{subst}
use rust_solana_cc_v.Prelude.{
  ℕ, max, ◌≡◌, ◌≤◌, ◌<◌, refl, Bool-cases, ◌⊎◌, inl, inr, true, some, arith, get-insert_self,
}
use rust_solana_cc_v.Float.{F64}
use rust_solana_cc_v.Groups.Group.{follow_sell_mode}
use rust_solana_cc_v.Position.State.{
  Position, PositionKey, PositionState, active, confirming, SellReason, take_profit, stop_loss,
  trailing_stop, max_lifetime, manual, follow_sell, key, held_seconds, can_sell,
  can_check_stop_loss, can_check_take_profit, max_sell_attempts_reached,
}
use rust_solana_cc_v.Position.Prices.{pnl_percent, drawdown_percent}
use rust_solana_cc_v.Manager.Persistence.{AddressText}
use rust_solana_cc_v.Manager.Store.{
  AutoSellManager, PositionKey-discrete, lookup, modify, save, suspend_auto_sell,
}
use rust_solana_cc_v.Manager.Exit.{
  SellSignal, signal_for, lifetime_over, stop_loss_hit, take_profit_hit, trailing_stop_hit,
  check_exit_conditions, max_auto_sell_signal_attempts,
}

module _ {R : Type 0} ⦃f : F64 R⦄ where
  open f use {of_u64, neg, flt, fle}

  -- What each reason claims of the position.
  abbrev pub Justified : ℕ → Position R → SellReason → Type 0
  Justified now p max_lifetime =
      ((p.state ≡ active) ⊎ (p.state ≡ confirming))
      × (0 < p.group.max_hold_seconds)
      × (p.group.max_hold_seconds ≤ held_seconds now p)
      × (p.sell_attempts < max_auto_sell_signal_attempts)
  Justified now p stop_loss =
      (p.state ≡ active)
      × (p.group.sell_mode ≡ 0)
      × (fle (pnl_percent p) (neg p.group.stop_loss_percent) ≡ true)
  Justified now p take_profit =
      (p.state ≡ active)
      × (p.group.sell_mode ≡ 0)
      × (fle p.group.take_profit_percent (pnl_percent p) ≡ true)
  Justified now p trailing_stop =
      (p.state ≡ active)
      × (p.group.sell_mode ≡ 0)
      × (flt (of_u64 0) p.group.trailing_stop_percent ≡ true)
      × (flt (of_u64 0) p.highest_price ≡ true)
      × (flt (of_u64 0) (pnl_percent p) ≡ true)
      × (fle p.group.trailing_stop_percent (drawdown_percent p) ≡ true)
  Justified now p manual = ⊥
  Justified now p follow_sell = ⊥

  abbrev pub Fits : ℕ → Position R → SellSignal R → Type 0
  Fits now p s =
      (s.position_key ≡ key p)
      × (s.group_name ≡ p.group.name)
      × (s.current_price ≡ p.current_price)
      × (s.pnl_percent ≡ pnl_percent p)
      × Justified now p s.reason

  signal_for-Fits :
      (now : ℕ) (p : Position R) (s : SellSignal R) (r : SellReason)
      → signal_for r p ≡ s
      → Justified now p r
      → Fits now p s
  unfolding signal_for
  signal_for-Fits now p s r e j = subst (Fits now p) e (refl, refl, refl, refl, j)

  lifetime_over-Justified :
      (now : ℕ) (p : Position R) → lifetime_over now p ≡ true → Justified now p max_lifetime
  unfolding lifetime_over can_sell max_sell_attempts_reached
  lifetime_over-Justified now p h = ground arith

  -- A signal has the position's key, price and gain and the group's name, and its reason is true of the
  -- position: its holding time is over, and it is active or confirming with attempts left; or it is
  -- active, its group takes profits, and the gain is at the stop loss or at the take profit, or, where a
  -- trailing stop is set, the highest price and the gain are positive and the fall from the highest price
  -- has reached the stop.
  pub check_exit_conditions_sound :
      (now : ℕ) (p : Position R) (s : SellSignal R)
      → check_exit_conditions now p ≡ some s
      → Fits now p s
  unfolding check_exit_conditions stop_loss_hit take_profit_hit trailing_stop_hit follow_sell_mode
      can_check_stop_loss can_check_take_profit
  check_exit_conditions_sound now p s h = elim (Bool-cases (lifetime_over now p)) [
    | inl t ↦ signal_for-Fits now p s max_lifetime (ground arith) (lifetime_over-Justified now p t)
    | inr a ↦ elim (Bool-cases (stop_loss_hit p)) [
      | inl t ↦ signal_for-Fits now p s stop_loss (ground arith) (ground arith)
      | inr b ↦ elim (Bool-cases (take_profit_hit p)) [
        | inl t ↦ signal_for-Fits now p s take_profit (ground arith) (ground arith)
        | inr c ↦ signal_for-Fits now p s trailing_stop (ground arith) (ground arith)
      ]
    ]
  ]

  -- A suspension takes away the signal of the holding time and no other: a position that is suspended
  -- with a limit of at least that of the signals is signalled as it would be in the state it is put back
  -- in, if its group had no holding time.
  pub suspend_auto_sell_signals :
      (t : AddressText) (now limit : ℕ) (k : PositionKey) (previous : PositionState)
      (m : AutoSellManager R) (p : Position R)
      → lookup k m ≡ some p
      → max_auto_sell_signal_attempts ≤ limit
      → (q : Position R) × (lookup k (suspend_auto_sell t k previous limit m) ≡ some q)
        × (check_exit_conditions now q
            ≡ check_exit_conditions now
                (record p { state = previous; group = record p.group { max_hold_seconds = 0 } }))
  unfolding suspend_auto_sell modify save check_exit_conditions lifetime_over stop_loss_hit
      take_profit_hit trailing_stop_hit max_sell_attempts_reached can_check_stop_loss can_sell
      can_check_take_profit pnl_percent drawdown_percent signal_for key follow_sell_mode
  suspend_auto_sell_signals t now limit k previous m p found high =
      let q : Position R = record p {
        state = previous;
        sell_attempts = max p.sell_attempts limit;
      } in
      (
        q,
        rw (found, suspend_auto_sell, modify, save)
            (get-insert_self PositionKey-discrete k q m.positions),
        ground arith,
      )
