-- ===== src/Stats/Logs.antt =====
-- copy-trader-v1.6.63/src/group_stats.rs: the counters after any history, against the log of its calls.
use mathlib.Core.Path.{subst}
use rust_solana_cc_v.Prelude.{
  ℕ, ◌+◌, ◌%◌, ◌&&◌, ◌++◌, Bool, true, false, ◌≡◌, refl, sym, ap, ◌∙◌, List, [], ◌∷◌, arith, Str,
  Str-discrete, str_eq, str_eq_iff,
}
use rust_solana_cc_v.Float.{F64}
use rust_solana_cc_v.Groups.Manager.{GroupManager, all_groups}
use rust_solana_cc_v.Pumpfun.Curve.{u64_mod}
use rust_solana_cc_v.Stats.Summary.{
  TradeOutcome, win, loss, flat, ClosedTradeRecord, GroupPerformanceSummary, touch,
  count_buy_confirmed, count_buy_failed, count_sell_failed, count_outcome, average_trade,
  count_closed_trade,
}
use rust_solana_cc_v.Stats.Store.{
  GroupPerformanceStore, items_of, load_or_default, persist, sync_each, sync_groups, update_summary,
  record_buy_confirmed, record_buy_failed, record_sell_failed, record_closed_trade,
}
use rust_solana_cc_v.Stats.Counters.{Counters}
use rust_solana_cc_v.Stats.Histories.{
  StatCall, synced, buy_confirmed, buy_failed, sell_failed, closed, restarted, is_win, is_loss,
  is_flat, bit, is_buy_confirmed, is_buy_failed, is_sell_failed, is_closed, number_of, logged,
  stat_call, stat_calls,
}
use rust_solana_cc_v.Stats.Bumps.{
  FitU64, bump, bump_none, logged-nil, logged-cons, logged-FitU64, confirmed-Counts, failed-Counts,
  sell_failed-Counts, outcome-Counts, Counts,
}
use rust_solana_cc_v.Stats.Refines.{
  count_in, IsSound, persist-IsSound, collect-IsKeyed, update-IsSound, update-own, update-other,
}
use rust_solana_cc_v.Stats.Syncs.{sync_each-IsKeyed, sync_each-counters}

one_more : (a b : ℕ) → (a + (b + 0)) % u64_mod ≡ (a + b) % u64_mod
one_more a b = omega arith

module _ {R : Type 0} where
  logged-one :
      (id : Str) (c : Counters) (e : StatCall R)
      → logged id c (e ∷ [])
        ≡ bump c
            (bit (is_buy_confirmed id e))
            (bit (is_buy_failed id e))
            (bit (is_sell_failed id e))
            (bit (is_closed id (λ o. true) e))
            (bit (is_closed id is_win e))
            (bit (is_closed id is_loss e))
            (bit (is_closed id is_flat e))
  unfolding logged number_of bump
  logged-one id c e = λ i. record {
    buys_confirmed = one_more c.buys_confirmed (bit (is_buy_confirmed id e)) i;
    buys_failed = one_more c.buys_failed (bit (is_buy_failed id e)) i;
    sells_failed = one_more c.sells_failed (bit (is_sell_failed id e)) i;
    closed = one_more c.closed (bit (is_closed id (λ o. true) e)) i;
    won = one_more c.won (bit (is_closed id is_win e)) i;
    lost = one_more c.lost (bit (is_closed id is_loss e)) i;
    even = one_more c.even (bit (is_closed id is_flat e)) i;
  }

module _ {R : Type 0} ⦃f : F64 R⦄ where
  -- A call that updates the summary of `k` counts for the group what the log does.
  module _ (gs : GroupManager R) (k name : Str) (now : ℕ)
      (change : GroupPerformanceSummary R → GroupPerformanceSummary R) (g : Counters → Counters)
      (keeps_id : (s : GroupPerformanceSummary R) → (change s).group_id ≡ s.group_id)
      (counts : Counts change g) (e : StatCall R) where
    update-logged :
        (id : Str) (s : GroupPerformanceStore R)
        → FitU64 (count_in id s)
        → ((c : Counters) → str_eq k id ≡ true → logged id c (e ∷ []) ≡ g c)
        → ((c : Counters) → str_eq k id ≡ false → logged id c (e ∷ []) ≡ bump c 0 0 0 0 0 0 0)
        → count_in id (update_summary gs k name now change s) ≡ logged id (count_in id s) (e ∷ [])
    update-logged id s h own none_counted = elim (Str-discrete k id) [
      | yes same ↦
          let fits = subst (λ j. FitU64 (count_in j s)) (sym same) h in
          let at_k = update-own gs k name now change g keeps_id counts s fits in
          subst (λ j. count_in j (update_summary gs k name now change s) ≡ g (count_in j s)) same
            at_k
          ∙ sym (own (count_in id s) ((str_eq_iff k id).1 same))
      | no other ↦
          let missed : str_eq k id ≡ false = ground (arith, str_eq_iff k id) in
          update-other gs k name now change g keeps_id counts id s other
          ∙ sym (bump_none (count_in id s) h)
          ∙ sym (none_counted (count_in id s) missed)
    ]

  keeps_confirmed :
      (now : ℕ) (s : GroupPerformanceSummary R) → (count_buy_confirmed now s).group_id ≡ s.group_id
  unfolding count_buy_confirmed touch
  keeps_confirmed now s = refl

  keeps_failed :
      (now : ℕ) (s : GroupPerformanceSummary R) → (count_buy_failed now s).group_id ≡ s.group_id
  unfolding count_buy_failed touch
  keeps_failed now s = refl

  keeps_sell_failed :
      (now : ℕ) (s : GroupPerformanceSummary R) → (count_sell_failed now s).group_id ≡ s.group_id
  unfolding count_sell_failed touch
  keeps_sell_failed now s = refl

  keeps_closed :
      (o : TradeOutcome) (trade : ClosedTradeRecord R) (now : ℕ) (s : GroupPerformanceSummary R)
      → (touch now (count_outcome o (average_trade trade s))).group_id ≡ s.group_id
  unfolding count_outcome average_trade touch
  keeps_closed win trade now s = refl
  keeps_closed loss trade now s = refl
  keeps_closed flat trade now s = refl

  stat_call-logged :
      (id : Str) (e : StatCall R) (s : GroupPerformanceStore R)
      → IsSound s
      → FitU64 (count_in id s)
      → count_in id (stat_call e s) ≡ logged id (count_in id s) (e ∷ [])
  unfolding stat_call sync_groups persist record_buy_confirmed record_buy_failed record_sell_failed
      record_closed_trade count_closed_trade load_or_default
  stat_call-logged id (synced gs now) s sound h =
      sync_each-counters id now (all_groups gs) s.summaries
      ∙ sym (logged-one id (count_in id s) (synced gs now) ∙ bump_none (count_in id s) h)
  stat_call-logged id (buy_confirmed gs k name now) s sound h =
      let e = buy_confirmed gs k name now in
      update-logged gs k name now (count_buy_confirmed now) (λ c. bump c 1 0 0 0 0 0 0)
        (keeps_confirmed now) (confirmed-Counts now) e id s h
        (λ c is. logged-one id c e ∙ ap (λ b. bump c (bit b) 0 0 0 0 0 0) is)
        (λ c is. logged-one id c e ∙ ap (λ b. bump c (bit b) 0 0 0 0 0 0) is)
  stat_call-logged id (buy_failed gs k name now) s sound h =
      let e = buy_failed gs k name now in
      update-logged gs k name now (count_buy_failed now) (λ c. bump c 0 1 0 0 0 0 0)
        (keeps_failed now) (failed-Counts now) e id s h
        (λ c is. logged-one id c e ∙ ap (λ b. bump c 0 (bit b) 0 0 0 0 0) is)
        (λ c is. logged-one id c e ∙ ap (λ b. bump c 0 (bit b) 0 0 0 0 0) is)
  stat_call-logged id (sell_failed gs k name now) s sound h =
      let e = sell_failed gs k name now in
      update-logged gs k name now (count_sell_failed now) (λ c. bump c 0 0 1 0 0 0 0)
        (keeps_sell_failed now) (sell_failed-Counts now) e id s h
        (λ c is. logged-one id c e ∙ ap (λ b. bump c 0 0 (bit b) 0 0 0 0) is)
        (λ c is. logged-one id c e ∙ ap (λ b. bump c 0 0 (bit b) 0 0 0 0) is)
  stat_call-logged id (closed gs trade now) s sound h =
      let e = closed gs trade now in
      let o = trade.outcome in
      let counted = λ (c : Counters) (b : Bool).
        bump c 0 0 0 (bit (b && true)) (bit (b && is_win o)) (bit (b && is_loss o))
          (bit (b && is_flat o)) in
      let s' = record s { history_file = s.history_file ++ trade ∷ [] } in
      update-logged gs trade.group_id trade.group_name now (count_closed_trade trade now)
        (λ c. bump c 0 0 0 1 (bit (is_win o)) (bit (is_loss o)) (bit (is_flat o)))
        (keeps_closed o trade now) (outcome-Counts o trade now) e id s' h
        (λ c is. logged-one id c e ∙ ap (counted c) is)
        (λ c is. logged-one id c e ∙ ap (counted c) is)
  stat_call-logged id restarted s sound h =
      sound.saved id ∙ sym (logged-one id (count_in id s) restarted ∙ bump_none (count_in id s) h)

  stat_call-IsSound :
      (e : StatCall R) (s : GroupPerformanceStore R) → IsSound s → IsSound (stat_call e s)
  unfolding stat_call sync_groups record_buy_confirmed record_buy_failed record_sell_failed
      record_closed_trade count_closed_trade load_or_default
  stat_call-IsSound (synced gs now) s h =
      persist-IsSound gs (record s { summaries = sync_each now (all_groups gs) s.summaries })
        (sync_each-IsKeyed now (all_groups gs) s.summaries h.keyed)
  stat_call-IsSound (buy_confirmed gs k name now) s h =
      update-IsSound gs k name now (count_buy_confirmed now) (λ c. bump c 1 0 0 0 0 0 0)
        (keeps_confirmed now) (confirmed-Counts now) s h
  stat_call-IsSound (buy_failed gs k name now) s h =
      update-IsSound gs k name now (count_buy_failed now) (λ c. bump c 0 1 0 0 0 0 0)
        (keeps_failed now) (failed-Counts now) s h
  stat_call-IsSound (sell_failed gs k name now) s h =
      update-IsSound gs k name now (count_sell_failed now) (λ c. bump c 0 0 1 0 0 0 0)
        (keeps_sell_failed now) (sell_failed-Counts now) s h
  stat_call-IsSound (closed gs trade now) s h =
      let o = trade.outcome in
      update-IsSound gs trade.group_id trade.group_name now (count_closed_trade trade now)
        (λ c. bump c 0 0 0 1 (bit (is_win o)) (bit (is_loss o)) (bit (is_flat o)))
        (keeps_closed o trade now) (outcome-Counts o trade now)
        (record s { history_file = s.history_file ++ trade ∷ [] })
        (record { keyed = h.keyed; saved = h.saved })
  stat_call-IsSound restarted s h = record {
    keyed = collect-IsKeyed (items_of s.stats_file) [] tt;
    saved = λ id. refl;
  }

  -- From a store whose file counts what it counts, as a new store and one just loaded do, the counters
  -- of every group after any history of calls and restarts are, as `u64`, those before it and what the
  -- calls of the history for the group count: its buys, its failures, its closed trades and their
  -- outcomes.
  pub stat_calls-logged :
      (id : Str) (es : List (StatCall R)) (s : GroupPerformanceStore R)
      → IsSound s
      → FitU64 (count_in id s)
      → count_in id (stat_calls es s) ≡ logged id (count_in id s) es
  unfolding stat_calls
  stat_calls-logged id [] s sound h = sym (logged-nil R id (count_in id s) h)
  stat_calls-logged id (e ∷ es) s sound h =
      let step = stat_call-logged id e s sound h in
      let c = logged id (count_in id s) (e ∷ []) in
      let fits = subst FitU64 (sym step) (logged-FitU64 id (count_in id s) (e ∷ [])) in
      stat_calls-logged id es (stat_call e s) (stat_call-IsSound e s sound) fits
      ∙ ap (λ x. logged id x es) step
      ∙ logged-cons id (count_in id s) e es
