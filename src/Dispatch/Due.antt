-- ===== src/Dispatch/Due.antt =====
-- copy-trader-v1.6.63/src/main.rs: what a detected trade may set off.
use mathlib.Core.Path.{subst}
use rust_solana_cc_v.Prelude.{
  ℕ, ◌≤◌, ◌<◌, ◌∙◌, true, false, ◌&&◌, not, ◌≡◌, inl, inr, refl, Option, none, some, List, [], ◌∷◌,
  arith, Pubkey, All, All-append, Elem, if_cases, Option-cases, Bool-cases, ◌==◌, if◌then◌else◌,
}
use rust_solana_cc_v.Float.{F64}
use rust_solana_cc_v.Consensus.Signals.{BuySignal, ConsensusTrigger, TokenSignals}
use rust_solana_cc_v.Consensus.Engine.{submit_entry}
use rust_solana_cc_v.Consensus.Invariant.{IsValid}
use rust_solana_cc_v.Consensus.Wallets.{Distinct}
use rust_solana_cc_v.Consensus.Quorum.{Quorum, submit_entry-Quorum}
use rust_solana_cc_v.Consensus.Deciding.{submit_entry-voter}
use rust_solana_cc_v.Groups.Group.{CopyGroup, entry_mode_smart_buy, follow_sell_mode}
use rust_solana_cc_v.Groups.Manager.{GroupManager, member, all_groups}
use rust_solana_cc_v.Position.State.{
  Position, key, can_sell, max_sell_attempts_reached, follow_sell,
}
use rust_solana_cc_v.Manager.Exit.{SellSignal, max_auto_sell_signal_attempts}
use rust_solana_cc_v.Manager.Store.{AutoSellManager, lookup}
use rust_solana_cc_v.Stream.Types.{DetectedTrade}
use rust_solana_cc_v.Dispatch.Trades.{
  BuyOrder, Effect, caches_warmed, sale_signalled, buy_started, triggered, wants_entry, any_wants,
  follow_sale, follow_sales, buy_signal, too_small, trigger_effects,
}

pub All-both {ℓ κ ι} :
    {A : Type ℓ} (P : A → Type κ) (Q : A → Type ι) (xs : List A)
    → All P xs
    → All Q xs
    → All (λ a. P a × Q a) xs
All-both P Q [] h k = tt
All-both P Q (x ∷ xs) h k = ((h.0, k.0), All-both P Q xs h.1 k.1)

module _ {R : Type 0} ⦃f : F64 R⦄ (positions : AutoSellManager R) (groups : GroupManager R)
    (trade : DetectedTrade) where
  -- An enabled group that has the trade's wallet.
  abbrev pub Follows : CopyGroup R → Type 0
  Follows g =
      Elem g (all_groups groups) × ((g.enabled && member trade.source_wallet g.wallets) ≡ true)

  -- A group that enters with the trade, which has not failed and is large enough for it.
  abbrev pub Enters : CopyGroup R → Type 0
  Enters g =
      Follows g
      × (wants_entry trade.is_buy g ≡ true)
      × (trade.execution_failed ≡ false)
      × (too_small trade g ≡ false)

  -- The instruction that is copied: the target's, if the group enters as its wallets do.
  abbrev pub copied_instruction : CopyGroup R → List ℕ
  copied_instruction g = if g.entry_mode == entry_mode_smart_buy then trade.instruction_data else []

  module _ (now : ℕ) (mint program : Pubkey) where
    -- The signal says of the group that it votes for it, and of the trade what the trade is.
    pub record IsSignal (g : CopyGroup R) (s : BuySignal) : Type 0 where
      pub of_group : s.group_id ≡ g.id
      pub named : s.group_name ≡ g.name
      pub of_token : s.token_mint ≡ mint
      pub of_program : s.token_program ≡ program
      pub of_wallet : s.wallet ≡ trade.source_wallet
      pub of_trade : s.signature ≡ trade.signature
      pub detected : s.detected_at ≡ trade.detected_at
      pub threshold : s.consensus_min_wallets ≡ g.consensus_min_wallets
      pub window : s.consensus_timeout_secs ≡ g.consensus_timeout_secs
      pub instruction : s.instruction_data ≡ copied_instruction g
      pub accounts : s.instruction_accounts ≡ trade.instruction_accounts
      pub paid : s.sol_amount_lamports ≡ trade.sol_amount_lamports
      pub unexecuted : s.is_pre_execution ≡ trade.is_pre_execution
      pub origin : s.trade_origin ≡ trade.trade_origin

    -- The trigger has the group's id and the token, lists the trade's wallet among different wallets, and
    -- has a quorum that the trade's signal reaches.
    pub record IsTrigger (g : CopyGroup R) (t : ConsensusTrigger) : Type 0 where
      pub of_group : t.group_id ≡ g.id
      pub of_token : t.token_mint ≡ mint
      pub voter : Elem trade.source_wallet t.wallets
      pub one_vote_each : Distinct t.wallets
      pub quorum :
          (s : BuySignal) × IsSignal g s
          × (e : TokenSignals) × (e' : TokenSignals) × Quorum now s e e' t

    -- The signal is of the position of the group and the token, which can be sold.
    pub record IsSale (g : CopyGroup R) (p : Position R) (s : SellSignal R) : Type 0 where
      pub found : lookup (record { group_id = g.id; token_mint = mint }) positions ≡ some p
      pub sellable : can_sell p ≡ true
      pub attempts_left : max_sell_attempts_reached max_auto_sell_signal_attempts p ≡ false
      pub keyed : s.position_key ≡ key p
      pub named : s.group_name ≡ g.name
      pub reasoned : s.reason ≡ follow_sell
      pub priced : s.current_price ≡ p.current_price

    pub record IsOrder (order : BuyOrder R) : Type 0 where
      pub of_token : order.token_mint ≡ mint
      pub of_wallet : order.wallets ≡ trade.source_wallet ∷ []
      pub origin : order.trade_origin ≡ trade.trade_origin
      pub detected : order.detected_at ≡ trade.detected_at
      pub zero_slot : order.zero_slot_buy_enabled ≡ groups.zero_slot_buy_enabled
      pub instruction : order.instruction_data ≡ copied_instruction order.group

    unfoldable pub IsDue : Effect R → Type 0
    IsDue (caches_warmed m token_program) =
        (m ≡ mint)
        × (token_program ≡ program)
        × (g : CopyGroup R) × Follows g
        × (wants_entry trade.is_buy g ≡ true)
    IsDue (sale_signalled s) =
        (trade.is_buy ≡ false)
        × (trade.execution_failed ≡ false)
        × (g : CopyGroup R) × Follows g
        × (follow_sell_mode g ≡ true)
        × (p : Position R) × IsSale g p s
    IsDue (buy_started order) =
        Enters order.group × (order.group.consensus_min_wallets ≤ 1) × IsOrder order
    IsDue (triggered t) =
        (g : CopyGroup R) × Enters g × (1 < g.consensus_min_wallets) × IsTrigger g t

    follow_sale-IsDue :
        (g : CopyGroup R) → Follows g → All IsDue (follow_sale positions trade mint g)
    unfolding follow_sale IsDue
    follow_sale-IsDue g h =
        if_cases (All IsDue)
          (not trade.execution_failed && (not trade.is_buy && follow_sell_mode g))
          (λ wants.
            elim (Option-cases (lookup (record { group_id = g.id; token_mint = mint }) positions)) [
              | inl e ↦ rw e tt
              | inr (p, e) ↦ rw e (
                  if_cases (All IsDue)
                    (can_sell p && not (max_sell_attempts_reached max_auto_sell_signal_attempts p))
                    (λ sellable. (
                      (
                        ground arith,
                        ground arith,
                        g,
                        h,
                        ground arith,
                        p,
                        record {
                          found = e;
                          sellable = ground arith;
                          attempts_left = ground arith;
                          keyed = refl;
                          named = refl;
                          reasoned = refl;
                          priced = refl;
                        },
                      ),
                      tt,
                    ))
                    (λ unsellable. tt))
            ])
          (λ not_now. tt)

    pub follow_sales-IsDue :
        (gs : List (CopyGroup R))
        → All Follows gs
        → All IsDue (follow_sales positions trade mint gs)
    unfolding follow_sales
    follow_sales-IsDue [] h = tt
    follow_sales-IsDue (g ∷ gs) h =
        All-append IsDue (follow_sale positions trade mint g) (follow_sales positions trade mint gs)
          (follow_sale-IsDue g h.0) (follow_sales-IsDue gs h.1)

    pub warmed-IsDue :
        (gs : List (CopyGroup R))
        → All Follows gs
        → any_wants trade.is_buy gs ≡ true
        → IsDue (caches_warmed mint program)
    unfolding IsDue
    warmed-IsDue [] h any = cc any
    warmed-IsDue (g ∷ gs) h any = elim (Bool-cases (wants_entry trade.is_buy g)) [
      | inl wants ↦ (refl, refl, g, h.0, wants)
      | inr not_this ↦ warmed-IsDue gs h.1 (ground arith)
    ]

    pub buy_signal-IsSignal :
        (g : CopyGroup R) → IsSignal g (buy_signal trade mint program (copied_instruction g) g)
    unfolding buy_signal
    buy_signal-IsSignal g = record {
      of_group = refl;
      named = refl;
      of_token = refl;
      of_program = refl;
      of_wallet = refl;
      of_trade = refl;
      detected = refl;
      threshold = refl;
      window = refl;
      instruction = refl;
      accounts = refl;
      paid = refl;
      unexecuted = refl;
      origin = refl;
    }

    -- What the entry of the signal sends is a trigger of the group.
    pub submitted-IsTrigger :
        (at : ℕ) (g : CopyGroup R) (s : BuySignal) (e : TokenSignals)
        → IsValid e
        → IsSignal g s
        → (r : TokenSignals × Option ConsensusTrigger) → submit_entry now at s e ≡ r
        → Enters g
        → 1 < g.consensus_min_wallets
        → All IsDue (trigger_effects r.1)
    unfolding IsDue
    submitted-IsTrigger at g s e v is (e', none) h enters several = tt
    submitted-IsTrigger at g s e v is (e', some t) h enters several =
        let q = submit_entry-Quorum now at s e v h in
        (
          (
            g,
            enters,
            several,
            record {
              of_group = q.of_group ∙ is.of_group;
              of_token = q.of_token ∙ is.of_token;
              voter =
                  subst (λ w. Elem w t.wallets) is.of_wallet (submit_entry-voter now at s e v h);
              one_vote_each = q.one_vote_each;
              quorum = (s, is, e, e', q);
            },
          ),
          tt,
        )
