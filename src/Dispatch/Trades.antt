-- ===== src/Dispatch/Trades.antt =====
-- copy-trader-v1.6.63/src/main.rs: the body of the loop over the detected trades, which joins the
-- signature cache, the groups, the positions and the consensus engine. What it sends to other tasks is
-- the list of its effects; the lines of the log are left out.
use rust_solana_cc_v.Prelude.{
  ℕ, ◌+◌, Bool, true, false, ◌&&◌, not, Option, none, some, List, [], ◌∷◌, ◌++◌, ltb, leb, ◌==◌,
  if◌then◌else◌, is_empty, retain, Str, Pubkey,
}
use rust_solana_cc_v.Float.{F64}
use rust_solana_cc_v.Trade.{TradeOrigin}
use rust_solana_cc_v.Consensus.Signals.{BuySignal, ConsensusTrigger}
use rust_solana_cc_v.Consensus.Engine.{ConsensusEngine, submit_signal, reject_signal}
use rust_solana_cc_v.Groups.Group.{
  CopyGroup, entry_mode_smart_buy, follow_sell_mode, buy_on_smart_buy, buy_on_smart_sell,
  min_target_buy_lamports,
}
use rust_solana_cc_v.Groups.Manager.{GroupManager, groups_for_wallet}
use rust_solana_cc_v.Groups.Changes.{is_blocked}
use rust_solana_cc_v.Position.State.{follow_sell, key, can_sell, max_sell_attempts_reached}
use rust_solana_cc_v.Position.Prices.{pnl_percent}
use rust_solana_cc_v.Manager.Store.{AutoSellManager, lookup}
use rust_solana_cc_v.Manager.Exit.{SellSignal, max_auto_sell_signal_attempts}
use rust_solana_cc_v.Dedup.Signatures.{SignatureCache, should_skip_signature}
use rust_solana_cc_v.Stream.Types.{DetectedTrade}
use rust_solana_cc_v.Dispatch.Tokens.{extract_token_info}

-- The arguments of `spawn_buy_execution` that depend on the trade.
pub record BuyOrder (R : Type 0) : Type 0 where
  pub group : CopyGroup R
  pub token_mint : Pubkey
  pub wallets : List Pubkey
  pub trade_origin : TradeOrigin
  pub detected_at : ℕ
  pub zero_slot_buy_enabled : Bool
  pub instruction_data : List ℕ

-- What is sent to other tasks: a request to warm the caches, a signal to sell, a buy of one wallet, and
-- a trigger of the consensus engine.
pub data Effect (R : Type 0) : Type 0 where
  caches_warmed : Pubkey → Pubkey → Effect R
  sale_signalled : SellSignal R → Effect R
  buy_started : BuyOrder R → Effect R
  triggered : ConsensusTrigger → Effect R

-- What the loop keeps between trades.
pub record Dispatcher : Type 0 where
  pub grpc_events : ℕ
  pub sig_cache : SignatureCache
  pub consensus_engine : ConsensusEngine

module _ {R : Type 0} where
  unfoldable pub wants_entry : Bool → CopyGroup R → Bool
  wants_entry is_buy g = if is_buy then buy_on_smart_buy g else buy_on_smart_sell g

  abbrev pub any_wants : Bool → List (CopyGroup R) → Bool
  any_wants is_buy [] = false
  any_wants is_buy (g ∷ gs) = if wants_entry is_buy g then true else any_wants is_buy gs

  unfoldable pub buy_signal : DetectedTrade → Pubkey → Pubkey → List ℕ → CopyGroup R → BuySignal
  buy_signal trade mint token_program target_instruction_data g = record {
    group_id = g.id;
    group_name = g.name;
    token_mint = mint;
    wallet = trade.source_wallet;
    token_program = token_program;
    detected_at = trade.detected_at;
    signature = trade.signature;
    consensus_min_wallets = g.consensus_min_wallets;
    consensus_timeout_secs = g.consensus_timeout_secs;
    instruction_data = target_instruction_data;
    instruction_accounts = trade.instruction_accounts;
    sol_amount_lamports = trade.sol_amount_lamports;
    is_pre_execution = trade.is_pre_execution;
    trade_origin = trade.trade_origin;
  }

  abbrev pub trigger_effects : Option ConsensusTrigger → List (Effect R)
  trigger_effects none = []
  trigger_effects (some t) = triggered t ∷ []

module _ {R : Type 0} ⦃f : F64 R⦄ where
  abbrev pub too_small : DetectedTrade → CopyGroup R → Bool
  too_small trade g =
      ltb 0 (min_target_buy_lamports g)
      && (ltb 0 trade.sol_amount_lamports
          && ltb trade.sol_amount_lamports (min_target_buy_lamports g))

  -- One group that enters: now and at the time of a trigger.
  unfoldable pub enter_group :
      ℕ
      → ℕ
      → Bool
      → DetectedTrade
      → Pubkey
      → Pubkey
      → CopyGroup R
      → ConsensusEngine
      → ConsensusEngine × List (Effect R)
  unfolding buy_signal
  enter_group now triggered_at zero_slot_buy_enabled trade mint token_program g engine =
      let target_instruction_data =
        if g.entry_mode == entry_mode_smart_buy then trade.instruction_data else [] in
      if too_small trade g
      then (engine, [])
      else (if leb g.consensus_min_wallets 1
          then (if trade.execution_failed then (engine, []) else (
            engine,
            buy_started (record {
              group = g;
              token_mint = mint;
              wallets = trade.source_wallet ∷ [];
              trade_origin = trade.trade_origin;
              detected_at = trade.detected_at;
              zero_slot_buy_enabled = zero_slot_buy_enabled;
              instruction_data = target_instruction_data;
            })
                ∷ [],
          ))
          else (if trade.execution_failed
              then (
                (reject_signal (record { group_id = g.id; token_mint = mint }) trade.source_wallet
                    trade.signature engine).0,
                [],
              )
              else (let (engine', sent) =
                    submit_signal now triggered_at
                      (buy_signal trade mint token_program target_instruction_data g) engine in
                  (engine', trigger_effects sent))))

  unfoldable pub enter_groups :
      ℕ
      → ℕ
      → Bool
      → DetectedTrade
      → Pubkey
      → Pubkey
      → List (CopyGroup R)
      → ConsensusEngine
      → ConsensusEngine × List (Effect R)
  unfolding enter_group
  enter_groups now triggered_at zero_slot trade mint program [] engine = (engine, [])
  enter_groups now triggered_at zero_slot trade mint program (g ∷ gs) engine =
      let (engine', sent) = enter_group now triggered_at zero_slot trade mint program g engine in
      let (engine'', more) =
        enter_groups now triggered_at zero_slot trade mint program gs engine' in
      (engine'', sent ++ more)

module _ {R : Type 0} ⦃f : F64 R⦄ (positions : AutoSellManager R) where
  -- `get_position_by_group_mint`, and the signal to sell with the wallet.
  unfoldable pub follow_sale : DetectedTrade → Pubkey → CopyGroup R → List (Effect R)
  follow_sale trade mint g =
      if not trade.execution_failed && (not trade.is_buy && follow_sell_mode g)
      then elim (lookup (record { group_id = g.id; token_mint = mint }) positions) [
        | none ↦ []
        | some position ↦
            if can_sell position
              && not (max_sell_attempts_reached max_auto_sell_signal_attempts position)
            then sale_signalled (record {
              position_key = key position;
              group_name = g.name;
              reason = follow_sell;
              current_price = position.current_price;
              pnl_percent = pnl_percent position;
            })
              ∷ []
            else []
      ]
      else []

  unfoldable pub follow_sales : DetectedTrade → Pubkey → List (CopyGroup R) → List (Effect R)
  unfolding follow_sale
  follow_sales trade mint [] = []
  follow_sales trade mint (g ∷ gs) = follow_sale trade mint g ++ follow_sales trade mint gs

  -- What follows when the token is known and not blocked.
  unfoldable pub copy_trade :
      ℕ
      → ℕ
      → GroupManager R
      → DetectedTrade
      → Pubkey
      → Pubkey
      → List (CopyGroup R)
      → Dispatcher
      → Dispatcher × List (Effect R)
  unfolding follow_sales enter_groups
  copy_trade now triggered_at groups trade mint program matching d =
      let warmed =
        if any_wants trade.is_buy matching then caches_warmed mint program ∷ [] else [] in
      let (engine, sent) =
        enter_groups now triggered_at groups.zero_slot_buy_enabled trade mint program
          (retain (wants_entry trade.is_buy) matching) d.consensus_engine in
      (record d { consensus_engine = engine }, warmed ++ follow_sales trade mint matching ++ sent)

  unfoldable pub handle_trade :
      (Str → Pubkey)
      → ℕ
      → ℕ
      → Bool
      → GroupManager R
      → DetectedTrade
      → Dispatcher
      → Dispatcher × List (Effect R)
  unfolding copy_trade
  handle_trade from_str now triggered_at is_running groups trade d =
      let (cache, skip) =
        should_skip_signature now
          (record { signature = trade.signature; is_pre_execution = trade.is_pre_execution })
          d.sig_cache in
      let seen = record d { grpc_events = d.grpc_events + 1; sig_cache = cache } in
      let matching = groups_for_wallet trade.source_wallet groups in
      if not is_running
      then (d, [])
      else (if skip
          then (seen, [])
          else (if is_empty matching then (seen, []) else elim (extract_token_info from_str trade) [
            | none ↦ (seen, [])
            | some token ↦
                if is_blocked token.0 groups
                then (seen, [])
                else copy_trade now triggered_at groups trade token.0 token.1 matching seen
          ]))
