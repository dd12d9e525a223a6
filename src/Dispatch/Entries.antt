-- ===== src/Dispatch/Entries.antt =====
-- copy-trader-v1.6.63/src/main.rs: the groups that enter with a detected trade.
use rust_solana_cc_v.Prelude.{
  ℕ, true, ◌≡◌, refl, List, [], ◌∷◌, ◌++◌, arith, Pubkey, All, All-append, All-retain, retain-All,
  if_cases, retain, leb, get, if◌then◌else◌,
}
use rust_solana_cc_v.Float.{F64}
use rust_solana_cc_v.Consensus.Engine.{
  ConsensusKey-discrete, ConsensusEngine, key_of, or_insert, submit_entry, submit_signal,
}
use rust_solana_cc_v.Consensus.Runs.{
  EngineValid, submits, rejects, step, or_insert-IsValid, step-EngineValid,
}
use rust_solana_cc_v.Groups.Group.{CopyGroup}
use rust_solana_cc_v.Groups.Manager.{GroupManager}
use rust_solana_cc_v.Manager.Store.{AutoSellManager}
use rust_solana_cc_v.Stream.Types.{DetectedTrade}
use rust_solana_cc_v.Dispatch.Trades.{
  Effect, caches_warmed, Dispatcher, wants_entry, any_wants, follow_sales, buy_signal, too_small,
  enter_group, enter_groups, copy_trade,
}
use rust_solana_cc_v.Dispatch.Due.{
  All-both, Follows, copied_instruction, IsDue, follow_sales-IsDue, warmed-IsDue,
  buy_signal-IsSignal, submitted-IsTrigger,
}

module _ {R : Type 0} ⦃f : F64 R⦄ (positions : AutoSellManager R) (groups : GroupManager R)
    (trade : DetectedTrade) (now : ℕ) (mint program : Pubkey) where
  abbrev Due : Effect R → Type 0
  Due = IsDue positions groups trade now mint program

  -- What is sent is due, and the engine stays valid.
  abbrev IsFine : ConsensusEngine × List (Effect R) → Type 0
  IsFine r = EngineValid r.0 × All Due r.1

  enter_group-IsFine :
      (at : ℕ) (g : CopyGroup R) (engine : ConsensusEngine)
      → EngineValid engine
      → Follows positions groups trade g
      → wants_entry trade.is_buy g ≡ true
      → IsFine (enter_group now at groups.zero_slot_buy_enabled trade mint program g engine)
  unfolding enter_group IsDue submit_signal step
  enter_group-IsFine at g engine v h wants =
      let s = buy_signal trade mint program (copied_instruction positions groups trade g) g in
      let e = or_insert (get ConsensusKey-discrete (key_of s) engine) s in
      if_cases IsFine (too_small trade g) (λ small. (v, tt))
        (λ large.
          if_cases IsFine (leb g.consensus_min_wallets 1)
            (λ single.
              if_cases IsFine trade.execution_failed (λ failed. (v, tt))
                (λ landed. (
                  v,
                  (
                    (
                      (h, wants, landed, large),
                      ground arith,
                      record {
                        of_token = refl;
                        of_wallet = refl;
                        origin = refl;
                        detected = refl;
                        zero_slot = refl;
                        instruction = refl;
                      },
                    ),
                    tt,
                  ),
                )))
            (λ several.
              if_cases IsFine trade.execution_failed
                (λ failed. (
                  step-EngineValid engine
                      (rejects (record { group_id = g.id; token_mint = mint }) trade.source_wallet
                        trade.signature)
                      v,
                  tt,
                ))
                (λ landed. (
                  step-EngineValid engine (submits now at s) v,
                  submitted-IsTrigger positions groups trade now mint program at g s e
                      (or_insert-IsValid (key_of s) s engine _ refl v)
                      (buy_signal-IsSignal positions groups trade now mint program g)
                      (submit_entry now at s e) refl (h, wants, landed, large) (ground arith),
                ))))

  enter_groups-IsDue :
      (at : ℕ) (gs : List (CopyGroup R)) (engine : ConsensusEngine)
      → EngineValid engine
      → All (λ g. Follows positions groups trade g × (wants_entry trade.is_buy g ≡ true)) gs
      → All Due (enter_groups now at groups.zero_slot_buy_enabled trade mint program gs engine).1
  unfolding enter_groups
  enter_groups-IsDue at [] engine v h = tt
  enter_groups-IsDue at (g ∷ gs) engine v h =
      let zero_slot = groups.zero_slot_buy_enabled in
      let first = enter_group now at zero_slot trade mint program g engine in
      let fine = enter_group-IsFine at g engine v h.0.0 h.0.1 in
      All-append Due first.1 (enter_groups now at zero_slot trade mint program gs first.0).1 fine.1
        (enter_groups-IsDue at gs first.0 fine.0 h.1)

  pub copy_trade-IsDue :
      (at : ℕ) (gs : List (CopyGroup R)) (d : Dispatcher)
      → EngineValid d.consensus_engine
      → All (Follows positions groups trade) gs
      → All Due (copy_trade positions now at groups trade mint program gs d).1
  unfolding copy_trade
  copy_trade-IsDue at gs d v h =
      let entering = retain (wants_entry trade.is_buy) gs in
      let warmed : List (Effect R) =
        if any_wants trade.is_buy gs then caches_warmed mint program ∷ [] else [] in
      let sales = follow_sales positions trade mint gs in
      let entered =
        enter_groups now at groups.zero_slot_buy_enabled trade mint program entering
          d.consensus_engine in
      let wanting =
        All-both (Follows positions groups trade) (λ g. wants_entry trade.is_buy g ≡ true) entering
          (All-retain (Follows positions groups trade) (wants_entry trade.is_buy) gs h)
          (retain-All (wants_entry trade.is_buy) gs) in
      All-append Due (warmed ++ sales) entered.1
        (All-append Due warmed sales
          (if_cases (All Due) (any_wants trade.is_buy gs)
            (λ any. (warmed-IsDue positions groups trade now mint program gs h any, tt))
            (λ none_wants. tt))
          (follow_sales-IsDue positions groups trade now mint program gs h))
        (enter_groups-IsDue at entering d.consensus_engine v wanting)
