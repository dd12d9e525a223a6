-- ===== src/Tests/Dispatched.antt =====
-- A trade of a wallet that one group follows alone and another one with a second wallet, which has voted.
use rust_solana_cc_v.Prelude.{
  ℕ, ◌≡◌, true, false, none, some, List, [], ◌∷◌, refl, length, get, insert, codes, Str-discrete,
  ℕ_discrete, All,
}
use rust_solana_cc_v.Trade.{pumpfun, direct}
use rust_solana_cc_v.Consensus.Signals.{
  find_wallet, tally_votes, should_trigger, max_by_key, counts_for_candidate_consensus,
}
use rust_solana_cc_v.Consensus.Engine.{
  ConsensusKey-discrete, submit_signal, submit_entry, conclude, new_entry,
}
use rust_solana_cc_v.Consensus.Runs.{Call, submits, run, step, run-IsValid}
use rust_solana_cc_v.Groups.Ids.{str_leb}
use rust_solana_cc_v.Groups.Group.{CopyGroup, buy_on_smart_buy, min_target_buy_lamports}
use rust_solana_cc_v.Groups.Manager.{GroupManager, insert_by_id, all_groups_of, groups_for_wallet}
use rust_solana_cc_v.Dedup.Signatures.{skip_entry, should_skip_signature}
use rust_solana_cc_v.Stream.Types.{DetectedTrade}
use rust_solana_cc_v.Dispatch.Tokens.{extract_token_info}
use rust_solana_cc_v.Dispatch.Trades.{
  wants_entry, follow_sale, follow_sales, enter_group, enter_groups, copy_trade, Dispatcher,
  handle_trade, buy_signal,
}
use rust_solana_cc_v.Dispatch.Allowed.{is_repeated, IsAllowed, handle_trade-IsAllowed}
use rust_solana_cc_v.Tests.Samples.{whole, group, manager}

abbrev alone : CopyGroup ℕ
alone = record group { consensus_min_wallets = 1 }

abbrev groups : GroupManager ℕ
groups = record {
  groups = (codes "g1", alone) ∷ (codes "g2", record group { id = codes "g2" }) ∷ [];
  selected_group_id = some (codes "g1");
  blocklist = [];
  zero_slot_buy_enabled = false;
  file = none;
}

abbrev trade : DetectedTrade
trade = record {
  signature = codes "signature";
  source_wallet = 11;
  trade_type = pumpfun;
  trade_origin = direct;
  is_buy = true;
  program_id = 54;
  instruction_data = [];
  instruction_accounts = [];
  all_account_keys = 11 ∷ 54 ∷ [];
  detected_at = 3;
  sol_amount_lamports = 500;
  raw_transaction_bytes = [];
  is_pre_execution = false;
  execution_failed = false;
  token_mint = some 90;
  token_program = some 7;
}

-- The vote of the wallet 12, a nanosecond before the trade.
abbrev votes : List Call
votes =
    submits 2 2 (record {
      group_id = codes "g2";
      group_name = codes "group-1";
      token_mint = 90;
      wallet = 12;
      token_program = 7;
      detected_at = 2;
      signature = codes "earlier";
      consensus_min_wallets = 2;
      consensus_timeout_secs = 60;
      instruction_data = [];
      instruction_accounts = [];
      sol_amount_lamports = 400;
      is_pre_execution = false;
      trade_origin = direct;
    })
    ∷ []

abbrev waiting : Dispatcher
waiting = record { grpc_events = 0; sig_cache = []; consensus_engine = (run [] votes).0 }

handle_trade-IsAllowed_example :
    All
      (λ e.
        (true ≡ true)
        × (is_repeated ⦃f = whole⦄ manager groups trade (λ s. 7) 5 waiting ≡ false)
        × IsAllowed ⦃f = whole⦄ manager groups trade (λ s. 7) 5 e)
      (handle_trade ⦃f = whole⦄ manager (λ s. 7) 5 6 true groups trade waiting).1
handle_trade-IsAllowed_example =
    handle_trade-IsAllowed ⦃f = whole⦄ manager groups trade (λ s. 7) 5 6 true waiting
      (run-IsValid votes)

-- The caches are warmed, one buy is started, and the second vote sends a trigger.
three_effects :
    length (handle_trade ⦃f = whole⦄ manager (λ s. 7) 5 6 true groups trade waiting).1 ≡ 3
unfolding handle_trade should_skip_signature skip_entry get insert groups_for_wallet all_groups_of
    insert_by_id extract_token_info copy_trade follow_sales follow_sale enter_groups enter_group
    wants_entry buy_on_smart_buy min_target_buy_lamports Str-discrete ℕ_discrete run step
    submit_signal submit_entry conclude new_entry find_wallet tally_votes should_trigger max_by_key
    counts_for_candidate_consensus ConsensusKey-discrete str_leb buy_signal
three_effects = refl
