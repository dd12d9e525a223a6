-- ===== src/Tests/Engine.antt =====
-- The consensus engine on the signals of two wallets.
use rust_solana_cc_v.Prelude.{
  ◌+◌, ◌≡◌, ◌≤◌, refl, inl, true, false, none, some, List, [], ◌∷◌, arith, if◌then◌else◌, is_empty,
  retain, codes,
}
use rust_solana_cc_v.Trade.{direct}
use rust_solana_cc_v.Consensus.Signals.{
  BuySignal, ConsensusTrigger, TokenSignals, counts_for_candidate_consensus, find_wallet,
  should_trigger, tally_votes, max_by_key, make_trigger, min_by_key, canonical_score, is_live,
}
use rust_solana_cc_v.Consensus.Engine.{ConsensusKey, submit_entry, reject_entry, cleanup_entry}
use rust_solana_cc_v.Consensus.Invariant.{IsValid}
use rust_solana_cc_v.Consensus.Quorum.{Quorum, submit_entry-Quorum}
use rust_solana_cc_v.Consensus.Runs.{
  Call, submits, cleans, EngineValid, run, run-IsValid, triggers, reopenings,
}
use rust_solana_cc_v.Consensus.Once.{triggers-le-reopenings}
use rust_solana_cc_v.Consensus.Retract.{reject_entry_silent, cleanup_entry_lem}

abbrev first_vote : BuySignal
first_vote = record {
  group_id = codes "g1";
  group_name = codes "group-1";
  token_mint = 7;
  wallet = 11;
  token_program = 24;
  detected_at = 0;
  signature = codes "a";
  consensus_min_wallets = 2;
  consensus_timeout_secs = 60;
  instruction_data = [];
  instruction_accounts = [];
  sol_amount_lamports = 5;
  is_pre_execution = false;
  trade_origin = direct;
}

abbrev second_vote : BuySignal
second_vote = record first_vote {
  wallet = 12;
  detected_at = 9;
  signature = codes "b";
  instruction_accounts = 3 ∷ [];
}

abbrev waiting : TokenSignals
waiting = record { signals = first_vote ∷ []; triggered = false; min_wallets = 2; timeout = 60 }

abbrev trigger : ConsensusTrigger
trigger = record {
  group_id = codes "g1";
  group_name = codes "group-1";
  token_mint = 7;
  wallets = 11 ∷ 12 ∷ [];
  first_signature = codes "a";
  canonical_signature = codes "b";
  canonical_wallet = 12;
  canonical_token_program = 24;
  canonical_instruction_data = [];
  canonical_instruction_accounts = 3 ∷ [];
  canonical_trade_origin = direct;
  triggered_at = 9;
}

abbrev full : TokenSignals
full = record waiting { signals = first_vote ∷ second_vote ∷ []; triggered = true }

engine : Unit {0}
unfolding submit_entry reject_entry counts_for_candidate_consensus find_wallet should_trigger
    tally_votes max_by_key make_trigger min_by_key canonical_score
engine = tt

waiting-IsValid : IsValid waiting
unfolding engine
waiting-IsValid = record { distinct = (tt, tt); settled = λ _. inl (omega arith) }

second_vote_triggers : submit_entry 9 9 second_vote waiting ≡ (full, some trigger)
unfolding engine
second_vote_triggers = refl

submit_entry-Quorum_example : Quorum 9 second_vote waiting full trigger
submit_entry-Quorum_example =
    submit_entry-Quorum 9 9 second_vote waiting waiting-IsValid second_vote_triggers

abbrev calls : List Call
calls = submits 0 0 first_vote ∷ submits 9 9 second_vote ∷ cleans 10 ∷ []

run-IsValid_example : EngineValid (run [] calls).0
run-IsValid_example = run-IsValid calls

abbrev mint_key : ConsensusKey
mint_key = record { group_id = codes "g1"; token_mint = 7 }

triggers-le-reopenings_example : triggers mint_key (run [] calls).1 ≤ 1 + reopenings mint_key calls
triggers-le-reopenings_example = triggers-le-reopenings mint_key calls

rejection_is_silent : (reject_entry 11 (codes "a") waiting).0.triggered ≡ false
rejection_is_silent = reject_entry_silent 11 (codes "a") waiting waiting-IsValid (omega arith) refl

cleanup_entry_lem_example : cleanup_entry 200 full ≡ (
    if is_empty (retain (is_live 200 60) full.signals)
    then none
    else some (record full { signals = retain (is_live 200 60) full.signals }))
cleanup_entry_lem_example = cleanup_entry_lem 200 full
