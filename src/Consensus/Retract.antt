-- ===== src/Consensus/Retract.antt =====
-- copy-trader-v1.6.63/src/consensus/engine.rs: `reject_signal`, and the cleanup rounds.
use rust_solana_cc_v.Prelude.{
  ℕ, ◌≡◌, ◌≤◌, ◌<◌, ◌↔◌, Bool, true, false, ◌&&◌, not, none, some, List, [], ◌∷◌, arith, ◌==◌,
  if◌then◌else◌, is_empty, retain, Str, str_eq, Pubkey,
}
use rust_solana_cc_v.Consensus.Signals.{BuySignal, TokenSignals, is_live}
use rust_solana_cc_v.Consensus.Engine.{reject_entry, all_expired, cleanup_entry}
use rust_solana_cc_v.Consensus.Tally.{votes, votes-retain-le}
use rust_solana_cc_v.Consensus.Invariant.{IsValid, should_trigger-votes}

abbrev rejected : Pubkey → Str → BuySignal → Bool
rejected w sig c = c.wallet == w && str_eq c.signature sig

-- After a rejection the entry is marked exactly when the votes that are left reach the threshold.
pub reject_entry_triggered :
    (w : Pubkey) (sig : Str) (e : TokenSignals)
    → ((reject_entry w sig e).0.triggered ≡ true)
      ↔ (e.min_wallets ≤ votes (retain (λ c. not (rejected w sig c)) e.signals))
unfolding reject_entry
reject_entry_triggered w sig e =
    let eq = should_trigger-votes (retain (λ c. not (rejected w sig c)) e.signals) e.min_wallets in
    (λ h. ground arith, λ h. ground arith)

-- A rejection marks no entry that was unmarked: a quorum is announced by a trigger only.
pub reject_entry_silent :
    (w : Pubkey) (sig : Str) (e : TokenSignals)
    → IsValid e
    → 0 < e.min_wallets
    → e.triggered ≡ false
    → (reject_entry w sig e).0.triggered ≡ false
unfolding reject_entry
reject_entry_silent w sig e v pos h =
    let eq = should_trigger-votes (retain (λ c. not (rejected w sig c)) e.signals) e.min_wallets in
    ground (arith, v.settled h, votes-retain-le (λ c. not (rejected w sig c)) e.signals)

live_not_expired :
    (now timeout : ℕ) (ss : List BuySignal)
    → is_empty (retain (is_live now timeout) ss) ≡ false
    → all_expired now timeout (retain (is_live now timeout) ss) ≡ false
unfolding all_expired
live_not_expired now timeout [] h = cc
live_not_expired now timeout (s ∷ ss) h = ground (arith, live_not_expired now timeout ss)

-- A cleanup round keeps an entry exactly when one of its signals is younger than the timeout, and
-- keeps those signals: the test on twice the timeout, made for a triggered entry, never drops one,
-- and no triggered entry outlives its signals.
pub cleanup_entry_lem :
    (now : ℕ) (e : TokenSignals)
    → cleanup_entry now e ≡ (
        if is_empty (retain (is_live now e.timeout) e.signals)
        then none
        else some (record e { signals = retain (is_live now e.timeout) e.signals }))
unfolding cleanup_entry
cleanup_entry_lem now e = ground (arith, live_not_expired now e.timeout e.signals)
