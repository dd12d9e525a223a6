-- ===== src/Consensus/Engine.antt =====
-- copy-trader-v1.6.63/src/consensus/engine.rs: the engine's operations. A moment is a number of
-- nanoseconds; `duration_since` stops at zero, as `-` does.
use rust_solana_cc_v.Prelude.{
  ℕ, ◌*◌, ◌-◌, max, Bool, true, false, ◌&&◌, not, Option, none, some, List, [], ◌∷◌, ◌++◌, ltb,
  ◌==◌, if◌then◌else◌, length, is_empty, retain, Str, str_eq, Str-discrete, Pubkey, Assoc, get,
  insert, ℕ_discrete,
}
use rust_solana_cc_v.Consensus.Signals.{
  BuySignal, ConsensusTrigger, TokenSignals, canonical_score, should_replace_signal, find_wallet,
  replace_wallet, is_live, tally_votes, should_trigger, max_by_key, make_trigger,
}

pub record ConsensusKey : Type 0 where
  pub group_id : Str
  pub token_mint : Pubkey

unfoldable pub ConsensusKey-discrete : Discrete ConsensusKey
unfolding Str-discrete ℕ_discrete
ConsensusKey-discrete = hlevel (Str-discrete, ℕ_discrete)

abbrev pub ConsensusEngine : Type 0
ConsensusEngine = Assoc ConsensusKey TokenSignals

-- `Duration::from_secs`.
abbrev pub from_secs : ℕ → ℕ
from_secs n = n * 1000000000

-- `submit_signal` from the tally on.
unfoldable pub conclude : ℕ → BuySignal → TokenSignals → TokenSignals × Option ConsensusTrigger
conclude triggered_at s entry =
    let tally = tally_votes entry.signals entry.min_wallets in
    if entry.triggered
    then (entry, none)
    else (if should_trigger tally
        then elim (max_by_key canonical_score tally.effective_signals) [
          | none ↦ (entry, none)
          | some canonical ↦ (
            record entry { triggered = true },
            some (make_trigger s tally canonical triggered_at),
          )
        ]
        else (entry, none))

-- `submit_signal` on the entry of the signal's key, which it holds locked.
unfoldable pub submit_entry :
    ℕ → ℕ → BuySignal → TokenSignals → TokenSignals × Option ConsensusTrigger
unfolding conclude
submit_entry now triggered_at s entry =
    let live = retain (is_live now entry.timeout) entry.signals in
    elim (find_wallet s.wallet live) [
      | some existing ↦
          if should_replace_signal existing s
          then conclude triggered_at s (record entry { signals = replace_wallet s live })
          else (record entry { signals = live }, none)
      | none ↦
          if entry.triggered
          then (record entry { signals = live }, none)
          else conclude triggered_at s (record entry { signals = live ++ s ∷ [] })
    ]

unfoldable pub new_entry : BuySignal → TokenSignals
new_entry s = record {
  signals = [];
  triggered = false;
  min_wallets = s.consensus_min_wallets;
  timeout = from_secs (max s.consensus_timeout_secs 1);
}

abbrev pub or_insert : Option TokenSignals → BuySignal → TokenSignals
or_insert none s = new_entry s
or_insert (some e) s = e

abbrev pub key_of : BuySignal → ConsensusKey
key_of s = record { group_id = s.group_id; token_mint = s.token_mint }

-- The new map, and what goes to the trigger channel.
unfoldable pub submit_signal :
    ℕ → ℕ → BuySignal → ConsensusEngine → ConsensusEngine × Option ConsensusTrigger
submit_signal now triggered_at s engine =
    let k = key_of s in
    let (entry, sent) =
      submit_entry now triggered_at s (or_insert (get ConsensusKey-discrete k engine) s) in
    (insert ConsensusKey-discrete k entry engine, sent)

unfoldable pub revoke_entry : Pubkey → TokenSignals → TokenSignals × Bool
revoke_entry wallet entry =
    let kept = retain (λ c. not (c.wallet == wallet)) entry.signals in
    if entry.triggered
    then (entry, false)
    else (record entry { signals = kept }, not (length entry.signals == length kept))

unfoldable pub reject_entry : Pubkey → Str → TokenSignals → TokenSignals × Bool
reject_entry wallet signature entry =
    let kept =
      retain (λ c. not (c.wallet == wallet && str_eq c.signature signature)) entry.signals in
    (
      record entry {
        signals = kept;
        triggered = should_trigger (tally_votes kept entry.min_wallets);
      },
      not (length entry.signals == length kept),
    )

-- `if let Some(mut entry) = self.signals.get_mut(&key) { ... } false`.
abbrev pub get_mut :
    ConsensusKey → (TokenSignals → TokenSignals × Bool) → ConsensusEngine → ConsensusEngine × Bool
get_mut k f engine = elim (get ConsensusKey-discrete k engine) [
  | none ↦ (engine, false)
  | some entry ↦ (insert ConsensusKey-discrete k (f entry).0 engine, (f entry).1)
]

unfoldable pub revoke_signal : ConsensusKey → Pubkey → ConsensusEngine → ConsensusEngine × Bool
revoke_signal k wallet engine = get_mut k (revoke_entry wallet) engine

unfoldable pub reject_signal :
    ConsensusKey → Pubkey → Str → ConsensusEngine → ConsensusEngine × Bool
reject_signal k wallet signature engine = get_mut k (reject_entry wallet signature) engine

-- The closure of the cleanup task: what stays of an entry, and whether the entry stays.
unfoldable pub all_expired : ℕ → ℕ → List BuySignal → Bool
all_expired now timeout [] = true
all_expired now timeout (s ∷ ss) =
    ltb (timeout * 2) (now - s.detected_at) && all_expired now timeout ss

unfoldable pub cleanup_entry : ℕ → TokenSignals → Option TokenSignals
cleanup_entry now entry =
    let live = retain (is_live now entry.timeout) entry.signals in
    let kept = some (record entry { signals = live }) in
    if is_empty live
    then none
    else (if entry.triggered
        then (if all_expired now entry.timeout live then none else kept)
        else kept)

-- One round of the cleanup task.
unfoldable pub cleanup : ℕ → ConsensusEngine → ConsensusEngine
cleanup now [] = []
cleanup now ((k, entry) ∷ m) =
    let rest = cleanup now m in
    elim (cleanup_entry now entry) [ none ↦ rest | some e ↦ (k, e) ∷ rest ]

unfoldable pub pending_count : ConsensusEngine → ℕ
pending_count m = length (retain (λ e. not e.1.triggered) m)
