-- ===== src/Consensus/Runs.antt =====
-- copy-trader-v1.6.63/src/consensus/engine.rs: histories of calls.
use rust_solana_cc_v.Prelude.{
  ℕ, ◌+◌, ◌≡◌, refl, inl, inr, ite, Bool, true, false, Option, none, some, List, [], ◌∷◌,
  Option-cases, All, Str, Pubkey, get, insert, All-insert, All-get,
}
use rust_solana_cc_v.Consensus.Signals.{BuySignal, ConsensusTrigger, TokenSignals}
use rust_solana_cc_v.Consensus.Engine.{
  ConsensusKey, ConsensusKey-discrete, ConsensusEngine, key_of, or_insert, submit_signal, get_mut,
  revoke_entry, reject_entry, revoke_signal, reject_signal, cleanup_entry, cleanup,
}
use rust_solana_cc_v.Consensus.Invariant.{
  IsValid, new_entry-IsValid, submit_entry-IsValid, revoke_entry-IsValid, reject_entry-IsValid,
  cleanup_entry-IsValid,
}

-- The calls of the engine's methods, and the rounds of its cleanup task.
pub data Call : Type 0 where
  submits : ℕ → ℕ → BuySignal → Call
  revokes : ConsensusKey → Pubkey → Call
  rejects : ConsensusKey → Pubkey → Str → Call
  cleans : ℕ → Call

unfoldable pub step : ConsensusEngine → Call → ConsensusEngine × Option ConsensusTrigger
step m (submits now at s) = submit_signal now at s m
step m (revokes k w) = ((revoke_signal k w m).0, none)
step m (rejects k w sig) = ((reject_signal k w sig m).0, none)
step m (cleans now) = (cleanup now m, none)

abbrev pub EngineValid : ConsensusEngine → Type 0
EngineValid m = All (λ e. IsValid e.1) m

pub or_insert-IsValid :
    (k : ConsensusKey) (s : BuySignal) (m : ConsensusEngine) (o : Option TokenSignals)
    → get ConsensusKey-discrete k m ≡ o
    → EngineValid m
    → IsValid (or_insert o s)
or_insert-IsValid k s m none e v = new_entry-IsValid s
or_insert-IsValid k s m (some x) e v = All-get ConsensusKey-discrete IsValid k m v e

get_mut-EngineValid :
    (k : ConsensusKey) (f : TokenSignals → TokenSignals × Bool) (m : ConsensusEngine)
    → ((e : TokenSignals) → IsValid e → IsValid (f e).0)
    → EngineValid m
    → EngineValid (get_mut k f m).0
get_mut-EngineValid k f m keep v = go (get ConsensusKey-discrete k m) refl
  where
    go :
        (o : Option TokenSignals)
        → get ConsensusKey-discrete k m ≡ o
        → EngineValid (
            (elim o as (λ _. ConsensusEngine × Bool) [
              | none ↦ (m, false)
              | some entry ↦ (insert ConsensusKey-discrete k (f entry).0 m, (f entry).1)
            ]).0)
    go none e = v
    go (some x) e =
        All-insert ConsensusKey-discrete IsValid k (f x).0 m
          (keep x (All-get ConsensusKey-discrete IsValid k m v e)) v

cleanup-EngineValid : (now : ℕ) (m : ConsensusEngine) → EngineValid m → EngineValid (cleanup now m)
unfolding cleanup
cleanup-EngineValid now [] v = tt
cleanup-EngineValid now ((k, e) ∷ m) v = elim (Option-cases (cleanup_entry now e)) [
  | inl gone ↦ rw (gone, cleanup) (cleanup-EngineValid now m v.1)
  | inr (e', kept) ↦
      rw (kept, cleanup) (cleanup_entry-IsValid now e v.0 kept, cleanup-EngineValid now m v.1)
]

-- Every call keeps every entry valid.
pub step-EngineValid : (m : ConsensusEngine) (c : Call) → EngineValid m → EngineValid (step m c).0
unfolding step submit_signal revoke_signal reject_signal
step-EngineValid m (submits now at s) v =
    All-insert ConsensusKey-discrete IsValid (key_of s) _ m
      (submit_entry-IsValid now at s _ (or_insert-IsValid (key_of s) s m _ refl v)) v
step-EngineValid m (revokes k w) v =
    get_mut-EngineValid k (revoke_entry w) m (revoke_entry-IsValid w) v
step-EngineValid m (rejects k w sig) v =
    get_mut-EngineValid k (reject_entry w sig) m (reject_entry-IsValid w sig) v
step-EngineValid m (cleans now) v = cleanup-EngineValid now m v

abbrev pub cons_some {ℓ} : {A : Type ℓ} → Option A → List A → List A
cons_some none xs = xs
cons_some (some x) xs = x ∷ xs

-- The engine after a history, and the triggers that it sent, oldest first.
unfoldable pub run : ConsensusEngine → List Call → ConsensusEngine × List ConsensusTrigger
run m [] = (m, [])
run m (c ∷ cs) = let rest = run (step m c).0 cs in (rest.0, cons_some (step m c).1 rest.1)

run-EngineValid : (m : ConsensusEngine) (cs : List Call) → EngineValid m → EngineValid (run m cs).0
unfolding run
run-EngineValid m [] v = v
run-EngineValid m (c ∷ cs) v = run-EngineValid (step m c).0 cs (step-EngineValid m c v)

-- After any history of calls from the empty engine, in every entry the wallets differ, and an entry
-- that has not triggered holds fewer votes than its threshold, or none.
pub run-IsValid : (cs : List Call) → EngineValid (run [] cs).0
run-IsValid cs = run-EngineValid [] cs tt

-- Whether an entry counts as triggered.
abbrev pub spent_of : Option TokenSignals → ℕ
spent_of none = 0
spent_of (some e) = elim e.triggered [ true ↦ 1 | false ↦ 0 ]

module _ (k : ConsensusKey) where
  abbrev pub spent : ConsensusEngine → ℕ
  spent m = spent_of (get ConsensusKey-discrete k m)

  abbrev pub trigger_key : ConsensusTrigger → ConsensusKey
  trigger_key t = record { group_id = t.group_id; token_mint = t.token_mint }

  abbrev pub sent : Option ConsensusTrigger → ℕ
  sent none = 0
  sent (some t) = ite (ConsensusKey-discrete (trigger_key t) k) 1 0

  -- The triggers for the key.
  unfoldable pub triggers : List ConsensusTrigger → ℕ
  triggers [] = 0
  triggers (t ∷ ts) = sent (some t) + triggers ts

  -- A rejection for the key, or a round of the cleanup task, may open the entry again.
  abbrev pub reopens : Call → ℕ
  reopens (submits now at s) = 0
  reopens (revokes j w) = 0
  reopens (rejects j w sig) = ite (ConsensusKey-discrete j k) 1 0
  reopens (cleans now) = 1

  unfoldable pub reopenings : List Call → ℕ
  reopenings [] = 0
  reopenings (c ∷ cs) = reopens c + reopenings cs
