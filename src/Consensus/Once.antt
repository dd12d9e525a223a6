-- ===== src/Consensus/Once.antt =====
-- copy-trader-v1.6.63/src/consensus/engine.rs: the triggers for a key, over histories of calls.
use rust_solana_cc_v.Prelude.{
  ℕ, ◌+◌, ◌≡◌, ◌≢◌, ◌≤◌, inl, inr, Bool, true, false, Option, List, [], ◌∷◌, arith, Option-cases,
  Pubkey, get, get-insert,
}
use rust_solana_cc_v.Consensus.Signals.{BuySignal, ConsensusTrigger, TokenSignals, make_trigger}
use rust_solana_cc_v.Consensus.Engine.{
  ConsensusKey, ConsensusKey-discrete, ConsensusEngine, new_entry, key_of, or_insert, conclude,
  submit_entry, submit_signal, get_mut, revoke_entry, reject_entry, revoke_signal, reject_signal,
}
use rust_solana_cc_v.Consensus.Runs.{
  Call, submits, revokes, rejects, cleans, step, run, spent, sent, triggers, reopens, reopenings,
}

abbrev bit : Bool → ℕ
bit true = 1
bit false = 0

-- What a call sends, and what the flag was before, is no more than the flag after it.
abbrev Pays : ConsensusKey → Bool → TokenSignals × Option ConsensusTrigger → Type 0
Pays k before r = sent k r.1 + bit before ≤ bit r.0.triggered

conclude-Pays :
    (k : ConsensusKey) (at : ℕ) (s : BuySignal) (e : TokenSignals)
    → Pays k e.triggered (conclude at s e)
unfolding conclude
conclude-Pays k at s e = ground arith

submit_entry-Pays :
    (k : ConsensusKey) (now at : ℕ) (s : BuySignal) (e : TokenSignals)
    → Pays k e.triggered (submit_entry now at s e)
unfolding submit_entry
submit_entry-Pays k now at s e = ground arith

submit_entry_key :
    (k : ConsensusKey) (now at : ℕ) (s : BuySignal) (e : TokenSignals)
    → key_of s ≢ k
    → sent k (submit_entry now at s e).1 ≡ 0
unfolding submit_entry make_trigger
submit_entry_key k now at s e n = ground arith

revoke_entry_keeps :
    (w : Pubkey) (e : TokenSignals) → bit e.triggered ≤ bit (revoke_entry w e).0.triggered
unfolding revoke_entry
revoke_entry_keeps w e = ground arith

submit_signal_pays :
    (k : ConsensusKey) (now at : ℕ) (s : BuySignal) (m : ConsensusEngine)
    → sent k (submit_signal now at s m).1 + spent k m ≤ spent k (submit_signal now at s m).0
unfolding submit_signal new_entry
submit_signal_pays k now at s m =
    let entry = or_insert (get ConsensusKey-discrete (key_of s) m) s in
    let after = submit_entry now at s entry in
    ground (
      arith,
      get-insert ConsensusKey-discrete (key_of s) k after.0 m,
      submit_entry-Pays k now at s entry,
      submit_entry_key k now at s entry,
    )

get_mut_keeps :
    (k j : ConsensusKey) (f : TokenSignals → TokenSignals × Bool) (m : ConsensusEngine)
    → ((e : TokenSignals) → bit e.triggered ≤ bit (f e).0.triggered)
    → spent k m ≤ spent k (get_mut j f m).0
get_mut_keeps k j f m keep = elim (Option-cases (get ConsensusKey-discrete j m)) [
  | inl missing ↦ ground arith
  | inr (e, found) ↦ ground (arith, get-insert ConsensusKey-discrete j k (f e).0 m, keep e)
]

get_mut_other :
    (k j : ConsensusKey) (f : TokenSignals → TokenSignals × Bool) (m : ConsensusEngine)
    → j ≢ k
    → spent k (get_mut j f m).0 ≡ spent k m
get_mut_other k j f m n = elim (Option-cases (get ConsensusKey-discrete j m)) [
  | inl missing ↦ ground arith
  | inr (e, found) ↦ ground (arith, get-insert ConsensusKey-discrete j k (f e).0 m)
]

spent-le-one : (k : ConsensusKey) (m : ConsensusEngine) → spent k m ≤ 1
spent-le-one k m = ground arith

step_pays :
    (k : ConsensusKey) (m : ConsensusEngine) (c : Call)
    → sent k (step m c).1 + spent k m ≤ spent k (step m c).0 + reopens k c
unfolding step revoke_signal reject_signal
step_pays k m (submits now at s) = omega (arith, submit_signal_pays k now at s m)
step_pays k m (revokes j w) = get_mut_revoke
  where
    get_mut_revoke : 0 + spent k m ≤ spent k (get_mut j (revoke_entry w) m).0 + 0
    get_mut_revoke = omega (arith, get_mut_keeps k j (revoke_entry w) m (revoke_entry_keeps w))
step_pays k m (rejects j w sig) =
    ground (arith, get_mut_other k j (reject_entry w sig) m, spent-le-one k m)
step_pays k m (cleans now) = omega (arith, spent-le-one k m)

triggers-run :
    (k : ConsensusKey) (m : ConsensusEngine) (cs : List Call)
    → triggers k (run m cs).1 + spent k m ≤ spent k (run m cs).0 + reopenings k cs
unfolding run triggers reopenings
triggers-run k m [] = omega arith
triggers-run k m (c ∷ cs) = ground (arith, step_pays k m c, triggers-run k (step m c).0 cs)

-- In any history from the empty engine, the triggers for a key number at most one more than the
-- rejections for the key and the cleanup rounds in it; with neither there is at most one.
pub triggers-le-reopenings :
    (k : ConsensusKey) (cs : List Call) → triggers k (run [] cs).1 ≤ 1 + reopenings k cs
triggers-le-reopenings k cs = omega (arith, triggers-run k [] cs, spent-le-one k (run [] cs).0)
