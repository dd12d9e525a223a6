-- ===== src/Consensus/Invariant.antt =====
-- copy-trader-v1.6.63/src/consensus/engine.rs: the entry of a token between two calls.
use rust_solana_cc_v.Prelude.{
  ℕ, ◌≡◌, ◌<◌, refl, ap, ◌⊎◌, inl, inr, Bool, false, not, ◌&&◌, some, List, arith, leb, ◌==◌,
  if_cases, Option-cases, retain, Str, str_eq, Pubkey,
}
use rust_solana_cc_v.Consensus.Signals.{
  BuySignal, TokenSignals, should_replace_signal, find_wallet, is_live, tally_votes, should_trigger,
  canonical_score,
}
use rust_solana_cc_v.Consensus.Engine.{
  new_entry, conclude, submit_entry, revoke_entry, reject_entry, cleanup_entry,
}
use rust_solana_cc_v.Consensus.Wallets.{
  Distinct, wallets, Distinct-retain, Distinct-replace, Distinct-push,
}
use rust_solana_cc_v.Consensus.Tally.{
  effective, votes, length-map, votes-retain-le, max_by_key-cases,
}

-- No wallet votes twice, and no quorum waits: an entry that has not triggered is short of votes, or
-- it has none (which matters where the threshold is 0).
pub record IsValid (e : TokenSignals) : Type 0 where
  pub distinct : Distinct (wallets e.signals)
  pub settled : e.triggered ≡ false → (votes e.signals < e.min_wallets) ⊎ (votes e.signals ≡ 0)

abbrev Keeps : {A : Type 0} → TokenSignals × A → Type 0
Keeps r = IsValid r.0

pub new_entry-IsValid : (s : BuySignal) → IsValid (new_entry s)
unfolding new_entry
new_entry-IsValid s = record { distinct = tt; settled = λ _. inr refl }

-- The number of wallets of a tally is the number of votes.
pub should_trigger-votes :
    (ss : List BuySignal) (n : ℕ) → should_trigger (tally_votes ss n) ≡ leb n (votes ss)
unfolding should_trigger tally_votes
should_trigger-votes ss n = ap (leb n) (length-map (effective ss) (λ s. s.wallet))

conclude-IsValid :
    (at : ℕ) (s : BuySignal) (e : TokenSignals)
    → Distinct (wallets e.signals)
    → IsValid (conclude at s e).0
unfolding conclude tally_votes
conclude-IsValid at s e d = record {
  distinct = ground (arith);
  settled = ground (
    arith,
    should_trigger-votes e.signals e.min_wallets,
    max_by_key-cases canonical_score (effective e.signals),
  );
}

-- Votes that are only taken away leave an entry settled.
retain-IsValid :
    (p : BuySignal → Bool) (e : TokenSignals)
    → IsValid e
    → IsValid (record e { signals = retain p e.signals })
retain-IsValid p e v = record {
  distinct = Distinct-retain p e.signals v.distinct;
  settled = λ t. ground (arith, v.settled t, votes-retain-le p e.signals);
}

pub submit_entry-IsValid :
    (now at : ℕ) (s : BuySignal) (e : TokenSignals)
    → IsValid e
    → IsValid (submit_entry now at s e).0
unfolding submit_entry
submit_entry-IsValid now at s e v = elim (Option-cases (find_wallet s.wallet live)) [
  | inl new ↦
      rw (new, submit_entry)
        (if_cases Keeps e.triggered (λ _. swept)
          (λ _. conclude-IsValid at s _ (Distinct-push s live new swept.distinct)))
  | inr (old, found) ↦
      rw (found, submit_entry)
        (if_cases Keeps (should_replace_signal old s)
          (λ _. conclude-IsValid at s _ (Distinct-replace s live swept.distinct)) (λ _. swept))
]
  where
    live : List BuySignal
    live = retain (is_live now e.timeout) e.signals

    swept : IsValid (record e { signals = live })
    swept = retain-IsValid (is_live now e.timeout) e v

pub revoke_entry-IsValid :
    (w : Pubkey) (e : TokenSignals) → IsValid e → IsValid (revoke_entry w e).0
unfolding revoke_entry
revoke_entry-IsValid w e v =
    if_cases Keeps e.triggered (λ _. v) (λ _. retain-IsValid (λ c. not (c.wallet == w)) e v)

pub reject_entry-IsValid :
    (w : Pubkey) (sig : Str) (e : TokenSignals) → IsValid e → IsValid (reject_entry w sig e).0
unfolding reject_entry
reject_entry-IsValid w sig e v =
    let p : BuySignal → Bool = λ c. not (c.wallet == w && str_eq c.signature sig) in
    record {
      distinct = Distinct-retain p e.signals v.distinct;
      settled = ground (arith, should_trigger-votes (retain p e.signals) e.min_wallets);
    }

-- What the cleanup round keeps of an entry.
pub cleanup_entry-IsValid :
    (now : ℕ) (e : TokenSignals) {e' : TokenSignals}
    → IsValid e
    → cleanup_entry now e ≡ some e'
    → IsValid e'
unfolding cleanup_entry
cleanup_entry-IsValid now e v h = ground (arith, retain-IsValid (is_live now e.timeout) e v)
