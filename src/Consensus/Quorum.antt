-- ===== src/Consensus/Quorum.antt =====
-- copy-trader-v1.6.63/src/consensus/engine.rs: the triggers of `submit_signal`.
use mathlib.Core.Path.{subst₂}
use rust_solana_cc_v.Prelude.{
  ℕ, ◌≡◌, ◌≤◌, refl, sym, ◌⊎◌, inl, inr, true, false, some, List, [], ◌∷◌, ◌++◌, arith, leb→le,
  Option-cases, length, retain, All, All-append, All-mono, retain-All, Elem,
}
use rust_solana_cc_v.Consensus.Signals.{
  BuySignal, ConsensusTrigger, TokenSignals, find_wallet, replace_wallet, is_live, tally_votes,
  should_trigger, min_by_key, canonical_score, make_trigger, first_signature_of,
  counts_for_candidate_consensus,
}
use rust_solana_cc_v.Consensus.Engine.{conclude, submit_entry}
use rust_solana_cc_v.Consensus.Wallets.{
  Distinct, wallets, Distinct-retain, Distinct-replace, Distinct-push,
}
use rust_solana_cc_v.Consensus.Invariant.{IsValid}
use rust_solana_cc_v.Consensus.Tally.{effective, max_by_key-cases, min_by_key-cases}

-- `c` is the source of the trigger's canonical fields.
pub record IsCanonical (c : BuySignal) (t : ConsensusTrigger) : Type 0 where
  pub signature : t.canonical_signature ≡ c.signature
  pub wallet : t.canonical_wallet ≡ c.wallet
  pub token_program : t.canonical_token_program ≡ c.token_program
  pub instruction_data : t.canonical_instruction_data ≡ c.instruction_data
  pub instruction_accounts : t.canonical_instruction_accounts ≡ c.instruction_accounts
  pub trade_origin : t.canonical_trade_origin ≡ c.trade_origin

pub record Quorum (now : ℕ) (s : BuySignal) (e e' : TokenSignals) (t : ConsensusTrigger)
    : Type 0 where
  pub of_group : t.group_id ≡ s.group_id
  pub of_token : t.token_mint ≡ s.token_mint
  pub was_open : e.triggered ≡ false
  pub closes : e'.triggered ≡ true
  pub voters : t.wallets ≡ wallets (effective e'.signals)
  pub reached : e.min_wallets ≤ length t.wallets
  pub one_vote_each : Distinct t.wallets
  pub recent : All (λ c. (is_live now e.timeout c ≡ true) ⊎ (c ≡ s)) e'.signals
  pub best :
      (c : BuySignal) × Elem c (effective e'.signals)
      × All (λ d. canonical_score d ≤ canonical_score c) (effective e'.signals)
      × IsCanonical c t
  pub earliest :
      (c : BuySignal) × Elem c (effective e'.signals)
      × All (λ d. c.detected_at ≤ d.detected_at) (effective e'.signals)
      × (t.first_signature ≡ c.signature)

Recent : ℕ → ℕ → BuySignal → BuySignal → Type 0
Recent now timeout s c = (is_live now timeout c ≡ true) ⊎ (c ≡ s)

Recent-replace :
    (now timeout : ℕ) (s : BuySignal) (ss : List BuySignal)
    → All (Recent now timeout s) ss
    → All (Recent now timeout s) (replace_wallet s ss)
unfolding replace_wallet Recent
Recent-replace now timeout s [] h = tt
Recent-replace now timeout s (c ∷ ss) h = ground (arith, Recent-replace now timeout s ss h.1)

-- The entry that `conclude` is called with, where a call of `submit_entry` sends a trigger.
submit_entry-conclude :
    (now at : ℕ) (s : BuySignal) (e : TokenSignals) {e' : TokenSignals} {t : ConsensusTrigger}
    → Distinct (wallets e.signals)
    → submit_entry now at s e ≡ (e', some t)
    → (ss : List BuySignal) × Distinct (wallets ss)
      × All (Recent now e.timeout s) ss
      × (conclude at s (record e { signals = ss }) ≡ (e', some t))
unfolding submit_entry Recent
submit_entry-conclude now at s e {e'} {t} d h = elim (Option-cases (find_wallet s.wallet live)) [
  | inl new ↦ (
    live ++ s ∷ [],
    Distinct-push s live new kept,
    All-append (Recent now e.timeout s) live (s ∷ []) recent (inr refl, tt),
    ground arith,
  )
  | inr (old, found) ↦ (
    replace_wallet s live,
    Distinct-replace s live kept,
    Recent-replace now e.timeout s live recent,
    ground arith,
  )
]
  where
    live : List BuySignal
    live = retain (is_live now e.timeout) e.signals

    kept : Distinct (wallets live)
    kept = Distinct-retain (is_live now e.timeout) e.signals d

    recent : All (Recent now e.timeout s) live
    recent = All-mono (λ c. inl) live (retain-All (is_live now e.timeout) e.signals)

pub conclude-some :
    (at : ℕ) (s : BuySignal) (e : TokenSignals) {e' : TokenSignals} {t : ConsensusTrigger}
    → conclude at s e ≡ (e', some t)
    → (c : BuySignal) × Elem c (effective e.signals)
      × All (λ d. canonical_score d ≤ canonical_score c) (effective e.signals)
      × (e.triggered ≡ false)
      × (should_trigger (tally_votes e.signals e.min_wallets) ≡ true)
      × (e' ≡ record e { triggered = true })
      × (t ≡ make_trigger s (tally_votes e.signals e.min_wallets) c at)
unfolding conclude tally_votes
conclude-some at s e h = elim (max_by_key-cases canonical_score (effective e.signals)) [
  | inl (_, missing) ↦ absurd (ground arith)
  | inr (c, found, elem, best) ↦
      (c, elem, best, ground arith, ground arith, ground arith, ground arith)
]

-- The first signature comes from the earliest of the votes, of which there is one at least.
earliest_vote :
    (ss : List BuySignal) (c : BuySignal)
    → Elem c ss
    → (f : BuySignal) × Elem f ss
      × All (λ d. f.detected_at ≤ d.detected_at) ss
      × (first_signature_of (min_by_key (λ d. d.detected_at) ss) ≡ f.signature)
earliest_vote ss c h = elim (min_by_key-cases (λ d. d.detected_at) ss) [
  | inl (empty, _) ↦ absurd (no_elem ss empty h)
  | inr (f, found, elem, first) ↦ (f, elem, first, rw found)
]
  where
    no_elem : (xs : List BuySignal) → xs ≡ [] → Elem c xs → ⊥
    no_elem [] e m = elim m [ ]
    no_elem (x ∷ xs) e m = cc e

conclude-Quorum :
    (now at : ℕ) (s : BuySignal) (e e' : TokenSignals) (t : ConsensusTrigger)
    → Distinct (wallets e.signals)
    → All (Recent now e.timeout s) e.signals
    → conclude at s e ≡ (e', some t)
    → Quorum now s e e' t
unfolding tally_votes make_trigger should_trigger Recent
conclude-Quorum now at s e e' t d r h =
    let (c, elem, best, open_before, quorum, p, q) = conclude-some at s e h in
    let core : Quorum now s e (record e { triggered = true })
        (make_trigger s (tally_votes e.signals e.min_wallets) c at) =
      record {
        of_group = refl;
        of_token = refl;
        was_open = open_before;
        closes = refl;
        voters = refl;
        reached = leb→le _ _ quorum;
        one_vote_each = Distinct-retain counts_for_candidate_consensus e.signals d;
        recent = r;
        best = (
          c,
          elem,
          best,
          record {
            signature = refl;
            wallet = refl;
            token_program = refl;
            instruction_data = refl;
            instruction_accounts = refl;
            trade_origin = refl;
          },
        );
        earliest = earliest_vote (effective e.signals) c elem;
      } in
    subst₂ (Quorum now s e) (sym p) (sym q) core

-- A trigger is for the signal's group and token. It is sent only by an entry that had not
-- triggered, which it marks. It lists different
-- wallets, at least as many as the threshold, those of the counted votes in the entry; every vote
-- is the incoming signal or younger than the timeout. Its canonical fields come from a counted vote of
-- the greatest score, its first signature from a counted vote that was detected earliest.
pub submit_entry-Quorum :
    (now at : ℕ) (s : BuySignal) (e : TokenSignals) {e' : TokenSignals} {t : ConsensusTrigger}
    → IsValid e
    → submit_entry now at s e ≡ (e', some t)
    → Quorum now s e e' t
submit_entry-Quorum now at s e {e'} {t} v h =
    let (ss, d, r, concluded) = submit_entry-conclude now at s e v.distinct h in
    let q = conclude-Quorum now at s (record e { signals = ss }) e' t d r concluded in
    record {
      of_group = q.of_group;
      of_token = q.of_token;
      was_open = q.was_open;
      closes = q.closes;
      voters = q.voters;
      reached = q.reached;
      one_vote_each = q.one_vote_each;
      recent = q.recent;
      best = q.best;
      earliest = q.earliest;
    }
