-- ===== src/Consensus/Deciding.antt =====
-- copy-trader-v1.6.63/src/consensus/engine.rs: the signal that a trigger is sent on.
use rust_solana_cc_v.Prelude.{
  ℕ, ◌≡◌, ◌≤◌, ◌<◌, Bool, refl, inl, inr, true, false, some, List, [], ◌∷◌, ◌++◌, arith,
  Option-cases, Bool-cases, length, retain, Elem,
}
use rust_solana_cc_v.Consensus.Signals.{
  BuySignal, ConsensusTrigger, TokenSignals, find_wallet, replace_wallet, is_live,
  counts_for_candidate_consensus,
}
use rust_solana_cc_v.Consensus.Engine.{conclude, submit_entry}
use rust_solana_cc_v.Consensus.Wallets.{wallets}
use rust_solana_cc_v.Consensus.Invariant.{IsValid, should_trigger-votes}
use rust_solana_cc_v.Consensus.Tally.{effective, votes, votes-retain-le}
use rust_solana_cc_v.Consensus.Quorum.{submit_entry-Quorum, conclude-some}

Elem-retain_kept {ℓ} :
    {A : Type ℓ} (p : A → Bool) (a : A) (xs : List A)
    → p a ≡ true
    → Elem a xs
    → Elem a (retain p xs)
Elem-retain_kept p a [] h e = e
Elem-retain_kept p a (x ∷ xs) h e = ground (arith, Elem-retain_kept p a xs h)

Elem-map_wallet : (a : BuySignal) (xs : List BuySignal) → Elem a xs → Elem a.wallet (wallets xs)
Elem-map_wallet a [] e = elim e [ ]
Elem-map_wallet a (x ∷ xs) e = ground (arith, Elem-map_wallet a xs)

-- A signal that does not count adds no vote.
votes-push :
    (s : BuySignal) (xs : List BuySignal)
    → counts_for_candidate_consensus s ≡ false
    → votes (xs ++ s ∷ []) ≤ votes xs
votes-push s [] h = ground arith
votes-push s (x ∷ xs) h = ground (arith, votes-push s xs h)

votes-replace :
    (s : BuySignal) (xs : List BuySignal)
    → counts_for_candidate_consensus s ≡ false
    → votes (replace_wallet s xs) ≤ votes xs
unfolding replace_wallet
votes-replace s [] h = ground arith
votes-replace s (x ∷ xs) h = ground (arith, votes-replace s xs h)

Elem-push : (s : BuySignal) (xs : List BuySignal) → Elem s (xs ++ s ∷ [])
Elem-push s [] = inl refl
Elem-push s (x ∷ xs) = inr (Elem-push s xs)

Elem-replace :
    (s old : BuySignal) (xs : List BuySignal)
    → find_wallet s.wallet xs ≡ some old
    → Elem s (replace_wallet s xs)
unfolding find_wallet replace_wallet
Elem-replace s old [] h = cc
Elem-replace s old (x ∷ xs) h = ground (arith, Elem-replace s old xs)

Elem-nonempty : (a : BuySignal) (xs : List BuySignal) → Elem a xs → 0 < length xs
Elem-nonempty a [] e = elim e [ ]
Elem-nonempty a (x ∷ xs) e = omega arith

-- Where the signal stands among the votes that `conclude` reads, which are no more than before if it does
-- not count, a trigger is sent only if it counts.
conclude-decides :
    (at : ℕ) (s : BuySignal) (e : TokenSignals) (ss : List BuySignal) {e' : TokenSignals}
    {t : ConsensusTrigger}
    → IsValid e
    → (counts_for_candidate_consensus s ≡ false → votes ss ≤ votes e.signals)
    → Elem s ss
    → conclude at s (record e { signals = ss }) ≡ (e', some t)
    → Elem s (effective e'.signals)
conclude-decides at s e ss v fewer there h =
    let (c, elem_c, best, opened, quorum, p, q) =
      conclude-some at s (record e { signals = ss }) h in
    elim (Bool-cases (counts_for_candidate_consensus s)) [
      | inl counted ↦ rw p (Elem-retain_kept counts_for_candidate_consensus s ss counted there)
      | inr uncounted ↦ absurd (
          ground (
            arith,
            v.settled opened,
            fewer uncounted,
            Elem-nonempty c (effective ss) elem_c,
            quorum,
            should_trigger-votes ss e.min_wallets,
          ))
    ]

submit_entry-decides :
    (now at : ℕ) (s : BuySignal) (e : TokenSignals) {e' : TokenSignals} {t : ConsensusTrigger}
    → IsValid e
    → submit_entry now at s e ≡ (e', some t)
    → Elem s (effective e'.signals)
unfolding submit_entry
submit_entry-decides now at s e {e'} {t} v h = elim (Option-cases (find_wallet s.wallet live)) [
  | inl new ↦
      conclude-decides at s e (live ++ s ∷ []) {e' = e'} {t = t} v
        (λ u. omega (arith, votes-push s live u, shrinks)) (Elem-push s live) (ground arith)
  | inr (old, found) ↦
      conclude-decides at s e (replace_wallet s live) {e' = e'} {t = t} v
        (λ u. omega (arith, votes-replace s live u, shrinks)) (Elem-replace s old live found)
        (ground arith)
]
  where
    live : List BuySignal
    live = retain (is_live now e.timeout) e.signals

    shrinks : votes live ≤ votes e.signals
    shrinks = votes-retain-le (is_live now e.timeout) e.signals

-- A trigger lists the wallet of the signal that it is sent on.
pub submit_entry-voter :
    (now at : ℕ) (s : BuySignal) (e : TokenSignals) {e' : TokenSignals} {t : ConsensusTrigger}
    → IsValid e
    → submit_entry now at s e ≡ (e', some t)
    → Elem s.wallet t.wallets
submit_entry-voter now at s e {e'} {t} v h =
    rw (submit_entry-Quorum now at s e v h).voters
      (Elem-map_wallet s (effective e'.signals) (submit_entry-decides now at s e v h))
