-- ===== src/Consensus/Tally.antt =====
-- copy-trader-v1.6.63/src/consensus/engine.rs: the tally, and the signals that `max_by_key` and
-- `min_by_key` choose.
use rust_solana_cc_v.Prelude.{
  ℕ, ◌≡◌, ◌≤◌, refl, ◌⊎◌, inl, inr, Bool, none, some, List, [], ◌∷◌, map, arith, length, retain,
  All, Elem, leb, ltb, Bool-cases,
}
use rust_solana_cc_v.Consensus.Signals.{
  BuySignal, counts_for_candidate_consensus, max_by_key_from, max_by_key, min_by_key_from,
  min_by_key,
}

abbrev pub effective : List BuySignal → List BuySignal
effective = retain counts_for_candidate_consensus

-- The votes that an entry holds.
abbrev pub votes : List BuySignal → ℕ
votes ss = length (effective ss)

pub length-map : (ss : List BuySignal) (f : BuySignal → ℕ) → length (map f ss) ≡ length ss
length-map [] f = refl
length-map (s ∷ ss) f = omega (arith, length-map ss f)

pub votes-retain-le : (p : BuySignal → Bool) (ss : List BuySignal) → votes (retain p ss) ≤ votes ss
votes-retain-le p [] = omega arith
votes-retain-le p (s ∷ ss) = ground (arith, votes-retain-le p ss)

module _ (key : BuySignal → ℕ) where
  max_by_key_from-Elem :
      (b : BuySignal) (ss : List BuySignal) → Elem (max_by_key_from key b ss) (b ∷ ss)
  unfolding max_by_key_from
  max_by_key_from-Elem b [] = inl refl
  max_by_key_from-Elem b (s ∷ ss) =
      ground (arith, max_by_key_from-Elem b ss, max_by_key_from-Elem s ss)

  max_by_key_from-le :
      (b r : BuySignal) (ss : List BuySignal)
      → max_by_key_from key b ss ≡ r
      → All (λ s. key s ≤ key r) (b ∷ ss)
  unfolding max_by_key_from
  max_by_key_from-le b r [] e = (ground arith, tt)
  max_by_key_from-le b r (s ∷ ss) e = elim (Bool-cases (leb (key b) (key s))) [
    | inl later ↦
        let ih = max_by_key_from-le s r ss (rw later at e) in (ground (arith, ih.0), (ih.0, ih.1))
    | inr same ↦
        let ih = max_by_key_from-le b r ss (rw same at e) in (ih.0, (ground (arith, ih.0), ih.1))
  ]

  min_by_key_from-Elem :
      (b : BuySignal) (ss : List BuySignal) → Elem (min_by_key_from key b ss) (b ∷ ss)
  unfolding min_by_key_from
  min_by_key_from-Elem b [] = inl refl
  min_by_key_from-Elem b (s ∷ ss) =
      ground (arith, min_by_key_from-Elem b ss, min_by_key_from-Elem s ss)

  min_by_key_from-le :
      (b r : BuySignal) (ss : List BuySignal)
      → min_by_key_from key b ss ≡ r
      → All (λ s. key r ≤ key s) (b ∷ ss)
  unfolding min_by_key_from
  min_by_key_from-le b r [] e = (ground arith, tt)
  min_by_key_from-le b r (s ∷ ss) e = elim (Bool-cases (ltb (key s) (key b))) [
    | inl later ↦
        let ih = min_by_key_from-le s r ss (rw later at e) in (ground (arith, ih.0), (ih.0, ih.1))
    | inr same ↦
        let ih = min_by_key_from-le b r ss (rw same at e) in (ih.0, (ground (arith, ih.0), ih.1))
  ]

  -- A greatest element is chosen from every list but the empty one.
  pub max_by_key-cases :
      (ss : List BuySignal)
      → ((ss ≡ []) × (max_by_key key ss ≡ none))
        ⊎ ((c : BuySignal) × (max_by_key key ss ≡ some c) × Elem c ss × All (λ s. key s ≤ key c) ss)
  unfolding max_by_key
  max_by_key-cases [] = inl (refl, refl)
  max_by_key-cases (s ∷ ss) =
      inr
        (max_by_key_from key s ss, refl, max_by_key_from-Elem s ss, max_by_key_from-le s _ ss refl)

  pub min_by_key-cases :
      (ss : List BuySignal)
      → ((ss ≡ []) × (min_by_key key ss ≡ none))
        ⊎ ((c : BuySignal) × (min_by_key key ss ≡ some c) × Elem c ss × All (λ s. key c ≤ key s) ss)
  unfolding min_by_key
  min_by_key-cases [] = inl (refl, refl)
  min_by_key-cases (s ∷ ss) =
      inr
        (min_by_key_from key s ss, refl, min_by_key_from-Elem s ss, min_by_key_from-le s _ ss refl)
