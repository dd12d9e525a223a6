-- ===== src/Sell/States.antt =====
-- copy-trader-v1.6.63/src/tx/sell_executor.rs: the position after the branches of a sale.
use rust_solana_cc_v.Prelude.{
  ℕ, ◌+◌, ◌≡◌, ◌≤◌, ◌<◌, refl, ◌∙◌, inl, inr, Bool, true, false, some, arith, Pubkey, not, ◌&&◌,
  ◌||◌, Bool-cases, get-insert_self, ◌==◌,
}
use rust_solana_cc_v.Position.State.{
  Position, PositionKey, PositionState, active, selling, closed, is_active, is_confirming,
  is_submitted, mark_selling, mark_closed, apply_partial_sell, restore_after_sell_attempt,
}
use rust_solana_cc_v.Manager.Persistence.{AddressText}
use rust_solana_cc_v.Manager.Store.{
  AutoSellManager, PositionKey-discrete, lookup, modify, close_position, restore_position,
  suspend_auto_sell, sell_part, sell_position,
}
use rust_solana_cc_v.Manager.Exit.{SellSignal}
use rust_solana_cc_v.Sell.Attempts.{Attempts, is_manual}
use rust_solana_cc_v.Sell.Executor.{attempt_cap_reached, settle_success, settle_failure}

abbrev pub is_sellable : PositionState → Bool
is_sellable s = is_active s || (is_confirming s || is_submitted s)

module _ {R : Type 0} where
  -- The position under the key is there, and has the property.
  abbrev pub Holds : PositionKey → (Position R → Type 0) → AutoSellManager R → Type 0
  Holds k P m = (q : Position R) × (lookup k m ≡ some q) × P q

  pub lookup-modify :
      (k : PositionKey) (g : Position R → Position R) (m : AutoSellManager R) (p : Position R)
      → lookup k m ≡ some p
      → lookup k (modify k g m) ≡ some (g p)
  unfolding modify
  lookup-modify k g m p e =
      rw (e, modify) (get-insert_self PositionKey-discrete k (g p) m.positions)

  module _ (k : PositionKey) (m : AutoSellManager R) (p : Position R)
      (found : lookup k m ≡ some p) where
    pub sell_position-marks :
        is_sellable p.state ≡ true
        → ((sell_position k m).1 ≡ true)
          × (lookup k (sell_position k m).0 ≡ some (mark_selling p).0)
          × ((mark_selling p).0.state ≡ selling)
          × ((mark_selling p).0.token_amount ≡ p.token_amount)
    unfolding sell_position mark_selling
    sell_position-marks s = (
      rw (found, sell_position) (ground arith),
      rw (found, sell_position) (lookup-modify k _ m p found),
      ground arith,
      ground arith,
    )

    pub sell_position-refuses :
        is_sellable p.state ≡ false
        → ((sell_position k m).1 ≡ false) × (lookup k (sell_position k m).0 ≡ some p)
    unfolding sell_position mark_selling
    sell_position-refuses s = (
      rw (found, sell_position) (ground arith),
      rw (found, sell_position) (lookup-modify k _ m p found ∙ ground arith),
    )

  -- How the position after a sale compares with the one before it: `amount` is what was sold, `left`
  -- the balance that is expected after it.
  pub record Sold (p q : Position R) (amount left : ℕ) (outcome : Attempts) : Type 0 where
    pub closes :
        outcome.success ≡ true
        → left ≡ 0
        → (q.state ≡ closed) × (q.sell_signature ≡ some outcome.last_sig)
    pub shrinks :
        outcome.success ≡ true
        → 0 < left
        → (q.state ≡ active) × (q.token_amount + amount ≡ p.token_amount)
    pub reverts : outcome.success ≡ false → (q.state ≡ p.state) × (q.token_amount ≡ p.token_amount)

  module _ (t : AddressText) (signal : SellSignal R) where
    pub settle_success-Sold :
        (mint : Pubkey) (amount left : ℕ) (outcome : Attempts) (m : AutoSellManager R)
        (p q : Position R)
        → outcome.success ≡ true
        → lookup signal.position_key m ≡ some q
        → q.state ≡ selling
        → q.token_amount ≡ p.token_amount
        → 0 < amount
        → (0 < left → amount ≤ p.token_amount)
        → Holds signal.position_key
            (λ r. Sold p r amount left outcome)
            (settle_success t signal mint amount left outcome.last_sig m).0
    unfolding settle_success close_position sell_part mark_closed apply_partial_sell
    settle_success-Sold mint amount left outcome m p q ok e s a pos le =
        elim (Bool-cases (left == 0)) [
          | inl z ↦
              rw (z, settle_success)
                (
                  (mark_closed outcome.last_sig q).0,
                  lookup-modify signal.position_key _ m q e,
                  record {
                    closes = λ _ _. (ground arith, ground arith);
                    shrinks = λ _ n. absurd (ground arith);
                    reverts = λ b. absurd (ground arith);
                  },
                )
          | inr nz ↦
              rw (nz, settle_success)
                (
                  (apply_partial_sell amount q).0,
                  lookup-modify signal.position_key _ m q e,
                  record {
                    closes = λ _ z. absurd (ground arith);
                    shrinks = λ _ n. (ground (arith, le n), ground (arith, le n));
                    reverts = λ b. absurd (ground arith);
                  },
                )
        ]

    pub settle_failure-Sold :
        (amount left : ℕ) (outcome : Attempts) (m : AutoSellManager R) (p q : Position R)
        → outcome.success ≡ false
        → lookup signal.position_key m ≡ some q
        → q.token_amount ≡ p.token_amount
        → Holds signal.position_key
            (λ r. Sold p r amount left outcome)
            (settle_failure t signal p.state outcome m).0
    unfolding settle_failure suspend_auto_sell restore_position restore_after_sell_attempt
    settle_failure-Sold amount left outcome m p q bad e a =
        elim (Bool-cases (
          not (is_manual signal.reason)
          && (outcome.saw_signature_error || attempt_cap_reached t signal.position_key m))) [
            | inl stop ↦
                rw (stop, settle_failure)
                  (
                    _,
                    lookup-modify signal.position_key _ m q e,
                    record {
                      closes = λ b _. absurd (ground arith);
                      shrinks = λ b _. absurd (ground arith);
                      reverts = λ _. (refl, a);
                    },
                  )
            | inr go ↦
                rw (go, settle_failure)
                  (
                    _,
                    lookup-modify signal.position_key _ m q e,
                    record {
                      closes = λ b _. absurd (ground arith);
                      shrinks = λ b _. absurd (ground arith);
                      reverts = λ _. (refl, a);
                    },
                  )
          ]
