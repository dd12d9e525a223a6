-- ===== src/Position/Transitions.antt =====
-- copy-trader-v1.6.63/src/autosell/position.rs: the moves between the states.
use rust_solana_cc_v.Prelude.{
  ℕ, ◌+◌, ◌≡◌, ◌⊎◌, Bool, true, false, Option, if◌then◌else◌, List, [], ◌∷◌, arith, Str, All,
}
use rust_solana_cc_v.Float.{F64}
use rust_solana_cc_v.Position.State.{
  Position, PositionState, closed, failed, mark_submitted, mark_confirming, mark_selling,
  mark_closed, mark_failed, revert_to_active, apply_partial_sell, restore_after_sell_attempt,
  record_zero_balance_sell_skip,
}
use rust_solana_cc_v.Position.Prices.{mark_active, update_price}

abbrev pub IsDone : PositionState → Type 0
IsDone s = (s ≡ closed) ⊎ (s ≡ failed)

-- The methods on `&mut self`, with the arguments of a call.
pub data Method (R : Type 0) : Type 0 where
  submits : Str → Method R
  confirms : Method R
  activates : ℕ → ℕ → Option R → Method R
  sells : Method R
  closes : Str → Method R
  fails : Method R
  reverts : Method R
  restores : PositionState → Method R
  skips_zero_balance : Method R
  sells_part : ℕ → Method R
  updates_price : R → Method R

-- The methods that may set a state from any other.
abbrev pub reopens : {R : Type 0} → Method R → Bool
reopens (restores previous) = true
reopens (sells_part n) = true
reopens _ = false

module _ {R : Type 0} ⦃f : F64 R⦄ where
  -- The position after the call.
  pub call : Method R → Position R → Position R
  call (submits sig) p = (mark_submitted sig p).0
  call confirms p = (mark_confirming p).0
  call (activates now n price) p = (mark_active now n price p).0
  call sells p = (mark_selling p).0
  call (closes sig) p = (mark_closed sig p).0
  call fails p = (mark_failed p).0
  call reverts p = (revert_to_active p).0
  call (restores previous) p = (restore_after_sell_attempt previous p).0
  call skips_zero_balance p = (record_zero_balance_sell_skip p).0
  call (sells_part n) p = (apply_partial_sell n p).0
  call (updates_price x) p = (update_price x p).0

  pub calls : List (Method R) → Position R → Position R
  calls [] p = p
  calls (m ∷ ms) p = calls ms (call m p)

  call-IsDone :
      (m : Method R) (p : Position R) → reopens m ≡ false → IsDone p.state → IsDone (call m p).state
  unfolding call mark_submitted mark_confirming mark_active mark_selling mark_closed mark_failed
      revert_to_active record_zero_balance_sell_skip update_price
  call-IsDone (submits sig) p keeps d = ground arith
  call-IsDone confirms p keeps d = ground arith
  call-IsDone (activates now n price) p keeps d = ground arith
  call-IsDone sells p keeps d = ground arith
  call-IsDone (closes sig) p keeps d = ground arith
  call-IsDone fails p keeps d = ground arith
  call-IsDone reverts p keeps d = ground arith
  call-IsDone (restores previous) p keeps d = cc keeps
  call-IsDone skips_zero_balance p keeps d = ground arith
  call-IsDone (sells_part n) p keeps d = cc keeps
  call-IsDone (updates_price x) p keeps d = ground arith

  -- A closed or failed position stays closed or failed in any history of calls of the methods without
  -- `apply_partial_sell` and `restore_after_sell_attempt`, which set the state from any other.
  pub calls-IsDone :
      (ms : List (Method R)) (p : Position R)
      → All (λ m. reopens m ≡ false) ms
      → IsDone p.state
      → IsDone (calls ms p).state
  unfolding calls
  calls-IsDone [] p keep d = d
  calls-IsDone (m ∷ ms) p keep d = calls-IsDone ms (call m p) keep.1 (call-IsDone m p keep.0 d)

module _ {R : Type 0} where
  -- Sales of parts, in order; a sale of nothing, or of more than is held, is refused.
  pub partial_sells : List ℕ → Position R → Position R × ℕ
  partial_sells [] p = (p, 0)
  partial_sells (n ∷ ns) p =
      let (q, accepted) = apply_partial_sell n p in
      let rest = partial_sells ns q in (rest.0, (if accepted then n else 0) + rest.1)

  -- However the parts are chosen, what was sold and what is left add up to the amount held.
  pub partial_sells_total :
      (ns : List ℕ) (p : Position R)
      → (partial_sells ns p).1 + (partial_sells ns p).0.token_amount ≡ p.token_amount
  unfolding partial_sells apply_partial_sell
  partial_sells_total [] p = omega arith
  partial_sells_total (n ∷ ns) p = ground (arith, partial_sells_total ns (apply_partial_sell n p).0)
