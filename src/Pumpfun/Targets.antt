-- ===== src/Pumpfun/Targets.antt =====
-- copy-trader-v1.6.63/src/processor/pumpfun.rs: the amounts of the buys that are built.
use rust_solana_cc_v.Prelude.{
  ℕ, ◌≡◌, ◌≤◌, ◌<◌, refl, inl, inr, false, some, List, arith, length, take, Bool-cases, str_eq,
  str_eq_iff,
}
use rust_solana_cc_v.Float.{F64}
use rust_solana_cc_v.Pumpfun.Curve.{BondingCurveState, from_le_bytes, slice, sol_to_token_quote}
use rust_solana_cc_v.Pumpfun.Buy.{
  max_pump_raw_supply, buy_discriminator, Result, ok, bail, TargetBuyInstruction, buy,
  buy_exact_sol_in, validate_buy_amount, BuyAmounts, buy_standard_from_cached_state,
  parse_target_buy_instruction, target_instruction_requires_curve, estimated_quote, buy_like_target,
  buy_from_target_instruction,
}

-- The amount that was validated is in the bounds.
validate_buy_amount-ok :
    (n : ℕ) (s : BondingCurveState)
    → validate_buy_amount n (some s) ≡ ok tt
    → (0 < n) × (n ≤ max_pump_raw_supply) × (0 < s.real_token_reserves → n ≤ s.real_token_reserves)
unfolding validate_buy_amount
validate_buy_amount-ok n s h = (ground arith, ground arith, λ pos. ground arith)

-- A buy that `buy_standard_from_cached_state` builds is on a curve that is not complete, for the quoted number of
-- tokens, which is positive, within the supply, and within the curve's tokens if it has any.
pub buy_standard_from_cached_state_sound :
    (sol_amount slippage_bps : ℕ) (s : BondingCurveState) (a : BuyAmounts)
    → buy_standard_from_cached_state sol_amount slippage_bps s ≡ ok a
    → (s.complete ≡ false)
      × (a.token_amount ≡ sol_to_token_quote sol_amount s)
      × (a.sol_amount ≡ sol_amount)
      × (0 < a.token_amount)
      × (a.token_amount ≤ max_pump_raw_supply)
      × (0 < s.real_token_reserves → a.token_amount ≤ s.real_token_reserves)
unfolding buy_standard_from_cached_state validate_buy_amount
buy_standard_from_cached_state_sound sol_amount slippage_bps s a h =
    (ground arith, ground arith, ground arith, ground arith, ground arith, λ pos. ground arith)

parse_buy :
    (bytes : List ℕ) (tokens max_sol : ℕ)
    → parse_target_buy_instruction bytes ≡ ok (buy tokens max_sol)
    → (24 ≤ length bytes)
      × (take 8 bytes ≡ buy_discriminator)
      × (tokens ≡ from_le_bytes (slice 8 8 bytes))
      × (max_sol ≡ from_le_bytes (slice 16 8 bytes))
      × (0 < tokens)
      × (0 < max_sol)
unfolding parse_target_buy_instruction
parse_buy bytes tokens max_sol h = elim (Bool-cases (str_eq (take 8 bytes) buy_discriminator)) [
  | inl is ↦
      (ground arith, (str_eq_iff _ _).0 is, ground arith, ground arith, ground arith, ground arith)
  | inr not ↦ absurd (ground arith)
]

buy_like_target-bounds :
    {R : Type 0} (f : F64 R) (tokens max_sol sol_amount slippage_bps : ℕ) (a : BuyAmounts)
    → buy_like_target f tokens max_sol sol_amount slippage_bps ≡ ok a
    → (0 < a.token_amount) × (a.token_amount ≤ max_pump_raw_supply)
unfolding buy_like_target validate_buy_amount
buy_like_target-bounds f tokens max_sol sol_amount slippage_bps a h =
    let n = estimated_quote f max_sol tokens sol_amount in ground arith

-- A buy that is built from the target's instruction alone is built from a `buy` instruction, with
-- positive amounts, which does not wait for the curve; its tokens are positive and within the supply.
pub buy_from_target_instruction_sound :
    {R : Type 0} (f : F64 R) (bytes : List ℕ) (sol_amount slippage_bps : ℕ) (a : BuyAmounts)
    → buy_from_target_instruction f bytes sol_amount slippage_bps ≡ ok a
    → (target_instruction_requires_curve bytes ≡ false)
      × (24 ≤ length bytes)
      × (take 8 bytes ≡ buy_discriminator)
      × (0 < from_le_bytes (slice 8 8 bytes))
      × (0 < from_le_bytes (slice 16 8 bytes))
      × (0 < a.token_amount)
      × (a.token_amount ≤ max_pump_raw_supply)
unfolding buy_from_target_instruction target_instruction_requires_curve
buy_from_target_instruction_sound f bytes sol_amount slippage_bps a h =
    go (parse_target_buy_instruction bytes) refl
  where
    go :
        (r : Result TargetBuyInstruction)
        → parse_target_buy_instruction bytes ≡ r
        → (target_instruction_requires_curve bytes ≡ false)
          × (24 ≤ length bytes)
          × (take 8 bytes ≡ buy_discriminator)
          × (0 < from_le_bytes (slice 8 8 bytes))
          × (0 < from_le_bytes (slice 16 8 bytes))
          × (0 < a.token_amount)
          × (a.token_amount ≤ max_pump_raw_supply)
    go (bail e) p = absurd (ground arith)
    go (ok (buy_exact_sol_in n)) p = absurd (ground arith)
    go (ok (buy tokens max_sol)) p =
        let parsed = parse_buy bytes tokens max_sol p in
        let bounds =
          buy_like_target-bounds f tokens max_sol sol_amount slippage_bps a (ground arith) in
        (ground arith, parsed.0, parsed.1, ground arith, ground arith, bounds.0, bounds.1)
