-- ===== src/Tests/Pumps.antt =====
-- The bonding curve of a new token, with 30 SOL and 1073 million tokens, and an instruction of a target.
use rust_solana_cc_v.Prelude.{
  ℕ, ◌≡◌, ◌≤◌, ◌<◌, refl, false, some, List, [], ◌∷◌, ◌++◌, arith, length, take, Str-discrete,
}
use rust_solana_cc_v.Pumpfun.Curve.{
  BondingCurveState, sol_to_token_quote, token_to_sol_quote, from_account_data, from_le_bytes,
  slice,
}
use rust_solana_cc_v.Pumpfun.Buy.{
  ok, BuyAmounts, max_pump_raw_supply, buy_discriminator, validate_buy_amount, max_sol_cost_of,
  buy_standard_from_cached_state, parse_target_buy_instruction, target_instruction_requires_curve,
  estimated_v_token, estimated_quote, buy_like_target, buy_from_target_instruction,
}
use rust_solana_cc_v.Pumpfun.Quotes.{after_buy, product, sol_to_token_quote_fair, round_trip_loses}
use rust_solana_cc_v.Pumpfun.Layout.{account_of, from_account_data-account_of}
use rust_solana_cc_v.Pumpfun.Targets.{
  buy_standard_from_cached_state_sound, buy_from_target_instruction_sound,
}
use rust_solana_cc_v.Tests.Samples.{whole}

abbrev curve : BondingCurveState
curve = record {
  virtual_token_reserves = 1073000000000000;
  virtual_sol_reserves = 30000000000;
  real_token_reserves = 793100000000000;
  real_sol_reserves = 0;
  token_total_supply = 1000000000000000;
  complete = false;
  creator = some 5;
  is_mayhem_mode = false;
  is_cashback = false;
}

sol_to_token_quote_fair_example :
    let q = sol_to_token_quote 1000000000 curve in
    (q ≤ 1073000000000000)
    × (product curve ≤ product (after_buy 1000000000 q curve))
    × ((n : ℕ)
        → n ≤ 1073000000000000
        → product curve ≤ product (after_buy 1000000000 n curve)
        → n ≤ q)
sol_to_token_quote_fair_example =
    sol_to_token_quote_fair 1000000000 curve (omega arith) (omega arith)

round_trip_loses_example :
    let q = sol_to_token_quote 1000000000 curve in
    token_to_sol_quote q (after_buy 1000000000 q curve) ≤ 1000000000
round_trip_loses_example = round_trip_loses 1000000000 curve (omega arith) (omega arith)

from_account_data-account_of_example :
    from_account_data (
      account_of
        (1 ∷ 2 ∷ 3 ∷ 4 ∷ 5 ∷ 6 ∷ 7 ∷ 8 ∷ [])
        1073000000000000
        30000000000
        793100000000000
        0
        1000000000000000
        false
        5
        false
        false)
    ≡ some curve
from_account_data-account_of_example =
    from_account_data-account_of 1 2 3 4 5 6 7 8 1073000000000000 30000000000 793100000000000 0
      1000000000000000 false 5 false false (omega arith) (omega arith) (omega arith) (omega arith)
      (omega arith) (omega arith)

abbrev amounts : BuyAmounts
amounts = record {
  token_amount = 34612903225806;
  max_sol_cost = 1100000000;
  sol_amount = 1000000000;
}

standard_buy : buy_standard_from_cached_state 1000000000 1000 curve ≡ ok amounts
unfolding buy_standard_from_cached_state sol_to_token_quote validate_buy_amount max_sol_cost_of
standard_buy = refl

buy_standard_from_cached_state_sound_example :
    (curve.complete ≡ false)
    × (34612903225806 ≡ sol_to_token_quote 1000000000 curve)
    × (amounts.sol_amount ≡ 1000000000)
    × (0 < amounts.token_amount)
    × (amounts.token_amount ≤ max_pump_raw_supply)
    × (0 < curve.real_token_reserves → amounts.token_amount ≤ curve.real_token_reserves)
buy_standard_from_cached_state_sound_example =
    buy_standard_from_cached_state_sound 1000000000 1000 curve amounts standard_buy

-- 10 tokens for at most 20 lamports.
abbrev target : List ℕ
target = buy_discriminator ++ (10 ∷ 0 ∷ 0 ∷ 0 ∷ 0 ∷ 0 ∷ 0 ∷ 0 ∷ 20 ∷ 0 ∷ 0 ∷ 0 ∷ 0 ∷ 0 ∷ 0 ∷ 0 ∷ [])

abbrev copied : BuyAmounts
copied = record { token_amount = 483870967; max_sol_cost = 1100000000; sol_amount = 1000000000 }

target_buy : buy_from_target_instruction whole target 1000000000 1000 ≡ ok copied
unfolding buy_from_target_instruction parse_target_buy_instruction buy_like_target estimated_quote
    estimated_v_token validate_buy_amount max_sol_cost_of from_le_bytes Str-discrete
target_buy = refl

buy_from_target_instruction_sound_example :
    (target_instruction_requires_curve target ≡ false)
    × (24 ≤ length target)
    × (take 8 target ≡ buy_discriminator)
    × (0 < from_le_bytes (slice 8 8 target))
    × (0 < from_le_bytes (slice 16 8 target))
    × (0 < copied.token_amount)
    × (copied.token_amount ≤ max_pump_raw_supply)
buy_from_target_instruction_sound_example =
    buy_from_target_instruction_sound whole target 1000000000 1000 copied target_buy
