-- ===== src/Pumpfun/Buy.antt =====
-- copy-trader-v1.6.63/src/processor/pumpfun.rs: the amounts of a buy, and the buy instruction of the
-- wallet that is copied.
use rust_solana_cc_v.Prelude.{
  ℕ, ◌+◌, ◌*◌, ◌/◌, ◌%◌, max, Bool, true, false, ◌&&◌, ◌||◌, Option, none, some, List, [], ◌∷◌, ltb,
  ◌==◌, if◌then◌else◌, length, take, str_eq,
}
use rust_solana_cc_v.Float.{F64}
use rust_solana_cc_v.Pumpfun.Curve.{
  BondingCurveState, from_le_bytes, slice, u64_mod, sol_to_token_quote,
}

-- `PUMP_TOTAL_SUPPLY as u64 * 1_000_000`
abbrev pub max_pump_raw_supply : ℕ
max_pump_raw_supply = 1000000000000000

abbrev pub buy_discriminator : List ℕ
buy_discriminator = 102 ∷ 6 ∷ 61 ∷ 18 ∷ 1 ∷ 218 ∷ 235 ∷ 234 ∷ []

abbrev pub buy_exact_sol_in_discriminator : List ℕ
buy_exact_sol_in_discriminator = 56 ∷ 252 ∷ 116 ∷ 8 ∷ 158 ∷ 223 ∷ 205 ∷ 95 ∷ []

-- The errors, by what went wrong.
pub data BuyError : Type 0 where
  zero_tokens exceeds_supply exceeds_reserves curve_complete : BuyError
  data_too_short zero_amount unsupported_discriminator needs_curve : BuyError

pub data Result {ℓ} (A : Type ℓ) : Type ℓ where
  ok : A → Result A
  bail : BuyError → Result A

pub data TargetBuyInstruction : Type 0 where
  buy : ℕ → ℕ → TargetBuyInstruction
  buy_exact_sol_in : ℕ → TargetBuyInstruction

abbrev exceeds : ℕ → Option BondingCurveState → Bool
exceeds token_amount none = false
exceeds token_amount (some s) =
    ltb 0 s.real_token_reserves && ltb s.real_token_reserves token_amount

unfoldable pub validate_buy_amount : ℕ → Option BondingCurveState → Result (Unit {0})
validate_buy_amount token_amount curve_state =
    if token_amount == 0
    then bail zero_tokens
    else (if ltb max_pump_raw_supply token_amount
        then bail exceeds_supply
        else (if exceeds token_amount curve_state then bail exceeds_reserves else ok tt))

-- `sol_amount + (sol_amount * slippage_bps / 10_000)`, where `u64` wraps around.
unfoldable pub max_sol_cost_of : ℕ → ℕ → ℕ
max_sol_cost_of sol_amount slippage_bps =
    (sol_amount + sol_amount * slippage_bps % u64_mod / 10000) % u64_mod

-- The amounts that go into the instruction: the tokens, the greatest cost and the lamports.
pub record BuyAmounts : Type 0 where
  pub token_amount : ℕ
  pub max_sol_cost : ℕ
  pub sol_amount : ℕ

-- The amounts of `buy_standard_from_cached_state`.
unfoldable pub buy_standard_from_cached_state : ℕ → ℕ → BondingCurveState → Result BuyAmounts
unfolding validate_buy_amount max_sol_cost_of
buy_standard_from_cached_state sol_amount slippage_bps s =
    let token_amount = sol_to_token_quote sol_amount s in
    if s.complete then bail curve_complete else elim (validate_buy_amount token_amount (some s)) [
      | bail e ↦ bail e
      | ok _ ↦ ok (record {
        token_amount = token_amount;
        max_sol_cost = max_sol_cost_of sol_amount slippage_bps;
        sol_amount = sol_amount;
      })
    ]

-- The amounts of `buy_from_cached_state`, which does not validate the quote.
unfoldable pub buy_from_cached_state : ℕ → ℕ → BondingCurveState → Result BuyAmounts
unfolding max_sol_cost_of
buy_from_cached_state sol_amount slippage_bps s =
    if s.complete
    then bail curve_complete
    else ok (record {
      token_amount = sol_to_token_quote sol_amount s;
      max_sol_cost = max_sol_cost_of sol_amount slippage_bps;
      sol_amount = sol_amount;
    })

unfoldable pub parse_target_buy_instruction : List ℕ → Result TargetBuyInstruction
parse_target_buy_instruction bytes =
    let disc = take 8 bytes in
    let first = from_le_bytes (slice 8 8 bytes) in
    let second = from_le_bytes (slice 16 8 bytes) in
    if ltb (length bytes) 24
    then bail data_too_short
    else (if str_eq disc buy_discriminator
        then (if (first == 0) || (second == 0) then bail zero_amount else ok (buy first second))
        else (if str_eq disc buy_exact_sol_in_discriminator
            then (if first == 0 then bail zero_amount else ok (buy_exact_sol_in first))
            else bail unsupported_discriminator))

abbrev is_exact : Result TargetBuyInstruction → Bool
is_exact (ok (buy_exact_sol_in n)) = true
is_exact _ = false

unfoldable pub target_instruction_requires_curve : List ℕ → Bool
target_instruction_requires_curve bytes = is_exact (parse_target_buy_instruction bytes)

abbrev pub u128_mod : ℕ
u128_mod = 340282366920938463463374607431768211456

-- `estimated_v_sol`: 30 SOL.
abbrev pub estimated_v_sol : ℕ
estimated_v_sol = 30000000000

module _ {R : Type 0} (f : F64 R) where
  open f use {of_u64, div, flt, to_u128}

  unfoldable pub estimated_v_token : ℕ → ℕ → ℕ
  estimated_v_token target_max_sol target_token_amount =
      let price_per_raw = div (of_u64 target_max_sol) (of_u64 target_token_amount) in
      if flt (of_u64 0) price_per_raw
      then to_u128 (div (of_u64 estimated_v_sol) price_per_raw)
      else 1

  unfoldable pub estimated_quote : ℕ → ℕ → ℕ → ℕ
  unfolding estimated_v_token
  estimated_quote target_max_sol target_token_amount our_sol_amount =
      max
        (estimated_v_token target_max_sol target_token_amount
          * our_sol_amount
          % u128_mod
          / (estimated_v_sol + our_sol_amount))
        1
      % u64_mod

  -- The amounts of `buy_from_target_instruction`, once the instruction is parsed.
  unfoldable pub buy_like_target : ℕ → ℕ → ℕ → ℕ → Result BuyAmounts
  unfolding estimated_quote
  buy_like_target target_tokens target_max_sol our_sol_amount slippage_bps =
      let our_token_amount = estimated_quote target_max_sol target_tokens our_sol_amount in
      elim (validate_buy_amount our_token_amount none) [
        | bail e ↦ bail e
        | ok _ ↦ ok (record {
          token_amount = our_token_amount;
          max_sol_cost = max_sol_cost_of our_sol_amount slippage_bps;
          sol_amount = our_sol_amount;
        })
      ]

  unfoldable pub buy_from_target_instruction : List ℕ → ℕ → ℕ → Result BuyAmounts
  unfolding buy_like_target
  buy_from_target_instruction bytes our_sol_amount slippage_bps =
      elim (parse_target_buy_instruction bytes) [
        | bail e ↦ bail e
        | ok target ↦ elim target [
          | buy tokens max_sol ↦ buy_like_target tokens max_sol our_sol_amount slippage_bps
          | buy_exact_sol_in n ↦ bail needs_curve
        ]
      ]
