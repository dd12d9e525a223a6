-- ===== src/Pumpfun/Quotes.antt =====
-- copy-trader-v1.6.63/src/processor/pumpfun.rs: the quotes, and the law of the constant product.
use native.Mathlib.Nat.{mul-div-le, div-le_of_le-mul, le-div_iff_mul-le}
use rust_solana_cc_v.Prelude.{ℕ, ◌+◌, ◌-◌, ◌*◌, ◌/◌, ◌≡◌, ◌≤◌, ◌<◌, ◌↔◌, arith}
use rust_solana_cc_v.Pumpfun.Curve.{
  BondingCurveState, u64_mod, sol_to_token_quote, token_to_sol_quote,
}

-- The curve after a buy of `tokens` for `sol` lamports.
abbrev pub after_buy : ℕ → ℕ → BondingCurveState → BondingCurveState
after_buy sol tokens s = record s {
  virtual_token_reserves = s.virtual_token_reserves - tokens;
  virtual_sol_reserves = s.virtual_sol_reserves + sol;
}

abbrev pub product : BondingCurveState → ℕ
product s = s.virtual_token_reserves * s.virtual_sol_reserves

share-le : (y x d : ℕ) → y * d / (x + d) ≤ y
share-le y x d = div-le_of_le-mul (x + d) (grind arith)

-- `n` tokens of `n + r` for `d` lamports on `x`: the product grows exactly when the tokens are no more
-- than their share.
product_grows : (n r x d : ℕ) → ((n + r) * x ≤ r * (x + d)) ↔ (n * (x + d) ≤ (n + r) * d)
product_grows n r x d = (λ h. grind arith, λ h. grind arith)

quote_value :
    (d : ℕ) (s : BondingCurveState)
    → s.virtual_token_reserves < u64_mod
    → 0 < s.virtual_sol_reserves
    → sol_to_token_quote d s ≡ s.virtual_token_reserves * d / (s.virtual_sol_reserves + d)
unfolding sol_to_token_quote
quote_value d s b pos = ground (arith, share-le s.virtual_token_reserves s.virtual_sol_reserves d)

-- The quote of a buy on a curve of `u64` reserves is the greatest number of tokens that leaves the product
-- of the reserves no smaller; it is no more than the reserves.
pub sol_to_token_quote_fair :
    (d : ℕ) (s : BondingCurveState)
    → s.virtual_token_reserves < u64_mod
    → 0 < s.virtual_sol_reserves
    → let q = sol_to_token_quote d s in
      (q ≤ s.virtual_token_reserves)
      × (product s ≤ product (after_buy d q s))
      × ((n : ℕ) → n ≤ s.virtual_token_reserves → product s ≤ product (after_buy d n s) → n ≤ q)
sol_to_token_quote_fair d s b pos =
    let y = s.virtual_token_reserves in
    let x = s.virtual_sol_reserves in
    let q = y * d / (x + d) in
    let total : 0 < x + d = omega arith in
    let le : q ≤ y = share-le y x d in
    let best : (n : ℕ) → n ≤ y → product s ≤ product (after_buy d n s) → n ≤ q =
      λ n m h. (le-div_iff_mul-le total).1 ((fits n m).0 h) in
    rw (quote_value d s b pos) (le, (fits q le).1 ((le-div_iff_mul-le total).0 (omega arith)), best)
  where
    fits :
        (n : ℕ)
        → n ≤ s.virtual_token_reserves
        → (product s ≤ product (after_buy d n s))
          ↔ (n * (s.virtual_sol_reserves + d) ≤ s.virtual_token_reserves * d)
    fits n m =
        let r = s.virtual_token_reserves - n in
        let whole : n + r ≡ s.virtual_token_reserves = omega arith in
        rw whole at (product_grows n r s.virtual_sol_reserves d)

-- Selling what was just bought, at the curve's own quotes, gives back no more than was paid.
pub round_trip_loses :
    (d : ℕ) (s : BondingCurveState)
    → s.virtual_token_reserves < u64_mod
    → 0 < s.virtual_sol_reserves
    → let q = sol_to_token_quote d s in token_to_sol_quote q (after_buy d q s) ≤ d
unfolding token_to_sol_quote
round_trip_loses d s b pos =
    let y = s.virtual_token_reserves in
    let x = s.virtual_sol_reserves in
    let q = y * d / (x + d) in
    let le : q ≤ y = share-le y x d in
    let whole : (y - q) + q ≡ y = omega arith in
    let share : (x + d) * q / y ≤ d = div-le_of_le-mul y (mul-div-le (y * d) (x + d)) in
    rw (quote_value d s b pos) (ground arith)
