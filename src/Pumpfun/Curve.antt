-- ===== src/Pumpfun/Curve.antt =====
-- copy-trader-v1.6.63/src/processor/pumpfun.rs: the state of a bonding curve, read from its account,
-- and its quotes. Amounts are `u64`, products `u128`.
use rust_solana_cc_v.Prelude.{
  ℕ, ◌+◌, ◌*◌, ◌/◌, ◌%◌, Bool, false, not, Option, none, some, List, [], ◌∷◌, leb, ltb, ◌==◌,
  if◌then◌else◌, length, get_elem?, take, drop, Pubkey,
}
use rust_solana_cc_v.Float.{F64}

pub record BondingCurveState : Type 0 where
  pub virtual_token_reserves : ℕ
  pub virtual_sol_reserves : ℕ
  pub real_token_reserves : ℕ
  pub real_sol_reserves : ℕ
  pub token_total_supply : ℕ
  pub complete : Bool
  pub creator : Option Pubkey
  pub is_mayhem_mode : Bool
  pub is_cashback : Bool

-- `u64::from_le_bytes`, and the number of an address.
unfoldable pub from_le_bytes : List ℕ → ℕ
from_le_bytes [] = 0
from_le_bytes (b ∷ bs) = b + 256 * from_le_bytes bs

-- `data[from..from + count]`, within the bounds that the callers have tested.
abbrev pub slice : ℕ → ℕ → List ℕ → List ℕ
slice start count bytes = take count (drop start bytes)

-- `data[i] != 0`, within the bounds.
abbrev pub byte_flag : ℕ → List ℕ → Bool
byte_flag i bytes = elim (get_elem? bytes i) [ none ↦ false | some b ↦ not (b == 0) ]

unfoldable pub from_account_data : List ℕ → Option BondingCurveState
unfolding from_le_bytes
from_account_data bytes =
    if ltb (length bytes) 49
    then none
    else some (record {
      virtual_token_reserves = from_le_bytes (slice 8 8 bytes);
      virtual_sol_reserves = from_le_bytes (slice 16 8 bytes);
      real_token_reserves = from_le_bytes (slice 24 8 bytes);
      real_sol_reserves = from_le_bytes (slice 32 8 bytes);
      token_total_supply = from_le_bytes (slice 40 8 bytes);
      complete = byte_flag 48 bytes;
      creator = if leb 81 (length bytes) then some (from_le_bytes (slice 49 32 bytes)) else none;
      is_mayhem_mode = if ltb 81 (length bytes) then byte_flag 81 bytes else false;
      is_cashback = if ltb 82 (length bytes) then byte_flag 82 bytes else false;
    })

abbrev pub u64_mod : ℕ
u64_mod = 18446744073709551616

-- The products and sums of two `u64` fit a `u128`; the quotient is cut to a `u64`.
unfoldable pub sol_to_token_quote : ℕ → BondingCurveState → ℕ
sol_to_token_quote sol_amount s =
    if s.virtual_sol_reserves == 0
    then 0
    else s.virtual_token_reserves * sol_amount / (s.virtual_sol_reserves + sol_amount) % u64_mod

unfoldable pub token_to_sol_quote : ℕ → BondingCurveState → ℕ
token_to_sol_quote token_amount s =
    if s.virtual_token_reserves == 0
    then 0
    else s.virtual_sol_reserves * token_amount / (s.virtual_token_reserves + token_amount) % u64_mod

module _ {R : Type 0} ⦃f : F64 R⦄ where
  open f use {of_u64, mul, div}

  unfoldable pub price_sol : BondingCurveState → R
  price_sol s =
      if s.virtual_token_reserves == 0
      then of_u64 0
      else div (div (of_u64 s.virtual_sol_reserves) (of_u64 s.virtual_token_reserves)) (of_u64 1000)

  unfoldable pub market_cap_sol : BondingCurveState → R
  unfolding price_sol
  market_cap_sol s = mul (price_sol s) (of_u64 1000000000)
