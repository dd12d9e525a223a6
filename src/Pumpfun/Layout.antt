-- ===== src/Pumpfun/Layout.antt =====
-- copy-trader-v1.6.63/src/processor/pumpfun.rs: the layout of a bonding curve account, after the
-- comment on `BondingCurveState`, and its reading.
use native.Mathlib.Nat.{div-lt_iff_lt-mul}
use rust_solana_cc_v.Prelude.{
  ℕ, zero, suc, ◌/◌, ◌%◌, ◌^◌, ◌≡◌, ◌<◌, refl, not, ◌==◌, Bool, true, false, some, List, [], ◌∷◌,
  ◌++◌, arith, Pubkey,
}
use rust_solana_cc_v.Pumpfun.Curve.{from_le_bytes, from_account_data}

-- The bytes of a number, the lowest first.
unfoldable pub to_le_bytes : ℕ → ℕ → List ℕ
to_le_bytes zero n = []
to_le_bytes (suc w) n = n % 256 ∷ to_le_bytes w (n / 256)

pub from_le_bytes-to_le_bytes : (w n : ℕ) → n < 256 ^ w → from_le_bytes (to_le_bytes w n) ≡ n
unfolding from_le_bytes to_le_bytes
from_le_bytes-to_le_bytes zero n h = ground arith
from_le_bytes-to_le_bytes (suc w) n h =
    let pos : 0 < 256 = omega arith in
    let small : n / 256 < 256 ^ w = (div-lt_iff_lt-mul pos).1 (omega arith) in
    omega (arith, from_le_bytes-to_le_bytes w (n / 256) small)

abbrev pub byte_of : Bool → ℕ
byte_of true = 1
byte_of false = 0

-- The account of a curve with its creator: the discriminator, five numbers, three flags and the address.
unfoldable pub account_of : List ℕ → ℕ → ℕ → ℕ → ℕ → ℕ → Bool → Pubkey → Bool → Bool → List ℕ
unfolding to_le_bytes
account_of disc vt vs rt rs supply complete creator mayhem cashback =
    disc
    ++ to_le_bytes 8 vt
    ++ to_le_bytes 8 vs
    ++ to_le_bytes 8 rt
    ++ to_le_bytes 8 rs
    ++ to_le_bytes 8 supply
    ++ (byte_of complete ∷ to_le_bytes 32 creator ++ byte_of mayhem ∷ byte_of cashback ∷ [])

flag_of : (b : Bool) → not (byte_of b == 0) ≡ b
flag_of true = refl
flag_of false = refl

-- Where the numbers fit their fields, an account of 83 bytes in this layout is read as it was laid out.
pub from_account_data-account_of :
    (d0 d1 d2 d3 d4 d5 d6 d7 vt vs rt rs supply : ℕ) (complete : Bool) (creator : Pubkey)
    (mayhem cashback : Bool)
    → vt < 256 ^ 8
    → vs < 256 ^ 8
    → rt < 256 ^ 8
    → rs < 256 ^ 8
    → supply < 256 ^ 8
    → creator < 256 ^ 32
    → from_account_data (
        account_of
          (d0 ∷ d1 ∷ d2 ∷ d3 ∷ d4 ∷ d5 ∷ d6 ∷ d7 ∷ [])
          vt
          vs
          rt
          rs
          supply
          complete
          creator
          mayhem
          cashback)
      ≡ some (record {
        virtual_token_reserves = vt;
        virtual_sol_reserves = vs;
        real_token_reserves = rt;
        real_sol_reserves = rs;
        token_total_supply = supply;
        complete = complete;
        creator = some creator;
        is_mayhem_mode = mayhem;
        is_cashback = cashback;
      })
unfolding from_account_data account_of
from_account_data-account_of d0 d1 d2 d3 d4 d5 d6 d7 vt vs rt rs supply complete creator mayhem
      cashback h1 h2 h3 h4 h5 h6 =
    λ i. some (record {
      virtual_token_reserves = from_le_bytes-to_le_bytes 8 vt h1 i;
      virtual_sol_reserves = from_le_bytes-to_le_bytes 8 vs h2 i;
      real_token_reserves = from_le_bytes-to_le_bytes 8 rt h3 i;
      real_sol_reserves = from_le_bytes-to_le_bytes 8 rs h4 i;
      token_total_supply = from_le_bytes-to_le_bytes 8 supply h5 i;
      complete = flag_of complete i;
      creator = some (from_le_bytes-to_le_bytes 32 creator h6 i);
      is_mayhem_mode = flag_of mayhem i;
      is_cashback = flag_of cashback i;
    })
