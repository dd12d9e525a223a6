-- ===== src/Manager/Persistence.antt =====
-- copy-trader-v1.6.63/src/autosell/persistence.rs: what `save_positions` writes to positions.json. The
-- file is the list that is handed to the JSON library, or nothing where none was written.
use rust_solana_cc_v.Prelude.{
  ℕ, Bool, ◌||◌, Option, List, [], ◌∷◌, if◌then◌else◌, Str, codes, Pubkey, Assoc,
}
use rust_solana_cc_v.Position.State.{
  PositionState, pending, submitted, confirming, active, selling, closed, failed, Position,
  PositionKey, is_submitted, is_confirming, is_active, is_selling,
}

-- The base58 text of an address, of the Solana SDK: `to_string` and `from_str`.
pub record AddressText : Type 0 where
  pub to_text : Pubkey → Str
  pub from_text : Str → Option Pubkey

unfoldable pub state_to_string : PositionState → Str
state_to_string pending = codes "PENDING"
state_to_string submitted = codes "SUBMITTED"
state_to_string confirming = codes "CONFIRMING"
state_to_string active = codes "ACTIVE"
state_to_string selling = codes "SELLING"
state_to_string closed = codes "CLOSED"
state_to_string failed = codes "FAILED"

pub record SavedPosition (R : Type 0) : Type 0 where
  pub group_id : Str
  pub group_name : Str
  pub token_mint : Str
  pub state : Str
  pub entry_sol_amount : ℕ
  pub token_amount : ℕ
  pub entry_price_sol : R
  pub highest_price : R
  pub current_price : R
  pub source_wallet : Str
  pub buy_signature : Str
  pub sell_attempts : ℕ
  pub zero_balance_sell_skips : ℕ
  pub token_name : Str
  pub entry_mcap_sol : R

module _ {R : Type 0} where
  -- The states that `save_positions` keeps.
  unfoldable pub is_saved : Position R → Bool
  is_saved p =
      is_submitted p.state || (is_confirming p.state || (is_active p.state || is_selling p.state))

  module _ (t : AddressText) where
    open t use {to_text}

    unfoldable pub saved_position : Position R → SavedPosition R
    saved_position p = record {
      group_id = p.group.id;
      group_name = p.group.name;
      token_mint = to_text p.token_mint;
      state = state_to_string p.state;
      entry_sol_amount = p.entry_sol_amount;
      token_amount = p.token_amount;
      entry_price_sol = p.entry_price_sol;
      highest_price = p.highest_price;
      current_price = p.current_price;
      source_wallet = to_text p.source_wallet;
      buy_signature = p.buy_signature;
      sell_attempts = p.sell_attempts;
      zero_balance_sell_skips = p.zero_balance_sell_skips;
      token_name = p.token_name;
      entry_mcap_sol = p.entry_mcap_sol;
    }

    unfoldable pub save_positions : Assoc PositionKey (Position R) → List (SavedPosition R)
    unfolding is_saved saved_position
    save_positions [] = []
    save_positions ((k, p) ∷ m) =
        if is_saved p then saved_position p ∷ save_positions m else save_positions m
