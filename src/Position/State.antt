-- ===== src/Position/State.antt =====
-- copy-trader-v1.6.63/src/autosell/position.rs: a position, and the methods that move it from one
-- state to another. A method that the source writes on `&mut self` returns the position after it,
-- beside its result. `now` is the value of `Instant::now()`, in nanoseconds.
use rust_solana_cc_v.Prelude.{
  ℕ, ◌+◌, ◌-◌, ◌/◌, ◌%◌, min, Bool, true, false, ◌&&◌, ◌||◌, Option, some, List, ltb, leb, ◌==◌,
  if◌then◌else◌, Str, Pubkey,
}
use rust_solana_cc_v.Groups.Group.{CopyGroup}

pub data PositionState : Type 0 where
  pending submitted confirming active selling closed failed : PositionState

pub PositionState-discrete : Discrete PositionState
PositionState-discrete = hlevel

pub data SellReason : Type 0 where
  take_profit stop_loss trailing_stop max_lifetime manual follow_sell : SellReason

abbrev pub is_pending : PositionState → Bool
is_pending pending = true
is_pending _ = false

abbrev pub is_submitted : PositionState → Bool
is_submitted submitted = true
is_submitted _ = false

abbrev pub is_confirming : PositionState → Bool
is_confirming confirming = true
is_confirming _ = false

abbrev pub is_active : PositionState → Bool
is_active active = true
is_active _ = false

abbrev pub is_selling : PositionState → Bool
is_selling selling = true
is_selling _ = false

abbrev pub is_closed : PositionState → Bool
is_closed closed = true
is_closed _ = false

abbrev pub is_failed : PositionState → Bool
is_failed failed = true
is_failed _ = false

pub record SellAccountSnapshot : Type 0 where
  pub bonding_curve : Pubkey
  pub associated_bonding_curve : Pubkey
  pub user_ata : Pubkey
  pub token_program : Pubkey
  pub mirror_accounts : List Pubkey
  pub source_wallet : Pubkey

pub record PositionKey : Type 0 where
  pub group_id : Str
  pub token_mint : Pubkey

pub record Position (R : Type 0) : Type 0 where
  pub group : CopyGroup R
  pub token_mint : Pubkey
  pub state : PositionState
  pub entry_sol_amount : ℕ
  pub token_amount : ℕ
  pub entry_price_sol : R
  pub token_name : Str
  pub entry_mcap_sol : R
  pub highest_price : R
  pub current_price : R
  pub created_at : ℕ
  pub confirmed_at : Option ℕ
  pub source_wallet : Pubkey
  pub buy_signature : Str
  pub sell_signature : Option Str
  pub sell_snapshot : Option SellAccountSnapshot
  pub pre_buy_ata_balance : ℕ
  pub sell_attempts : ℕ
  pub zero_balance_sell_skips : ℕ

abbrev pub u32_mod : ℕ
u32_mod = 4294967296

module _ {R : Type 0} where
  unfoldable pub key : Position R → PositionKey
  key p = record { group_id = p.group.id; token_mint = p.token_mint }

  unfoldable pub set_sell_snapshot : SellAccountSnapshot → Position R → Position R
  set_sell_snapshot snapshot p = record p { sell_snapshot = some snapshot }

  unfoldable pub set_token_amount_estimate : ℕ → Position R → Position R
  set_token_amount_estimate n p =
      if (p.token_amount == 0) && ltb 0 n then record p { token_amount = n } else p

  unfoldable pub mark_submitted : Str → Position R → Position R × Bool
  mark_submitted signature p =
      if is_pending p.state
      then (record p { buy_signature = signature; state = submitted }, true)
      else (p, false)

  unfoldable pub mark_confirming : Position R → Position R × Bool
  mark_confirming p =
      if is_submitted p.state then (record p { state = confirming }, true) else (p, false)

  unfoldable pub mark_selling : Position R → Position R × Bool
  mark_selling p =
      if is_active p.state || (is_confirming p.state || is_submitted p.state)
      then (
        record p {
          state = selling;
          sell_attempts = (p.sell_attempts + 1) % u32_mod;
          zero_balance_sell_skips = 0;
        },
        true,
      )
      else (p, false)

  unfoldable pub mark_closed : Str → Position R → Position R × Bool
  mark_closed signature p =
      if is_selling p.state
      then (record p { sell_signature = some signature; state = closed }, true)
      else (p, false)

  unfoldable pub mark_failed : Position R → Position R × Bool
  mark_failed p = (record p { state = failed }, true)

  unfoldable pub revert_to_active : Position R → Position R × Bool
  revert_to_active p =
      if is_selling p.state then (record p { state = active }, true) else (p, false)

  unfoldable pub restore_after_sell_attempt : PositionState → Position R → Position R × Bool
  restore_after_sell_attempt previous p = (record p { state = previous }, true)

  -- `saturating_add` on `u32`.
  unfoldable pub record_zero_balance_sell_skip : Position R → Position R × ℕ
  record_zero_balance_sell_skip p =
      let skips = min (p.zero_balance_sell_skips + 1) (u32_mod - 1) in
      (record p { zero_balance_sell_skips = skips }, skips)

  unfoldable pub apply_partial_sell : ℕ → Position R → Position R × Bool
  apply_partial_sell sold p =
      if (sold == 0) || ltb p.token_amount sold
      then (p, false)
      else (record p { token_amount = p.token_amount - sold; state = active }, true)

  -- `created_at.elapsed().as_secs()`
  unfoldable pub held_seconds : ℕ → Position R → ℕ
  held_seconds now p = (now - p.created_at) / 1000000000

  unfoldable pub can_check_stop_loss : Position R → Bool
  can_check_stop_loss p = is_active p.state

  unfoldable pub can_check_take_profit : Position R → Bool
  can_check_take_profit p = is_active p.state

  unfoldable pub can_sell : Position R → Bool
  can_sell p = is_active p.state || is_confirming p.state

  unfoldable pub max_sell_attempts_reached : ℕ → Position R → Bool
  max_sell_attempts_reached limit p = leb limit p.sell_attempts
