-- ===== src/Manager/Store.antt =====
-- copy-trader-v1.6.63/src/autosell/manager.rs: the positions by group and token, the operations on
-- them, and the file that `save` writes.
use rust_solana_cc_v.Prelude.{
  ℕ, max, Bool, false, not, ◌&&◌, ◌||◌, Option, none, some, List, map, ◌==◌, length, retain, Str,
  Str-discrete, str_eq, ℕ_discrete, Pubkey, Assoc, get, insert,
}
use rust_solana_cc_v.Float.{F64}
use rust_solana_cc_v.Position.State.{
  PositionState, Position, PositionKey, is_closed, is_failed, is_selling, key, mark_submitted,
  mark_confirming, mark_selling, mark_closed, mark_failed, revert_to_active,
  restore_after_sell_attempt, record_zero_balance_sell_skip, apply_partial_sell, can_sell,
}
use rust_solana_cc_v.Position.Prices.{mark_active}
use rust_solana_cc_v.Manager.Persistence.{AddressText, SavedPosition, save_positions}

unfoldable pub PositionKey-discrete : Discrete PositionKey
unfolding Str-discrete ℕ_discrete
PositionKey-discrete = hlevel (Str-discrete, ℕ_discrete)

pub record AutoSellManager (R : Type 0) : Type 0 where
  pub positions : Assoc PositionKey (Position R)
  pub file : Option (List (SavedPosition R))

module _ {R : Type 0} where
  abbrev pub lookup : PositionKey → AutoSellManager R → Option (Position R)
  lookup k m = get PositionKey-discrete k m.positions

  -- `if let Some(mut pos) = self.positions.get_mut(key) { ... }`
  unfoldable pub modify :
      PositionKey → (Position R → Position R) → AutoSellManager R → AutoSellManager R
  modify k f m = elim (lookup k m) [
    | none ↦ m
    | some p ↦ record m { positions = insert PositionKey-discrete k (f p) m.positions }
  ]

  unfoldable pub update_token_info : PositionKey → Str → R → AutoSellManager R → AutoSellManager R
  unfolding modify
  update_token_info k name mcap m =
      modify k (λ p. record p { token_name = name; entry_mcap_sol = mcap }) m

  module _ (t : AddressText) where
    unfoldable pub save : AutoSellManager R → AutoSellManager R
    save m = record m { file = some (save_positions t m.positions) }

    unfoldable pub add_position : Position R → AutoSellManager R → AutoSellManager R
    unfolding save
    add_position p m =
        save (record m { positions = insert PositionKey-discrete (key p) p m.positions })

    unfoldable pub close_position : PositionKey → Str → AutoSellManager R → AutoSellManager R
    unfolding save modify
    close_position k signature m = save (modify k (λ p. (mark_closed signature p).0) m)

    unfoldable pub revert_position : PositionKey → AutoSellManager R → AutoSellManager R
    unfolding save modify
    revert_position k m = save (modify k (λ p. (revert_to_active p).0) m)

    unfoldable pub restore_position :
        PositionKey → PositionState → AutoSellManager R → AutoSellManager R
    unfolding save modify
    restore_position k previous m =
        save (modify k (λ p. (restore_after_sell_attempt previous p).0) m)

    unfoldable pub suspend_auto_sell :
        PositionKey → PositionState → ℕ → AutoSellManager R → AutoSellManager R
    unfolding save modify
    suspend_auto_sell k previous max_attempts m = save (
        modify k
          (λ p. record p { state = previous; sell_attempts = max p.sell_attempts max_attempts }) m)

    unfoldable pub sell_part : PositionKey → ℕ → AutoSellManager R → AutoSellManager R
    unfolding save modify
    sell_part k sold m = save (modify k (λ p. (apply_partial_sell sold p).0) m)

    unfoldable pub confirm_failed : PositionKey → AutoSellManager R → AutoSellManager R
    unfolding save modify
    confirm_failed k m = save (modify k (λ p. (mark_failed p).0) m)

    unfoldable pub skip_zero_balance :
        PositionKey → AutoSellManager R → AutoSellManager R × Option ℕ
    unfolding save modify
    skip_zero_balance k m = elim (lookup k m) [
      | none ↦ (m, none)
      | some p ↦ (
        save (modify k (λ q. (record_zero_balance_sell_skip q).0) m),
        some (record_zero_balance_sell_skip p).1,
      )
    ]

  unfoldable pub submit_position : PositionKey → Str → AutoSellManager R → AutoSellManager R
  unfolding modify
  submit_position k signature m = modify k (λ p. (mark_submitted signature p).0) m

  unfoldable pub confirm_position : PositionKey → AutoSellManager R → AutoSellManager R
  unfolding modify
  confirm_position k m = modify k (λ p. (mark_confirming p).0) m

  unfoldable pub sell_position : PositionKey → AutoSellManager R → AutoSellManager R × Bool
  unfolding modify
  sell_position k m = elim (lookup k m) [
    | none ↦ (m, false)
    | some p ↦ (modify k (λ q. (mark_selling q).0) m, (mark_selling p).1)
  ]

  -- The queries over all entries.
  abbrev pub is_open : Position R → Bool
  is_open p = not (is_closed p.state || is_failed p.state)

  unfoldable pub open_position_count_for_mint : Pubkey → AutoSellManager R → ℕ
  open_position_count_for_mint mint m =
      length (retain (λ e. (e.0.token_mint == mint) && is_open e.1) m.positions)

  unfoldable pub get_positions_for_mint : Pubkey → AutoSellManager R → List (Position R)
  get_positions_for_mint mint m = map (λ e. e.1) (retain (λ e. e.0.token_mint == mint) m.positions)

  unfoldable pub get_active_positions : AutoSellManager R → List (Position R)
  get_active_positions m =
      map (λ e. e.1) (retain (λ e. is_open e.1 && not (is_selling e.1.state)) m.positions)

  unfoldable pub get_group_positions : Str → AutoSellManager R → List (Position R)
  get_group_positions group_id m =
      map (λ e. e.1)
        (retain (λ e. str_eq e.0.group_id group_id && (is_open e.1 && not (is_selling e.1.state)))
          m.positions)

  unfoldable pub get_sellable_positions : AutoSellManager R → List PositionKey
  get_sellable_positions m = map (λ e. e.0) (retain (λ e. can_sell e.1) m.positions)

module _ {R : Type 0} ⦃f : F64 R⦄ where
  open f use {fmax}

  unfoldable pub confirm_success :
      ℕ → PositionKey → ℕ → Option R → AutoSellManager R → AutoSellManager R
  unfolding modify
  confirm_success now k actual bc_price m = modify k (λ p. (mark_active now actual bc_price p).0) m

  unfoldable pub update_entry_price : PositionKey → R → AutoSellManager R → AutoSellManager R
  unfolding modify
  update_entry_price k price m =
      modify k
        (λ p. record p { entry_price_sol = price; highest_price = fmax p.highest_price price }) m
