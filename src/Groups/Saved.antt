-- ===== src/Groups/Saved.antt =====
-- copy-trader-v1.6.63/src/groups.rs: the groups in copy_groups.json. The file is the state that its JSON
-- text stands for.
use rust_solana_cc_v.Prelude.{ℕ, Bool, Option, none, some, List, [], ◌∷◌, map, Str, Pubkey}
use rust_solana_cc_v.Groups.Group.{CopyGroup, AppConfig}
use rust_solana_cc_v.Manager.Persistence.{AddressText}

pub record PersistedGroup (R : Type 0) : Type 0 where
  pub id : Str
  pub name : Str
  pub enabled : Bool
  pub wallets : List Str
  pub consensus_min_wallets : ℕ
  pub consensus_timeout_secs : ℕ
  pub buy_sol_amount : R
  pub min_target_buy_sol : R
  pub take_profit_percent : R
  pub stop_loss_percent : R
  pub trailing_stop_percent : R
  pub slippage_bps : ℕ
  pub sell_slippage_bps : ℕ
  pub max_hold_seconds : ℕ
  pub tip_buy_lamports : ℕ
  pub tip_sell_lamports : ℕ
  pub zero_slot_tip_lamports : Option ℕ
  pub entry_mode : ℕ
  pub sell_mode : ℕ

pub record PersistedGroupsState (R : Type 0) : Type 0 where
  pub groups : List (PersistedGroup R)
  pub selected_group_id : Option Str
  pub blocklist : List Str
  pub zero_slot_buy_enabled : Bool

-- The loop over the wallets: one that cannot be read is an error.
unfoldable pub read_wallets : AddressText → List Str → Option (List Pubkey)
read_wallets t [] = some []
read_wallets t (s ∷ ss) =
    let rest = read_wallets t ss in
    elim (t.from_text s) [
      | none ↦ none
      | some w ↦ elim rest [ none ↦ none | some ws ↦ some (w ∷ ws) ]
    ]

abbrev pub unwrap_or : Option ℕ → ℕ → ℕ
unwrap_or none d = d
unwrap_or (some n) d = n

module _ {R : Type 0} (t : AddressText) where
  unfoldable pub from_group : CopyGroup R → PersistedGroup R
  from_group g = record {
    id = g.id;
    name = g.name;
    enabled = g.enabled;
    wallets = map t.to_text g.wallets;
    consensus_min_wallets = g.consensus_min_wallets;
    consensus_timeout_secs = g.consensus_timeout_secs;
    buy_sol_amount = g.buy_sol_amount;
    min_target_buy_sol = g.min_target_buy_sol;
    take_profit_percent = g.take_profit_percent;
    stop_loss_percent = g.stop_loss_percent;
    trailing_stop_percent = g.trailing_stop_percent;
    slippage_bps = g.slippage_bps;
    sell_slippage_bps = g.sell_slippage_bps;
    max_hold_seconds = g.max_hold_seconds;
    tip_buy_lamports = g.tip_buy_lamports;
    tip_sell_lamports = g.tip_sell_lamports;
    zero_slot_tip_lamports = some g.zero_slot_tip_lamports;
    entry_mode = g.entry_mode;
    sell_mode = g.sell_mode;
  }

  unfoldable pub into_group : AppConfig R → PersistedGroup R → Option (CopyGroup R)
  unfolding read_wallets
  into_group base s = elim (read_wallets t s.wallets) [
    | none ↦ none
    | some wallets ↦ some (record {
      id = s.id;
      name = s.name;
      enabled = s.enabled;
      wallets = wallets;
      consensus_min_wallets = s.consensus_min_wallets;
      consensus_timeout_secs = s.consensus_timeout_secs;
      buy_sol_amount = s.buy_sol_amount;
      min_target_buy_sol = s.min_target_buy_sol;
      take_profit_percent = s.take_profit_percent;
      stop_loss_percent = s.stop_loss_percent;
      trailing_stop_percent = s.trailing_stop_percent;
      slippage_bps = s.slippage_bps;
      sell_slippage_bps = s.sell_slippage_bps;
      max_hold_seconds = s.max_hold_seconds;
      tip_buy_lamports = s.tip_buy_lamports;
      tip_sell_lamports = s.tip_sell_lamports;
      zero_slot_tip_lamports = unwrap_or s.zero_slot_tip_lamports base.zero_slot_tip_lamports;
      entry_mode = s.entry_mode;
      sell_mode = s.sell_mode;
    })
  ]
