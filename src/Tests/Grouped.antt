-- ===== src/Tests/Grouped.antt =====
-- The groups after a start without a file, and one that is added.
use rust_solana_cc_v.Prelude.{ℕ, ◌+◌, ◌≡◌, ◌<◌, false, none, some, List, [], ◌∷◌, arith, Str, codes}
use rust_solana_cc_v.Groups.Group.{AppConfig, CopyGroup}
use rust_solana_cc_v.Groups.Ids.{u64_size, group_number, parse_u64, digits_from}
use rust_solana_cc_v.Groups.Manager.{GroupManager, get_group, max_index}
use rust_solana_cc_v.Groups.Changes.{add_group}
use rust_solana_cc_v.Groups.Load.{load_or_default}
use rust_solana_cc_v.Groups.Valid.{IsValid}
use rust_solana_cc_v.Groups.Histories.{Change, adds, adds_wallet, deletes, renames, changes}
use rust_solana_cc_v.Groups.Start.{history-IsValid}
use rust_solana_cc_v.Groups.Fresh.{add_group_keeps}
use rust_solana_cc_v.Tests.Samples.{one_code, group}

abbrev config : AppConfig ℕ
config = record {
  pubkey = 1;
  target_wallets = 11 ∷ [];
  consensus_min_wallets = 1;
  consensus_timeout_secs = 60;
  buy_sol_amount = 1;
  slippage_bps = 1000;
  sell_slippage_bps = 1000;
  min_target_buy_sol = 0;
  jito_buy_tip_lamports = 0;
  jito_sell_tip_lamports = 0;
  zero_slot_tip_lamports = 0;
  confirm_timeout_secs = 30;
  take_profit_percent = 30;
  stop_loss_percent = 20;
  trailing_stop_percent = 10;
  max_hold_seconds = 0;
}

abbrev history : List (Change ℕ)
history =
    adds (codes "second") config
    ∷ adds_wallet (codes "g2") 12
    ∷ deletes (codes "g1")
    ∷ renames (codes "g2") (codes " main ")
    ∷ []

history-IsValid_example : IsValid (changes one_code history (load_or_default one_code config none))
history-IsValid_example = history-IsValid one_code config none history

abbrev one_group : GroupManager ℕ
one_group = record {
  groups = (codes "g1", group) ∷ [];
  selected_group_id = some (codes "g1");
  blocklist = [];
  zero_slot_buy_enabled = false;
  file = none;
}

ids_left : max_index one_group.groups + 1 < u64_size
unfolding max_index group_number parse_u64 digits_from
ids_left = omega arith

add_group_keeps_example :
    let (m', g) = add_group one_code (codes "second") config one_group in
    (get_group g.id one_group ≡ none)
    × (get_group g.id m' ≡ some g)
    × (m'.selected_group_id ≡ some g.id)
    × (g.wallets ≡ [])
    × ((id : Str) (h : CopyGroup ℕ) → get_group id one_group ≡ some h → get_group id m' ≡ some h)
add_group_keeps_example = add_group_keeps one_code (codes "second") config one_group ids_left
