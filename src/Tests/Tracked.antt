-- ===== src/Tests/Tracked.antt =====
-- A mint with its curve and token accounts in the stream of accounts.
use rust_solana_cc_v.Prelude.{
  false, length, ◌≡◌, refl, some, List, [], ◌∷◌, ◌++◌, Str, Pubkey, ℕ_discrete, get, insert, remove,
}
use rust_solana_cc_v.Pumpfun.Curve.{BondingCurveState, from_le_bytes, from_account_data}
use rust_solana_cc_v.Pumpfun.Layout.{to_le_bytes, account_of}
use rust_solana_cc_v.Accounts.Delivery.{put_in, put_read, curve_sent, handle_account_update-tracked}
use rust_solana_cc_v.Accounts.Subscriber.{
  AccountInfo, balance_update, AccountSubscriber, empty_subscriber, track_bonding_curve, track_ata,
  untrack_mint, accounts_of, remove_all, ata_amount, update_balance, handle_account_update,
}
use rust_solana_cc_v.Accounts.Stream.{
  AccountEvent, account_update, tick, curve_tracked, ata_tracked, mint_untracked, balance_removed,
  curve_fetched, get_subscribed_addresses, keys_of_map, start_accounts, check_accounts,
  handle_event, subscribe,
}
use rust_solana_cc_v.Accounts.Untracked.{IsUntracked}
use rust_solana_cc_v.Accounts.Runs.{untrack_mint_stays}

abbrev one_char : Pubkey → Str
one_char k = k ∷ []

-- The mint 90 with the curve 50 and the token account 51.
abbrev tracked : AccountSubscriber
tracked = track_ata 90 51 2 (track_bonding_curve 90 50 1 empty_subscriber)

-- The account 51 with 300 tokens.
abbrev balance : AccountEvent
balance = account_update (
    some (record {
      pubkey = to_le_bytes 32 51;
      bytes = to_le_bytes 32 90 ++ to_le_bytes 32 11 ++ to_le_bytes 8 300;
      slot = 4;
    }))

received :
    get ℕ_discrete 90
      (subscribe one_char (balance ∷ []) (start_accounts one_char tracked)).subscriber.ata_cache
    ≡ some 300
unfolding subscribe handle_event handle_account_update update_balance ata_amount track_ata
    track_bonding_curve start_accounts get insert from_le_bytes to_le_bytes ℕ_discrete
received = refl

abbrev curve_state : BondingCurveState
curve_state = record {
  virtual_token_reserves = 1073000000000000;
  virtual_sol_reserves = 30000000000;
  real_token_reserves = 793100000000000;
  real_sol_reserves = 0;
  token_total_supply = 1000000000000000;
  complete = false;
  creator = some 5;
  is_mayhem_mode = false;
  is_cashback = false;
}

abbrev late : List AccountEvent
late =
    balance ∷ curve_tracked 91 60 5 ∷ tick ∷ balance_removed 90 ∷ curve_fetched 91 curve_state ∷ []

untrack_mint_stays_example :
    IsUntracked 90
      (subscribe one_char late (record (start_accounts one_char tracked) {
        subscriber = untrack_mint 90 tracked;
      })).subscriber
unfolding start_accounts
untrack_mint_stays_example =
    untrack_mint_stays 90 one_char late (start_accounts one_char tracked)
      (refl, (refl, (refl, (refl, (refl, tt)))))

-- The accounts are compared by their number: after one account is exchanged for another, no request
-- names the new one.
exchanged :
    (subscribe one_char
      (mint_untracked 90 ∷ curve_tracked 91 60 5 ∷ ata_tracked 91 61 5 ∷ tick ∷ [])
      (start_accounts one_char tracked)).requests
    ≡ ((50 ∷ []) ∷ (51 ∷ []) ∷ []) ∷ []
unfolding subscribe handle_event check_accounts get_subscribed_addresses keys_of_map untrack_mint
    accounts_of remove_all track_ata track_bonding_curve start_accounts insert remove ℕ_discrete
exchanged = refl

abbrev curve_info : AccountInfo
curve_info = record {
  pubkey = to_le_bytes 32 50;
  bytes =
      account_of (1 ∷ 2 ∷ 3 ∷ 4 ∷ 5 ∷ 6 ∷ 7 ∷ 8 ∷ []) 1073000000000000 30000000000 793100000000000 0
        1000000000000000 false 5 false false;
  slot = 4;
}

curve_read : from_account_data curve_info.bytes ≡ some curve_state
unfolding from_account_data account_of to_le_bytes from_le_bytes
curve_read = refl

whole_key : length curve_info.pubkey ≡ 32
unfolding to_le_bytes
whole_key = refl

handle_account_update-tracked_example :
    (let k = from_le_bytes curve_info.pubkey in
      let balance = handle_account_update (some curve_info) (track_ata 90 k 2 empty_subscriber) in
      let curve =
        handle_account_update (some curve_info) (track_bonding_curve 90 k 2 empty_subscriber) in
      (get ℕ_discrete 90 balance.0.ata_cache
        ≡ put_in 90 (ata_amount curve_info.bytes) empty_subscriber.ata_cache 90)
      × (balance.1
          ≡ some (
              balance_update (record {
                ata_address = k;
                mint = 90;
                amount = ata_amount curve_info.bytes;
                slot = 4;
              })))
      × (get ℕ_discrete 90 curve.0.bc_cache
          ≡ put_read 90 (from_account_data curve_info.bytes) empty_subscriber.bc_cache 90)
      × (curve.1 ≡ curve_sent 90 k 4 (from_account_data curve_info.bytes)))
handle_account_update-tracked_example =
    handle_account_update-tracked 90 90 2 curve_info empty_subscriber whole_key
