-- ===== src/Accounts/Stream.antt =====
-- copy-trader-v1.6.63/src/grpc/account_subscriber.rs: the loop of `subscribe` on a connection, with the
-- calls of the other tasks between its steps, and their writes to the caches, as events: a task that has
-- fetched a curve puts its state into the cache (main.rs), and one that has sold out removes the balance
-- (tx/sell_executor.rs).
use rust_solana_cc_v.Prelude.{
  ℕ, Option, none, some, List, [], ◌∷◌, ◌==◌, map, if◌then◌else◌, length, Str, Pubkey, Assoc,
}
use rust_solana_cc_v.Pumpfun.Curve.{BondingCurveState}
use rust_solana_cc_v.Accounts.Subscriber.{
  AccountUpdate, AccountInfo, AccountSubscriber, track_bonding_curve, track_ata, untrack_mint,
  prune_stale_candidate_mints, handle_account_update, put_fetched_curve, remove_sold_balance,
}

pub data AccountEvent : Type 0 where
  account_update : Option AccountInfo → AccountEvent
  other_update stream_error stream_end tick : AccountEvent
  curve_tracked ata_tracked : Pubkey → Pubkey → ℕ → AccountEvent
  mint_untracked balance_removed : Pubkey → AccountEvent
  curve_fetched : Pubkey → BondingCurveState → AccountEvent
  pruned : List Pubkey → ℕ → ℕ → AccountEvent

pub data AccountStatus : Type 0 where
  running finished failed : AccountStatus

-- What is sent stands with the last first; a request that fails to go out counts as sent, as in the code.
pub record AccountStream : Type 0 where
  pub subscriber : AccountSubscriber
  pub last_subscribed_count : ℕ
  pub updates : List AccountUpdate
  pub requests : List (List Str)
  pub status : AccountStatus

-- The keys of a map.
unfoldable pub keys_of_map : {A : Type 0} → Assoc Pubkey A → List Pubkey
keys_of_map [] = []
keys_of_map ((k, v) ∷ entries) = k ∷ keys_of_map entries

abbrev pub push : Option AccountUpdate → List AccountUpdate → List AccountUpdate
push none sent = sent
push (some u) sent = u ∷ sent

module _ (to_text : Pubkey → Str) where
  unfoldable pub get_subscribed_addresses : AccountSubscriber → List Str
  unfolding keys_of_map
  get_subscribed_addresses s = map to_text (keys_of_map s.subscribed_accounts)

  unfoldable pub start_accounts : AccountSubscriber → AccountStream
  unfolding get_subscribed_addresses
  start_accounts s = record {
    subscriber = s;
    last_subscribed_count = length (get_subscribed_addresses s);
    updates = [];
    requests = get_subscribed_addresses s ∷ [];
    status = running;
  }

  unfoldable pub check_accounts : AccountStream → AccountStream
  unfolding get_subscribed_addresses
  check_accounts s =
      let current_accounts = get_subscribed_addresses s.subscriber in
      if length current_accounts == s.last_subscribed_count then s else record s {
        last_subscribed_count = length current_accounts;
        requests = current_accounts ∷ s.requests;
      }

  unfoldable pub handle_event : AccountEvent → AccountStream → AccountStream
  unfolding check_accounts
  handle_event (account_update info) s =
      let (subscriber, update) = handle_account_update info s.subscriber in
      record s { subscriber = subscriber; updates = push update s.updates }
  handle_event other_update s = s
  handle_event stream_error s = record s { status = failed }
  handle_event stream_end s = record s { status = finished }
  handle_event tick s = check_accounts s
  handle_event (curve_tracked mint curve now) s = record s {
    subscriber = track_bonding_curve mint curve now s.subscriber;
  }
  handle_event (ata_tracked mint account now) s = record s {
    subscriber = track_ata mint account now s.subscriber;
  }
  handle_event (mint_untracked mint) s = record s { subscriber = untrack_mint mint s.subscriber }
  handle_event (balance_removed mint) s = record s {
    subscriber = remove_sold_balance mint s.subscriber;
  }
  handle_event (curve_fetched mint state) s = record s {
    subscriber = put_fetched_curve mint state s.subscriber;
  }
  handle_event (pruned active max_idle now) s = record s {
    subscriber = (prune_stale_candidate_mints active max_idle now s.subscriber).0;
  }

  unfoldable pub subscribe : List AccountEvent → AccountStream → AccountStream
  unfolding handle_event
  subscribe [] s = s
  subscribe (e ∷ es) s =
      let rest = subscribe es (handle_event e s) in
      elim s.status [ running ↦ rest | finished ↦ s | failed ↦ s ]
