-- ===== src/Stream/Subscribe.antt =====
-- copy-trader-v1.6.63/src/grpc/subscriber.rs: the loop of `subscribe` on a connection. What the stream
-- delivers and the checks of the subscription are events; the trades go out through a channel.
use rust_solana_cc_v.Prelude.{
  ℕ, ◌+◌, Bool, ◌&&◌, Option, none, some, List, [], ◌∷◌, map, leb, if◌then◌else◌, length, Str,
  Pubkey,
}
use rust_solana_cc_v.Stream.Types.{DetectedTrade, StatusMeta, Transaction, Chain}
use rust_solana_cc_v.Stream.Wallets.{same_wallets, update_target_wallets}
use rust_solana_cc_v.Stream.Cpi.{returned, missing_message, panicked}
use rust_solana_cc_v.Stream.Parse.{parse_transaction}

-- `SubscribeUpdateTransactionInfo`
pub record TransactionInfo : Type 0 where
  pub signature : List ℕ
  pub transaction : Option Transaction
  pub meta : Option StatusMeta

-- An update comes at a time, with the channel open or closed; the notification, or the tick, that
-- compares the wallets sends its request with success or not.
pub data StreamEvent : Type 0 where
  transaction_update : Option TransactionInfo → ℕ → Bool → StreamEvent
  other_update : StreamEvent
  stream_error stream_end : StreamEvent
  check_subscription : Bool → StreamEvent
  wallets_changed : List Pubkey → StreamEvent

pub data StreamStatus : Type 0 where
  running finished failed crashed : StreamStatus

-- The locals of the loop, with the wallets, the trades sent and the requests sent; the last comes first.
-- The counters, which go to the log alone, are not bounded.
pub record Subscription : Type 0 where
  pub target_wallets : List Pubkey
  pub last_wallets : List Pubkey
  pub total_received : ℕ
  pub total_matched : ℕ
  pub sent : List DetectedTrade
  pub requests : List (List Str)
  pub status : StreamStatus

module _ {V : Type 0} (chain : Chain V) where
  open chain use {to_text}

  -- The wallets of a request; its other fields are fixed.
  unfoldable pub build_subscribe_request : List Pubkey → List Str
  build_subscribe_request target_wallets = map to_text target_wallets

  unfoldable pub start : List Pubkey → Subscription
  unfolding build_subscribe_request
  start initial_wallets = record {
    target_wallets = initial_wallets;
    last_wallets = initial_wallets;
    total_received = 0;
    total_matched = 0;
    sent = [];
    requests = build_subscribe_request initial_wallets ∷ [];
    status = running;
  }

  -- Are the texts as long as the slices that the line of the log takes? Of a trade without a mint it
  -- takes 6 characters of the signature, which 8 cover.
  unfoldable pub detected_slices_fit : DetectedTrade → Bool
  detected_slices_fit trade =
      leb 4 (length (to_text trade.source_wallet)) && leb 8 (length trade.signature)

  unfoldable pub send_trade : DetectedTrade → Bool → Subscription → Subscription
  unfolding detected_slices_fit
  send_trade trade channel_open s =
      let matched = record s { total_matched = s.total_matched + 1 } in
      if detected_slices_fit trade
      then (if channel_open
          then record matched { sent = trade ∷ s.sent }
          else record matched { status = finished })
      else record matched { status = crashed }

  unfoldable pub receive : TransactionInfo → ℕ → Bool → Subscription → Subscription
  unfolding send_trade
  receive info recv_time channel_open s = elim info.transaction [
    | none ↦ s
    | some tx ↦
        elim (parse_transaction chain s.target_wallets info.signature tx tx.message info.meta
          recv_time) [
            | missing_message ↦ s
            | panicked ↦ record s { status = crashed }
            | returned o ↦ elim o [ none ↦ s | some trade ↦ send_trade trade channel_open s ]
          ]
  ]

  unfoldable pub check_wallets : Bool → Subscription → Subscription
  unfolding build_subscribe_request
  check_wallets request_sent s =
      if same_wallets s.target_wallets s.last_wallets
      then s
      else (if request_sent
          then record s {
            last_wallets = s.target_wallets;
            requests = build_subscribe_request s.target_wallets ∷ s.requests;
          }
          else s)

  abbrev one_received : Subscription → Subscription
  one_received s = record s { total_received = s.total_received + 1 }

  unfoldable pub handle_event : StreamEvent → Subscription → Subscription
  unfolding receive check_wallets
  handle_event (transaction_update none t channel_open) s = one_received s
  handle_event (transaction_update (some info) t channel_open) s =
      receive info t channel_open (one_received s)
  handle_event other_update s = s
  handle_event stream_error s = record s { status = failed }
  handle_event stream_end s = record s { status = finished }
  handle_event (check_subscription request_sent) s = check_wallets request_sent s
  handle_event (wallets_changed wallets) s = record s {
    target_wallets = (update_target_wallets to_text wallets s.target_wallets).0;
  }

  -- The loop, until it has ended.
  unfoldable pub subscribe : List StreamEvent → Subscription → Subscription
  unfolding handle_event
  subscribe [] s = s
  subscribe (e ∷ es) s =
      let rest = subscribe es (handle_event e s) in
      elim s.status [ running ↦ rest | finished ↦ s | failed ↦ s | crashed ↦ s ]
