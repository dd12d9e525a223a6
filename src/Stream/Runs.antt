-- ===== src/Stream/Runs.antt =====
-- copy-trader-v1.6.63/src/grpc/subscriber.rs: any run of the loop of `subscribe`.
use mathlib.Core.Path.{subst}
use rust_solana_cc_v.Prelude.{
  ℕ, ◌+◌, Bool, true, ◌≡◌, ◌≤◌, inl, inr, refl, Option, none, some, List, [], ◌∷◌, arith, length,
  Str, Pubkey, All, if_cases, sym, ap, ◌∙◌, Option-cases, Bool-cases,
}
use rust_solana_cc_v.Groups.Manager.{member}
use rust_solana_cc_v.Trade.{pumpfun}
use rust_solana_cc_v.Stream.Types.{DetectedTrade, StatusMeta, Message, Transaction, Chain}
use rust_solana_cc_v.Stream.Wallets.{same_wallets}
use rust_solana_cc_v.Stream.Cpi.{Outcome, returned, missing_message, panicked}
use rust_solana_cc_v.Stream.Parse.{parse_transaction}
use rust_solana_cc_v.Stream.Sorted.{same_wallets_eq}
use rust_solana_cc_v.Stream.Sound.{parse_transaction_sound}
use rust_solana_cc_v.Stream.Subscribe.{
  TransactionInfo, StreamEvent, transaction_update, other_update, stream_error, stream_end,
  check_subscription, wallets_changed, StreamStatus, running, finished, failed, crashed,
  Subscription, build_subscribe_request, start, detected_slices_fit, send_trade, receive,
  check_wallets, handle_event, subscribe,
}

while_running {κ} :
    (P : Subscription → Type κ) (status : StreamStatus) {s t : Subscription}
    → P t
    → P s
    → P (elim status [ running ↦ t | finished ↦ s | failed ↦ s | crashed ↦ s ])
while_running P running more ended = more
while_running P finished more ended = ended
while_running P failed more ended = ended
while_running P crashed more ended = ended

module _ {V : Type 0} (chain : Chain V) where
  -- The request that is in force.
  abbrev pub in_force : List (List Str) → List Str
  in_force [] = []
  in_force (r ∷ rs) = r

  -- A trade that may go out: its wallet is among its accounts, its kind Pump.fun.
  abbrev pub IsSendable : DetectedTrade → Type 0
  IsSendable trade =
      (member trade.source_wallet trade.all_account_keys ≡ true) × (trade.trade_type ≡ pumpfun)

  -- What holds of the locals of the loop.
  pub record IsConsistent (s : Subscription) : Type 0 where
    pub sent_sound : All IsSendable s.sent
    pub sent_counted : length s.sent ≤ s.total_matched
    pub matched_received : s.total_matched ≤ s.total_received
    pub request_current : in_force s.requests ≡ build_subscribe_request chain s.last_wallets

  parse-IsSendable :
      (targets : List Pubkey) (signature : List ℕ) (tx : Transaction) (message : Option Message)
      (meta : Option StatusMeta) (t : ℕ) (trade : DetectedTrade)
      → parse_transaction chain targets signature tx message meta t ≡ returned (some trade)
      → IsSendable trade
  unfolding parse_transaction
  parse-IsSendable targets signature tx none meta t trade h = cc
  parse-IsSendable targets signature tx (some message) meta t trade h =
      let sound = parse_transaction_sound chain targets signature tx message meta t trade h in
      let d = sound.2 in
      (subst (λ keys. member trade.source_wallet keys ≡ true) (sym d.keys_are) sound.1, d.kind_is)

  -- One more update is received.
  received-IsConsistent :
      (s : Subscription)
      → IsConsistent s
      → IsConsistent (record s { total_received = s.total_received + 1 })
  received-IsConsistent s h = record {
    sent_sound = h.sent_sound;
    sent_counted = h.sent_counted;
    matched_received = omega (arith, h.matched_received);
    request_current = h.request_current;
  }

  send_trade-IsConsistent :
      (trade : DetectedTrade) (channel_open : Bool) (s : Subscription)
      → IsSendable trade
      → IsConsistent s
      → s.total_matched + 1 ≤ s.total_received
      → IsConsistent (send_trade chain trade channel_open s)
  unfolding send_trade
  send_trade-IsConsistent trade channel_open s ok h room =
      let counted : length s.sent ≤ s.total_matched + 1 = omega (arith, h.sent_counted) in
      if_cases IsConsistent (detected_slices_fit chain trade)
        (λ fit.
          if_cases IsConsistent channel_open
            (λ is_open. record {
              sent_sound = (ok, h.sent_sound);
              sent_counted = omega (arith, h.sent_counted);
              matched_received = room;
              request_current = h.request_current;
            })
            (λ is_closed. record {
              sent_sound = h.sent_sound;
              sent_counted = counted;
              matched_received = room;
              request_current = h.request_current;
            }))
        (λ unfit. record {
          sent_sound = h.sent_sound;
          sent_counted = counted;
          matched_received = room;
          request_current = h.request_current;
        })

  with_status :
      (s : Subscription) (status : StreamStatus)
      → IsConsistent s
      → IsConsistent (record s { status = status })
  with_status s status h = record {
    sent_sound = h.sent_sound;
    sent_counted = h.sent_counted;
    matched_received = h.matched_received;
    request_current = h.request_current;
  }

  receive-IsConsistent :
      (info : TransactionInfo) (t : ℕ) (channel_open : Bool) (s : Subscription)
      → IsConsistent s
      → s.total_matched + 1 ≤ s.total_received
      → IsConsistent (receive chain info t channel_open s)
  unfolding receive
  receive-IsConsistent info t channel_open s h room = elim (Option-cases info.transaction) [
    | inl e ↦ rw (e, receive) h
    | inr (tx, e) ↦
        rw (e, receive)
          (outcome
            (parse_transaction chain s.target_wallets info.signature tx tx.message info.meta t)
            (λ trade.
              parse-IsSendable s.target_wallets info.signature tx tx.message info.meta t trade))
  ]
    where
      outcome :
          (o : Outcome (Option DetectedTrade))
          → ((trade : DetectedTrade) → o ≡ returned (some trade) → IsSendable trade)
          → IsConsistent (elim o [
            | missing_message ↦ s
            | panicked ↦ record s { status = crashed }
            | returned r ↦ elim r [ none ↦ s | some trade ↦ send_trade chain trade channel_open s ]
          ])
      outcome missing_message ok = h
      outcome panicked ok = with_status s crashed h
      outcome (returned none) ok = h
      outcome (returned (some trade)) ok =
          send_trade-IsConsistent trade channel_open s (ok trade refl) h room

  handle_event-IsConsistent :
      (e : StreamEvent) (s : Subscription) → IsConsistent s → IsConsistent (handle_event chain e s)
  unfolding handle_event check_wallets
  handle_event-IsConsistent (transaction_update none t channel_open) s h = received-IsConsistent s h
  handle_event-IsConsistent (transaction_update (some info) t channel_open) s h =
      receive-IsConsistent info t channel_open (record s { total_received = s.total_received + 1 })
        (received-IsConsistent s h) (omega (arith, h.matched_received))
  handle_event-IsConsistent other_update s h = h
  handle_event-IsConsistent stream_error s h = with_status s failed h
  handle_event-IsConsistent stream_end s h = with_status s finished h
  handle_event-IsConsistent (check_subscription request_sent) s h =
      if_cases IsConsistent (same_wallets s.target_wallets s.last_wallets) (λ same. h)
        (λ changed.
          if_cases IsConsistent request_sent
            (λ went_out. record {
              sent_sound = h.sent_sound;
              sent_counted = h.sent_counted;
              matched_received = h.matched_received;
              request_current = refl;
            })
            (λ lost. h))
  handle_event-IsConsistent (wallets_changed wallets) s h = record {
    sent_sound = h.sent_sound;
    sent_counted = h.sent_counted;
    matched_received = h.matched_received;
    request_current = h.request_current;
  }

  run-IsConsistent :
      (es : List StreamEvent) (s : Subscription)
      → IsConsistent s
      → IsConsistent (subscribe chain es s)
  unfolding subscribe
  run-IsConsistent [] s h = h
  run-IsConsistent (e ∷ es) s h =
      while_running IsConsistent s.status
        (run-IsConsistent es (handle_event chain e s) (handle_event-IsConsistent e s h)) h

  -- Whatever comes, every trade that is sent is on Pump.fun and of a wallet among the keys of its
  -- transaction, no more are sent than matched nor matched than received, and the last request names
  -- the wallets that the loop compares with; and a check whose request goes out leaves the last request
  -- naming the current wallets.
  pub subscribe-IsConsistent :
      (wallets : List Pubkey) (es : List StreamEvent)
      → (let s = subscribe chain es (start chain wallets) in
          IsConsistent s
          × (in_force (check_wallets chain true s).requests
              ≡ build_subscribe_request chain s.target_wallets))
  unfolding check_wallets start
  subscribe-IsConsistent wallets es =
      let began : IsConsistent (start chain wallets) = record {
        sent_sound = tt;
        sent_counted = omega arith;
        matched_received = omega arith;
        request_current = refl;
      } in
      let s = subscribe chain es (start chain wallets) in
      let h = run-IsConsistent es (start chain wallets) began in (h, current s h)
    where
      current :
          (s : Subscription)
          → IsConsistent s
          → in_force (check_wallets chain true s).requests
            ≡ build_subscribe_request chain s.target_wallets
      current s h = elim (Bool-cases (same_wallets s.target_wallets s.last_wallets)) [
        | inr changed ↦ rw (changed, check_wallets) refl
        | inl same ↦
            rw (same, check_wallets)
              (h.request_current
                ∙ ap (build_subscribe_request chain) (sym (same_wallets_eq _ _ same)))
      ]
