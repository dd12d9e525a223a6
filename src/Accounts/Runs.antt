-- ===== src/Accounts/Runs.antt =====
-- copy-trader-v1.6.63/src/grpc/account_subscriber.rs: a mint after `untrack_mint`, in any run of the loop.
use rust_solana_cc_v.Prelude.{
  Bool, false, ◌≡◌, List, [], ◌∷◌, ◌==◌, All, ℕ_discrete, Pubkey, length, Str, if_cases, All-insert,
  arith, get-insert, get-remove,
}
use rust_solana_cc_v.Accounts.Subscriber.{
  track_bonding_curve, track_ata, untrack_mint, prune_stale_candidate_mints, stale_mints,
  put_fetched_curve, remove_sold_balance,
}
use rust_solana_cc_v.Accounts.Stream.{
  AccountEvent, account_update, other_update, stream_error, stream_end, tick, curve_tracked,
  ata_tracked, mint_untracked, balance_removed, curve_fetched, pruned, AccountStream, AccountStatus,
  running, finished, failed, get_subscribed_addresses, check_accounts, handle_event, subscribe,
}
use rust_solana_cc_v.Accounts.Untracked.{
  IsUntracked, untrack_mint-IsUntracked, untrack_other, untrack_all-IsUntracked,
  handle_account_update-IsUntracked,
}

while_running {κ} :
    (P : AccountStream → Type κ) (status : AccountStatus) {s t : AccountStream}
    → P t
    → P s
    → P (elim status [ running ↦ t | finished ↦ s | failed ↦ s ])
while_running P running more ended = more
while_running P finished more ended = ended
while_running P failed more ended = ended

module _ (m : Pubkey) where
  -- The events that track an account of the mint, or put its curve into the cache.
  abbrev pub brings_back : AccountEvent → Bool
  brings_back (curve_tracked mint curve now) = mint == m
  brings_back (ata_tracked mint account now) = mint == m
  brings_back (curve_fetched mint state) = mint == m
  brings_back _ = false

  module _ (to_text : Pubkey → Str) where
    handle_event-IsUntracked :
        (e : AccountEvent) (s : AccountStream)
        → brings_back e ≡ false
        → IsUntracked m s.subscriber
        → IsUntracked m (handle_event to_text e s).subscriber
    unfolding handle_event put_fetched_curve remove_sold_balance check_accounts track_bonding_curve
        track_ata prune_stale_candidate_mints
    handle_event-IsUntracked (account_update info) s elsewhere h =
        handle_account_update-IsUntracked m info s.subscriber h
    handle_event-IsUntracked other_update s elsewhere h = h
    handle_event-IsUntracked stream_error s elsewhere h = h
    handle_event-IsUntracked stream_end s elsewhere h = h
    handle_event-IsUntracked tick s elsewhere h =
        if_cases (λ (t : AccountStream). IsUntracked m t.subscriber)
          (length (get_subscribed_addresses to_text s.subscriber) == s.last_subscribed_count)
          (λ same. h) (λ changed. h)
    handle_event-IsUntracked (curve_tracked mint curve now) s elsewhere h = record {
      no_curves =
          All-insert ℕ_discrete (λ v. (v == m) ≡ false) curve mint
            s.subscriber.bonding_curve_to_mint elsewhere h.no_curves;
      no_atas = h.no_atas;
      no_state = h.no_state;
      no_balance = h.no_balance;
    }
    handle_event-IsUntracked (ata_tracked mint account now) s elsewhere h = record {
      no_curves = h.no_curves;
      no_atas =
          All-insert ℕ_discrete (λ v. (v == m) ≡ false) account mint s.subscriber.ata_to_mint
            elsewhere h.no_atas;
      no_state = h.no_state;
      no_balance = h.no_balance;
    }
    handle_event-IsUntracked (mint_untracked mint) s elsewhere h =
        untrack_other m mint s.subscriber h
    handle_event-IsUntracked (balance_removed mint) s elsewhere h = record {
      no_curves = h.no_curves;
      no_atas = h.no_atas;
      no_state = h.no_state;
      no_balance =
          ground (arith, get-remove ℕ_discrete mint m s.subscriber.ata_cache, h.no_balance);
    }
    handle_event-IsUntracked (curve_fetched mint state) s elsewhere h = record {
      no_curves = h.no_curves;
      no_atas = h.no_atas;
      no_state =
          ground (
            arith,
            get-insert ℕ_discrete mint m state s.subscriber.bc_cache,
            h.no_state,
            elsewhere,
          );
      no_balance = h.no_balance;
    }
    handle_event-IsUntracked (pruned active max_idle now) s elsewhere h =
        untrack_all-IsUntracked m (stale_mints active max_idle now s.subscriber.mint_last_touched)
          s.subscriber h

    subscribe-IsUntracked :
        (es : List AccountEvent) (s : AccountStream)
        → All (λ e. brings_back e ≡ false) es
        → IsUntracked m s.subscriber
        → IsUntracked m (subscribe to_text es s).subscriber
    unfolding subscribe
    subscribe-IsUntracked [] s all h = h
    subscribe-IsUntracked (e ∷ es) s all h =
        while_running (λ t. IsUntracked m t.subscriber) s.status
          (subscribe-IsUntracked es (handle_event to_text e s) all.1
            (handle_event-IsUntracked e s all.0 h))
          h

    -- Once a mint is untracked, neither cache has anything of it and no account belongs to it, whatever
    -- the stream delivers and the other tasks do, up to the next call that tracks an account of the mint
    -- or write of a fetched state of its curve into the cache.
    pub untrack_mint_stays :
        (es : List AccountEvent) (s : AccountStream)
        → All (λ e. brings_back e ≡ false) es
        → IsUntracked m
            (subscribe to_text es
              (record s { subscriber = untrack_mint m s.subscriber })).subscriber
    untrack_mint_stays es s all =
        subscribe-IsUntracked es (record s { subscriber = untrack_mint m s.subscriber }) all
          (untrack_mint-IsUntracked m s.subscriber)
