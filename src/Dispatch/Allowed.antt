-- ===== src/Dispatch/Allowed.antt =====
-- copy-trader-v1.6.63/src/main.rs: what the handling of a detected trade sets off.
use rust_solana_cc_v.Prelude.{
  ℕ, ◌+◌, Bool, true, false, ◌&&◌, not, ◌≡◌, inl, inr, refl, Option, none, some, List, [], ◌∷◌,
  arith, Str, Pubkey, All, All-mono, All-retain, retain-All, Elem, if_cases, retain, if◌then◌else◌,
  is_empty,
}
use rust_solana_cc_v.Float.{F64}
use rust_solana_cc_v.Groups.Group.{CopyGroup}
use rust_solana_cc_v.Groups.Manager.{GroupManager, member, all_groups, groups_for_wallet}
use rust_solana_cc_v.Groups.Changes.{is_blocked}
use rust_solana_cc_v.Manager.Store.{AutoSellManager}
use rust_solana_cc_v.Dedup.Signatures.{should_skip_signature}
use rust_solana_cc_v.Stream.Types.{DetectedTrade}
use rust_solana_cc_v.Dispatch.Tokens.{extract_token_info}
use rust_solana_cc_v.Dispatch.Trades.{Effect, Dispatcher, copy_trade, handle_trade}
use rust_solana_cc_v.Dispatch.Due.{All-both, Follows, IsDue}
use rust_solana_cc_v.Dispatch.Entries.{copy_trade-IsDue}
use rust_solana_cc_v.Consensus.Runs.{EngineValid}

All-self {ℓ} : {A : Type ℓ} (xs : List A) → All (λ a. Elem a xs) xs
All-self [] = tt
All-self (x ∷ xs) = (inl refl, All-mono (λ a there. inr there) xs (All-self xs))

module _ {R : Type 0} ⦃f : F64 R⦄ (positions : AutoSellManager R) (groups : GroupManager R)
    (trade : DetectedTrade) where
  groups-Follows :
      All (Follows positions groups trade) (groups_for_wallet trade.source_wallet groups)
  unfolding groups_for_wallet
  groups-Follows =
      let p = λ (g : CopyGroup R). g.enabled && member trade.source_wallet g.wallets in
      All-both (λ g. Elem g (all_groups groups)) (λ g. p g ≡ true) (retain p (all_groups groups))
        (All-retain (λ g. Elem g (all_groups groups)) p (all_groups groups)
          (All-self (all_groups groups)))
        (retain-All p (all_groups groups))

  module _ (from_str : Str → Pubkey) where
    -- The effect of a trade on a token that is not blocked.
    abbrev pub IsAllowed : ℕ → Effect R → Type 0
    IsAllowed now e =
        (token : Pubkey × Pubkey) × (extract_token_info from_str trade ≡ some token)
        × (is_blocked token.0 groups ≡ false)
        × IsDue positions groups trade now token.0 token.1 e

    -- The trade is not taken for one that was seen.
    abbrev pub is_repeated : ℕ → Dispatcher → Bool
    is_repeated now d =
        (should_skip_signature now
          (record { signature = trade.signature; is_pre_execution = trade.is_pre_execution })
          d.sig_cache).1

    -- The rest of the handling, for a token or none.
    after_token : ℕ → ℕ → Dispatcher → Option (Pubkey × Pubkey) → Dispatcher × List (Effect R)
    after_token at now seen_d o = elim o [
      | none ↦ (seen_d, [])
      | some token ↦
          if is_blocked token.0 groups
          then (seen_d, [])
          else copy_trade positions now at groups trade token.0 token.1
              (groups_for_wallet trade.source_wallet groups) seen_d
    ]

    -- Once the token is looked up, `seen_d` being the dispatcher after the sighting.
    token-IsAllowed :
        (now at : ℕ) (is_running : Bool) (d seen_d : Dispatcher)
        → is_running ≡ true
        → is_repeated now d ≡ false
        → EngineValid seen_d.consensus_engine
        → (o : Option (Pubkey × Pubkey)) → extract_token_info from_str trade ≡ o
        → All
            (λ e. (is_running ≡ true) × (is_repeated now d ≡ false) × IsAllowed now e)
            (after_token at now seen_d o).1
    unfolding after_token
    token-IsAllowed now at is_running d seen_d runs fresh valid none e = tt
    token-IsAllowed now at is_running d seen_d runs fresh valid (some token) e =
        let P = λ (r : Dispatcher × List (Effect R)).
          All (λ x. (is_running ≡ true) × (is_repeated now d ≡ false) × IsAllowed now x) r.1 in
        let matching = groups_for_wallet trade.source_wallet groups in
        if_cases P (is_blocked token.0 groups) (λ blocked. tt)
          (λ allowed.
            All-mono (λ x due. (runs, fresh, (token, e, allowed, due)))
              (copy_trade positions now at groups trade token.0 token.1 matching seen_d).1
              (copy_trade-IsDue positions groups trade now token.0 token.1 at matching seen_d valid
                groups-Follows))

    -- Where the entries of the engine are valid, a trade sets something off only while the program
    -- runs, if it is not taken for one that was seen, and on a token that is not blocked. The
    -- caches are warmed for that token and its program, for an enabled group that has the wallet
    -- and wants to enter. A buy is for an enabled group of one wallet that has the trade's wallet
    -- and enters with such a trade, which has not failed and is large enough for the group; its
    -- token, wallet, origin, time and instruction are the trade's. A trigger has the id of such a
    -- group, of several wallets, and the token; it lists different wallets, the trade's among
    -- them, and has a quorum that is reached by a signal which says of the group and of the trade
    -- what they are. A signal to sell is for the position of the token and of an enabled group
    -- that has the wallet and follows sales; the position can be sold and has attempts left, and
    -- the trade is a sale that has not failed.
    pub handle_trade-IsAllowed :
        (now at : ℕ) (is_running : Bool) (d : Dispatcher)
        → EngineValid d.consensus_engine
        → All
            (λ e. (is_running ≡ true) × (is_repeated now d ≡ false) × IsAllowed now e)
            (handle_trade positions from_str now at is_running groups trade d).1
    unfolding handle_trade after_token
    handle_trade-IsAllowed now at is_running d valid =
        let Q =
          λ (e : Effect R). (is_running ≡ true) × (is_repeated now d ≡ false) × IsAllowed now e in
        let P = λ (r : Dispatcher × List (Effect R)). All Q r.1 in
        let matching = groups_for_wallet trade.source_wallet groups in
        let seen_d : Dispatcher = record d {
          grpc_events = d.grpc_events + 1;
          sig_cache =
              (should_skip_signature now
                (record { signature = trade.signature; is_pre_execution = trade.is_pre_execution })
                d.sig_cache).0;
        } in
        if_cases P (not is_running) (λ idle. tt)
          (λ runs.
            if_cases P (is_repeated now d) (λ seen. tt)
              (λ fresh.
                if_cases P (is_empty matching) (λ nobody. tt)
                  (λ somebody.
                    token-IsAllowed now at is_running d seen_d (ground arith) fresh valid
                      (extract_token_info from_str trade) refl)))
